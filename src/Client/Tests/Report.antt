-- ===== src/Client/Tests/Report.antt =====
-- The file of statistics after a run in which one of four packets was dropped, with a digest of
-- round-trip times that holds two samples and one of pacing that is empty.
use win_udpsharded_echo.Prelude.{refl, [], ◌∷◌}
use win_udpsharded_echo.Float.Fixed.{Fixed, fixed_double}
use win_udpsharded_echo.TDigest.{TDigest}
use win_udpsharded_echo.TDigest.Sorting.{insertion_sort}
use win_udpsharded_echo.Client.Stats.{Totals}
use win_udpsharded_echo.Client.Report.{NumberFormats, deciles}
use win_udpsharded_echo.Client.Object.{AreQuantiles}

-- Numbers as single characters.
abbrev formats : NumberFormats Fixed
formats = record { decimal = λ n. n ∷ []; fixed = λ k x. k ∷ [] }

abbrev totals : Totals
totals = record {
  total_sent = 4;
  total_recv = 3;
  total_dropped = 1;
  total_bytes_sent = 80;
  total_bytes_recv = 60;
  total_rtt = 9_000_000;
  min_rtt = 2_000_000;
  max_rtt = 4_000_000;
}

abbrev empty : TDigest Fixed
empty = record {
  compression = fixed_double.lit 100 0;
  buffer = [];
  centroids = [];
  total_weight = fixed_double.lit 0 0;
}

abbrev sampled : TDigest Fixed
sampled = record empty {
  buffer = fixed_double.lit 2 0 ∷ fixed_double.lit 4 0 ∷ [];
  total_weight = fixed_double.lit 2 0;
}

deciles-AreQuantiles : AreQuantiles {F = Fixed} insertion_sort formats deciles
deciles-AreQuantiles = (
  (refl, refl),
  (
    (refl, refl),
    (
      (refl, refl),
      (
        (refl, refl),
        ((refl, refl), ((refl, refl), ((refl, refl), ((refl, refl), ((refl, refl), tt))))),
      ),
    ),
  ),
)
