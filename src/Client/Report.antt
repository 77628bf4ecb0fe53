-- ===== src/Client/Report.antt =====
-- The figures of `main` in client/main.cpp, and the file of statistics that it writes on request.
-- `std::format` of numbers is a parameter, and a percentile is `none` where the call throws.
use win_udpsharded_echo.Prelude.{
  ℕ, List, [], ◌∷◌, ◌++◌, Option, some, ltb, ◌==◌, if◌then◌else◌, Text, codes,
}
use win_udpsharded_echo.Float.{Double, nought}
use win_udpsharded_echo.Options.{◌>>=◌}
use win_udpsharded_echo.TDigest.{TDigest, percentile}
use win_udpsharded_echo.Client.Stats.{Totals}

pub record Figures (F : Type 0) : Type 0 where
  pub duration_s : F
  pub pps_sent : F
  pub pps_recv : F
  pub mbps_sent : F
  pub mbps_recv : F
  pub drop_pct : F
  pub min_rtt_ms : F
  pub avg_rtt_ms : F
  pub max_rtt_ms : F

-- `{}` of a whole number, and `{:.nf}` of a `double`.
pub record NumberFormats (F : Type 0) : Type 0 where
  pub decimal : ℕ → Text
  pub fixed : ℕ → F → Text

abbrev pub Fields : Type 0
Fields = List (Text × Text)

abbrev pub entry : Text → Text → Text
entry key value = codes "  \"" ++ key ++ codes "\": " ++ value

-- The lines of the file, and its last one.
unfoldable pub write_lines : Fields → Text
write_lines [] = []
write_lines ((key, value) ∷ rest) = (entry key value ++ codes ",\n") ++ write_lines rest

abbrev pub last_line : Text → Text → Text
last_line key value = entry key value ++ codes "\n"

abbrev pub deciles : List ℕ
deciles = 10 ∷ 20 ∷ 30 ∷ 40 ∷ 50 ∷ 60 ∷ 70 ∷ 80 ∷ 90 ∷ []

abbrev pub quantile : {F : Type 0} ⦃d : Double F⦄ → ℕ → F
quantile ⦃d⦄ p = d.div (d.of_u64 p) (d.lit 100 0)

module _ {F : Type 0} ⦃d : Double F⦄ where
  open d use {mul, div, lit, of_u64}

  -- The duration is in milliseconds.
  unfoldable pub figures : ℕ → Totals → Figures F
  figures duration_ms t =
      let duration_s = div (of_u64 duration_ms) (lit 1000 0) in
      record {
        duration_s = duration_s;
        pps_sent = div (of_u64 t.total_sent) duration_s;
        pps_recv = div (of_u64 t.total_recv) duration_s;
        mbps_sent =
            div (mul (of_u64 t.total_bytes_sent) (lit 8 0)) (mul duration_s (lit 1_000_000 0));
        mbps_recv =
            div (mul (of_u64 t.total_bytes_recv) (lit 8 0)) (mul duration_s (lit 1_000_000 0));
        drop_pct =
            if ltb 0 t.total_sent
            then div (mul (lit 100 0) (of_u64 t.total_dropped)) (of_u64 t.total_sent)
            else nought;
        min_rtt_ms =
            if t.min_rtt == 18_446_744_073_709_551_615
            then nought
            else div (of_u64 t.min_rtt) (lit 1_000_000 0);
        avg_rtt_ms =
            if ltb 0 t.total_recv
            then div (div (of_u64 t.total_rtt) (of_u64 t.total_recv)) (lit 1_000_000 0)
            else nought;
        max_rtt_ms = div (of_u64 t.max_rtt) (lit 1_000_000 0);
      }

module _ {F : Type 0} ⦃d : Double F⦄ (sort : List (F × F) → List (F × F))
    (f : NumberFormats F) where
  open d use {lit}

  -- The lines before the percentiles.
  unfoldable pub scalars : Totals → Figures F → Fields
  scalars t g =
      (codes "duration_s", f.fixed 2 g.duration_s)
      ∷ (codes "packets_sent", f.decimal t.total_sent)
      ∷ (codes "packets_received", f.decimal t.total_recv)
      ∷ (codes "packets_dropped", f.decimal t.total_dropped)
      ∷ (codes "packets_dropped_pct", f.fixed 2 g.drop_pct)
      ∷ (codes "pps_sent", f.fixed 2 g.pps_sent)
      ∷ (codes "pps_recv", f.fixed 2 g.pps_recv)
      ∷ (codes "bytes_sent", f.decimal t.total_bytes_sent)
      ∷ (codes "bytes_received", f.decimal t.total_bytes_recv)
      ∷ (codes "mbps_sent", f.fixed 2 g.mbps_sent)
      ∷ (codes "mbps_recv", f.fixed 2 g.mbps_recv)
      ∷ (codes "rtt_min_ms", f.fixed 2 g.min_rtt_ms)
      ∷ (codes "rtt_avg_ms", f.fixed 2 g.avg_rtt_ms)
      ∷ (codes "rtt_max_ms", f.fixed 2 g.max_rtt_ms)
      ∷ []

  -- The loop over every tenth percentile, in a digest whose lines start with `name`.
  unfoldable pub percentile_rows : Text → ℕ → TDigest F → List ℕ → Option Fields
  percentile_rows name digits t [] = some []
  percentile_rows name digits t (p ∷ ps) = do
    v ← percentile sort (quantile p) t
    rest ← percentile_rows name digits t ps
    some ((name ++ codes "_p" ++ f.decimal p ++ codes "_ms", f.fixed digits v) ∷ rest)

  -- The whole file, line by line.
  unfoldable pub file_text : Fields → Fields → F → F → Fields → F → F → Text
  file_text first rtt_rows rtt_p99 rtt_p999 pacing_rows pacing_p99 pacing_p999 =
      codes "{\n"
      ++ write_lines (
          first
          ++ rtt_rows
          ++ ((codes "rtt_p99_ms", f.fixed 2 rtt_p99)
              ∷ (codes "rtt_p999_ms", f.fixed 2 rtt_p999)
              ∷ [])
          ++ pacing_rows
          ++ ((codes "pacing_p99_ms", f.fixed 3 pacing_p99) ∷ []))
      ++ last_line (codes "pacing_p999_ms") (f.fixed 3 pacing_p999)
      ++ codes "}\n"

  unfoldable pub stats_file : Totals → Figures F → TDigest F → TDigest F → Option Text
  stats_file t g rtt pacing = do
    rtt_rows ← percentile_rows (codes "rtt") 2 rtt deciles
    rtt_p99 ← percentile sort (lit 99 2) rtt
    rtt_p999 ← percentile sort (lit 999 3) rtt
    pacing_rows ← percentile_rows (codes "pacing") 3 pacing deciles
    pacing_p99 ← percentile sort (lit 99 2) pacing
    pacing_p999 ← percentile sort (lit 999 3) pacing
    some (file_text (scalars t g) rtt_rows rtt_p99 rtt_p999 pacing_rows pacing_p99 pacing_p999)
