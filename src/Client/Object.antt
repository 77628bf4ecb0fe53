-- ===== src/Client/Object.antt =====
-- How the file of statistics that client/main.cpp writes is laid out.
use mathlib.Core.List.{append_assoc}
use win_udpsharded_echo.Prelude.{
  ℕ, ◌≡◌, refl, sym, ap, ◌∙◌, List, [], ◌∷◌, ◌++◌, true, Option, none, some, Text, codes,
}
use win_udpsharded_echo.Float.{Double, nought, one, ◌≼◌}
use win_udpsharded_echo.TDigest.{TDigest, percentile}
use win_udpsharded_echo.TDigest.Quantiles.{percentile-some, percentile-empty}
use win_udpsharded_echo.Client.Stats.{Totals}
use win_udpsharded_echo.Client.Report.{
  Figures, NumberFormats, Fields, entry, write_lines, last_line, deciles, quantile, scalars,
  percentile_rows, file_text, stats_file,
}

-- The layout of an object with these members, one in a line, a comma after each but the last. Whether a
-- value is a number of JSON is another matter: NaN is none.
abbrev pub members : Fields → Text
members [] = []
members ((key, value) ∷ []) = entry key value ++ codes "\n"
members ((key, value) ∷ x ∷ rest) = entry key value ++ codes ",\n" ++ members (x ∷ rest)

abbrev pub object : Fields → Text
object fields = codes "{\n" ++ members fields ++ codes "}\n"

one_line : (e c w m rest : Text) → w ++ m ≡ rest → ((e ++ c) ++ w) ++ m ≡ (e ++ c) ++ rest
one_line e c w m rest h = append_assoc (e ++ c) w m ∙ ap (λ r. (e ++ c) ++ r) h

write_lines-members :
    (lines : Fields) (x : Text × Text) (rest : Fields)
    → write_lines lines ++ members (x ∷ rest) ≡ members (lines ++ x ∷ rest)
unfolding write_lines
write_lines-members [] x rest = refl
write_lines-members ((key, value) ∷ []) x rest =
    one_line (entry key value) (codes ",\n") [] _ _ refl
write_lines-members ((key, value) ∷ y ∷ lines) x rest =
    one_line (entry key value) (codes ",\n") (write_lines (y ∷ lines)) (members (x ∷ rest))
      (members (y ∷ lines ++ x ∷ rest)) (write_lines-members (y ∷ lines) x rest)

module _ {F : Type 0} ⦃d : Double F⦄ (sort : List (F × F) → List (F × F))
    (f : NumberFormats F) where
  open d use {lit, nan}

  -- A quantile that `percentile` takes.
  abbrev pub IsQuantile : F → Type 0
  IsQuantile q = (nought ≼ q) × (q ≼ one)

  abbrev pub or_nan : Option F → F
  or_nan none = nan
  or_nan (some v) = v

  -- The value that `percentile` gives for such a quantile.
  abbrev pub value_at : F → TDigest F → F
  value_at q t = or_nan (percentile sort q t)

  percentile-IsQuantile :
      (q : F) (t : TDigest F) → IsQuantile q → percentile sort q t ≡ some (value_at q t)
  percentile-IsQuantile q t (a, b) =
      let (v, e) = percentile-some sort q t a b in e ∙ sym (ap (λ o. some (or_nan o)) e)

  abbrev pub tenths : Text → ℕ → TDigest F → List ℕ → Fields
  tenths name digits t [] = []
  tenths name digits t (p ∷ ps) =
      (name ++ codes "_p" ++ f.decimal p ++ codes "_ms", f.fixed digits (value_at (quantile p) t))
      ∷ tenths name digits t ps

  abbrev pub AreQuantiles : List ℕ → Type 0
  AreQuantiles [] = Unit {0}
  AreQuantiles (p ∷ ps) = IsQuantile (quantile p) × AreQuantiles ps

  percentile_rows-tenths :
      (name : Text) (digits : ℕ) (t : TDigest F) (ps : List ℕ)
      → AreQuantiles ps
      → percentile_rows sort f name digits t ps ≡ some (tenths name digits t ps)
  unfolding percentile_rows
  percentile_rows-tenths name digits t [] q = refl
  percentile_rows-tenths name digits t (p ∷ ps) (q, qs) =
      rw (percentile-IsQuantile (quantile p) t q, percentile_rows-tenths name digits t ps qs) refl

  -- The members that the file is meant to have.
  abbrev pub fields : Totals → Figures F → TDigest F → TDigest F → Fields
  fields t g rtt pacing =
      scalars sort f t g
      ++ tenths (codes "rtt") 2 rtt deciles
      ++ ((codes "rtt_p99_ms", f.fixed 2 (value_at (lit 99 2) rtt))
          ∷ (codes "rtt_p999_ms", f.fixed 2 (value_at (lit 999 3) rtt))
          ∷ [])
      ++ tenths (codes "pacing") 3 pacing deciles
      ++ ((codes "pacing_p99_ms", f.fixed 3 (value_at (lit 99 2) pacing)) ∷ [])
      ++ ((codes "pacing_p999_ms", f.fixed 3 (value_at (lit 999 3) pacing)) ∷ [])

  file_text-object :
      (first rtt_rows : Fields) (a b : F) (pacing_rows : Fields) (c e : F)
      → file_text sort f first rtt_rows a b pacing_rows c e
        ≡ object (
            first
            ++ rtt_rows
            ++ ((codes "rtt_p99_ms", f.fixed 2 a) ∷ (codes "rtt_p999_ms", f.fixed 2 b) ∷ [])
            ++ pacing_rows
            ++ ((codes "pacing_p99_ms", f.fixed 3 c) ∷ [])
            ++ ((codes "pacing_p999_ms", f.fixed 3 e) ∷ []))
  unfolding file_text
  file_text-object first rtt_rows a b pacing_rows c e =
      let lines =
        first
        ++ rtt_rows
        ++ ((codes "rtt_p99_ms", f.fixed 2 a) ∷ (codes "rtt_p999_ms", f.fixed 2 b) ∷ [])
        ++ pacing_rows
        ++ ((codes "pacing_p99_ms", f.fixed 3 c) ∷ []) in
      ap (λ x. x ++ codes "}\n")
        (append_assoc (codes "{\n") (write_lines lines)
            (last_line (codes "pacing_p999_ms") (f.fixed 3 e))
          ∙ ap (λ x. codes "{\n" ++ x)
              (write_lines-members lines (codes "pacing_p999_ms", f.fixed 3 e) []))

  -- When the quantiles 0.1 to 0.9, 0.99 and 0.999 are from 0 to 1 as doubles, the file of statistics is
  -- written whole, with a comma after each member but the last.
  pub stats_file-object :
      (t : Totals) (g : Figures F) (rtt pacing : TDigest F)
      → AreQuantiles deciles
      → IsQuantile (lit 99 2)
      → IsQuantile (lit 999 3)
      → stats_file sort f t g rtt pacing ≡ some (object (fields t g rtt pacing))
  unfolding stats_file
  stats_file-object t g rtt pacing ten high higher =
      rw
        (
          percentile_rows-tenths (codes "rtt") 2 rtt deciles ten,
          percentile_rows-tenths (codes "pacing") 3 pacing deciles ten,
          percentile-IsQuantile (lit 99 2) rtt high,
          percentile-IsQuantile (lit 999 3) rtt higher,
          percentile-IsQuantile (lit 99 2) pacing high,
          percentile-IsQuantile (lit 999 3) pacing higher,
        )
        (ap some (
          file_text-object (scalars sort f t g) (tenths (codes "rtt") 2 rtt deciles)
            (value_at (lit 99 2) rtt) (value_at (lit 999 3) rtt)
            (tenths (codes "pacing") 3 pacing deciles) (value_at (lit 99 2) pacing)
            (value_at (lit 999 3) pacing)))

  -- Without an echo the digest of the round-trip times is empty, and each of its members is what
  -- `std::format` makes of NaN.
  pub value_at-empty :
      (q : F) (t : TDigest F)
      → IsQuantile q
      → d.le t.total_weight nought ≡ true
      → value_at q t ≡ nan
  value_at-empty q t (a, b) h = ap or_nan (percentile-empty sort q t a b h)
