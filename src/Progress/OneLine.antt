-- ===== src/Progress/OneLine.antt =====
-- That the status line of src/url_crawler/progress.py stays on one line of the terminal.
use url_crawler.Base.{
  ℕ, zero, suc, ◌+◌, ◌/◌, List, [], ◌∷◌, ◌++◌, Text, codes, ltb, ◌==◌, has_char, refl, arith,
  Bool-cases, inl, inr,
}
use url_crawler.Models.{CrawlStats, sum_values, pages_total}
use url_crawler.Reporting.Lines.{append-Lacks, decimal-Lacks}
use url_crawler.Urls.Words.{Lacks}
use url_crawler.Progress.{
  Floats, three_digits, grouped_fuel, grouped, failures_part, rate_of, format_progress, render,
  run_line,
}

grouped_fuel-Lacks : (f n : ℕ) → Lacks b'\n' (grouped_fuel f n)
unfolding grouped_fuel has_char
grouped_fuel-Lacks zero n = refl
grouped_fuel-Lacks (suc f) n = elim (Bool-cases (ltb n 1000)) [
  | inl e ↦ rw (grouped_fuel, e) (decimal-Lacks n)
  | inr e ↦
      rw (grouped_fuel, e)
        (append-Lacks b'\n' (grouped_fuel f (n / 1000)) (b',' ∷ three_digits n)
          (grouped_fuel-Lacks f (n / 1000)) (ground arith))
]

grouped-Lacks : (n : ℕ) → Lacks b'\n' (grouped n)
unfolding grouped
grouped-Lacks n = grouped_fuel-Lacks (n + 1) n

failures-Lacks : (n : ℕ) → Lacks b'\n' (failures_part n)
unfolding has_char
failures-Lacks n = elim (Bool-cases (n == 0)) [
  | inl e ↦ rw e refl
  | inr e ↦ rw e (append-Lacks b'\n' (grouped n) (codes " failed)") (grouped-Lacks n) refl)
]

module _ {F : Type 0} (floats : Floats F) (plain : (x : F) → Lacks b'\n' (floats.fixed1 x)) where
  then_Lacks : (s t : Text) → Lacks b'\n' s → Lacks b'\n' t → Lacks b'\n' (s ++ t)
  then_Lacks = append-Lacks b'\n'

  format_progress-Lacks :
      (stats : CrawlStats) (pending : ℕ) (elapsed : F)
      → Lacks b'\n' (format_progress floats stats pending elapsed)
  unfolding format_progress has_char
  format_progress-Lacks stats pending elapsed =
      then_Lacks (grouped (pages_total stats)) _ (grouped-Lacks (pages_total stats)) (
        then_Lacks (failures_part (sum_values stats.pages_failed)) _
          (failures-Lacks (sum_values stats.pages_failed))
          (then_Lacks (grouped pending) _ (grouped-Lacks pending) (
            then_Lacks (grouped stats.links_found) _ (grouped-Lacks stats.links_found) (
              then_Lacks (floats.fixed1 (rate_of floats stats elapsed)) _
                (plain (rate_of floats stats elapsed))
                (then_Lacks (floats.fixed1 elapsed) _ (plain elapsed) refl)))))

  -- Whatever the counters are and however often it is drawn, the status line never moves the cursor
  -- to another line of the terminal.
  pub run_line-Lacks : (turns : List (CrawlStats × (ℕ × F))) → Lacks b'\n' (run_line floats turns)
  unfolding run_line render has_char
  run_line-Lacks [] = refl
  run_line-Lacks ((stats, (pending, elapsed)) ∷ turns) =
      then_Lacks (format_progress floats stats pending elapsed) (run_line floats turns)
        (format_progress-Lacks stats pending elapsed) (run_line-Lacks turns)
