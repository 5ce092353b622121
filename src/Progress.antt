-- ===== src/Progress.antt =====
-- src/url_crawler/progress.py: the status line of a terminal, and the banner. The stream is the text
-- written to it; the floats' arithmetic and their `:.1f` are parameters.
mod OneLine
mod Examples
use url_crawler.Base.{
  ℕ, zero, suc, ◌+◌, ◌/◌, ◌%◌, List, [], ◌∷◌, ◌++◌, Option, none, some, Bool, true, false, Text,
  codes, decimal, ltb, ◌==◌, if◌then◌else◌,
}
use url_crawler.Models.{CrawlStats, sum_values, pages_total}

-- The division of a count by the elapsed time.
pub record Floats (F : Type 0) : Type 0 where
  pub is_positive : F → Bool
  pub zero_rate : F
  pub per : ℕ → F → F
  pub fixed1 : F → Text

-- The last three digits of `n`.
abbrev pub three_digits : ℕ → Text
three_digits n = (b'0' + n / 100 % 10) ∷ (b'0' + n / 10 % 10) ∷ (b'0' + n % 10) ∷ []

unfoldable pub grouped_fuel : ℕ → ℕ → Text
grouped_fuel zero n = []
grouped_fuel (suc f) n =
    let more = grouped_fuel f (n / 1000) in
    if ltb n 1000 then decimal n else more ++ b',' ∷ three_digits n

-- `f"{n:,}"`; the fuel is more than the digits of `n`.
unfoldable pub grouped : ℕ → Text
unfolding grouped_fuel decimal
grouped n = grouped_fuel (n + 1) n

abbrev pub failures_part : ℕ → Text
failures_part failed =
    if failed == 0 then [] else codes " (" ++ (grouped failed ++ codes " failed)")

-- `"\x1b[K"`.
abbrev pub erase_line : Text
erase_line = 27 ∷ codes "[K"

module _ {F : Type 0} (floats : Floats F) where
  abbrev pub rate_of : CrawlStats → F → F
  rate_of stats elapsed =
      if floats.is_positive elapsed
      then floats.per (pages_total stats) elapsed
      else floats.zero_rate

  unfoldable pub format_progress : CrawlStats → ℕ → F → Text
  unfolding grouped pages_total sum_values
  format_progress stats pending elapsed =
      codes "pages "
      ++ (grouped (pages_total stats)
          ++ (failures_part (sum_values stats.pages_failed)
              ++ (codes " | queued "
                  ++ (grouped pending
                      ++ (codes " | links "
                          ++ (grouped stats.links_found
                              ++ (codes " | "
                                  ++ (floats.fixed1 (rate_of stats elapsed)
                                      ++ (codes " pages/s | "
                                          ++ (floats.fixed1 elapsed ++ codes "s"))))))))))

  abbrev pub clear : Text
  clear = b'\r' ∷ erase_line

  unfoldable pub render : CrawlStats × (ℕ × F) → Text
  unfolding format_progress
  render (stats, (pending, elapsed)) = b'\r' ∷ (erase_line ++ format_progress stats pending elapsed)

  -- `run` until it is cancelled: what it finds at each turn.
  unfoldable pub run_line : List (CrawlStats × (ℕ × F)) → Text
  unfolding render
  run_line [] = clear
  run_line (turn ∷ turns) = render turn ++ run_line turns

abbrev pub job_api_notice : Text
job_api_notice =
    codes
      "Long or unattended crawl? Run it as a job with url-crawler-api and url-crawler-worker; see README, \"Crawl service\"."

abbrev pub robots_part : Bool → Text
robots_part respect_robots =
    if respect_robots then codes "robots.txt on" else codes "robots.txt off"

-- `format_banner`, with `str(config.concurrency)`.
unfoldable pub format_banner : Text → Text → Bool → Text → Text → Text
format_banner seed concurrency respect_robots output_format version =
    codes "url-crawler "
    ++ (version
        ++ (codes ": crawling "
            ++ (seed
                ++ (codes " with "
                    ++ (concurrency
                        ++ (codes " workers ("
                            ++ (robots_part respect_robots
                                ++ (codes ", "
                                    ++ (output_format
                                        ++ (codes " output)"
                                            ++ b'\n'
                                              ∷ (codes
                                                    "Results stream to stdout as pages complete. Ctrl-C stops and keeps what was crawled."
                                                  ++ b'\n' ∷ job_api_notice)))))))))))
