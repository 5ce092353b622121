-- ===== src/Cli/Output.antt =====
-- src/url_crawler/cli.py: what `main` prints on stderr. The floats are those of Progress.
use url_crawler.Base.{
  ℕ, ◌++◌, Bool, true, not, ◌&&◌, ◌||◌, Text, codes, decimal, leb, min, ◌==◌, if◌then◌else◌, ◌≡◌,
  arith,
}
use url_crawler.Models.{CrawlStats, sum_values, pages_total}
use url_crawler.Progress.{Floats, rate_of}

-- The options of `main` for its output.
pub record Display : Type 0 where
  pub quiet : Bool
  pub verbose : ℕ

abbrev pub banner_enabled : Display → Bool → Bool
banner_enabled args stderr_isatty = not args.quiet && (stderr_isatty || leb 1 args.verbose)

abbrev pub progress_enabled : Display → Bool → Bool
progress_enabled args stderr_isatty = stderr_isatty && args.verbose == 0 && not args.quiet

pub data LogLevel : Type 0 where
  warning info debug : LogLevel

-- `LOG_LEVELS[min(args.verbose, len(LOG_LEVELS) - 1)]`.
abbrev pub log_level : ℕ → LogLevel
log_level verbose =
    let n = min verbose 2 in if n == 0 then warning else if n == 1 then info else debug

-- The status line is drawn only where nothing but warnings is logged over it, and never without the
-- banner.
pub progress-enabled_alone :
    (args : Display) (stderr_isatty : Bool)
    → progress_enabled args stderr_isatty ≡ true
    → (log_level args.verbose ≡ warning) × (banner_enabled args stderr_isatty ≡ true)
progress-enabled_alone args stderr_isatty e = (ground (arith, e), ground (arith, e))

module _ {F : Type 0} (floats : Floats F) where
  -- `_report_summary` after the reporter's `finish`.
  unfoldable pub summary_line : CrawlStats → F → Text
  unfolding decimal pages_total sum_values
  summary_line stats elapsed =
      codes "Crawled "
      ++ (decimal (pages_total stats)
          ++ (codes " pages ("
              ++ (decimal stats.pages_ok
                  ++ (codes " ok, "
                      ++ (decimal (sum_values stats.pages_failed)
                          ++ (codes " failed) and found "
                              ++ (decimal stats.links_found
                                  ++ (codes " links in "
                                      ++ (floats.fixed1 elapsed
                                          ++ (codes "s ("
                                              ++ (floats.fixed1 (rate_of floats stats elapsed)
                                                  ++ (codes " pages/s); "
                                                      ++ (decimal stats.retries
                                                          ++ (codes " retries, "
                                                            ++ (decimal stats.duplicates_dropped
                                                            ++ codes
                                                            " duplicate URLs skipped\n")))))))))))))))
