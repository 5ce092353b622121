-- ===== src/Reporting/Jsonl.antt =====
-- src/url_crawler/reporting.py: `JsonlReporter`. The stream is the text written to it.
use url_crawler.Base.{ℕ, List, [], ◌∷◌, ◌++◌, Option, none, some, Text, codes}
use url_crawler.Models.{kind_value, FetchError, PageResult, Counter, CrawlStats, Summary, summary}
use url_crawler.Reporting.{line}
use url_crawler.Reporting.Json.{
  Json, null, number, float, string, array, object, Items, no_items, item, Members, no_members,
  member, dumps,
}

abbrev pub number_or_null : Option ℕ → Json
number_or_null none = null
number_or_null (some n) = number n

abbrev pub strings : List Text → Items
strings [] = no_items
strings (s ∷ ss) = item (string s) (strings ss)

abbrev pub error_of : Option FetchError → Json
error_of none = null
error_of (some error) = object (
    member (codes "kind") (string (kind_value error.kind)) (
      member (codes "status") (number_or_null error.status)
        (member (codes "message") (string error.message) no_members)))

abbrev pub page_record : PageResult → Json
page_record result = object (
    member (codes "url") (string result.url) (
      member (codes "status") (number_or_null result.status) (
        member (codes "links") (array (strings result.links))
          (member (codes "error") (error_of result.error) no_members))))

-- `dict(stats.pages_failed)`.
abbrev pub counts : Counter → Members
counts [] = no_members
counts ((kind, n) ∷ rest) = member (kind_value kind) (number n) (counts rest)

-- `JsonlReporter.page`.
unfoldable pub write_record : PageResult → Text
unfolding dumps
write_record result = line (dumps (page_record result))

-- `repr` of the rounded seconds.
module _ (seconds_repr : ℕ → Text) where
  abbrev pub summary_entries : Summary → Members
  summary_entries s = member (codes "pages_ok") (number s.pages_ok) (
      member (codes "pages_failed") (object (counts s.pages_failed)) (
        member (codes "pages_without_links") (number s.pages_without_links) (
          member (codes "redirects") (number s.redirects) (
            member (codes "links_found") (number s.links_found) (
              member (codes "duplicates_dropped") (number s.duplicates_dropped) (
                member (codes "retries") (number s.retries) (
                  member (codes "pages_total") (number s.pages_total) (
                    member (codes "elapsed_seconds") (float (seconds_repr s.elapsed_milliseconds))
                      no_members))))))))

  abbrev pub summary_record : CrawlStats → ℕ → Json
  summary_record stats elapsed =
      object
        (member (codes "summary") (object (summary_entries (summary stats elapsed))) no_members)

  -- `JsonlReporter.finish`.
  unfoldable pub write_summary : CrawlStats → ℕ → Text
  unfolding dumps
  write_summary stats elapsed = line (dumps (summary_record stats elapsed))

  -- What the stream holds after the calls of `page` and the one of `finish`.
  unfoldable pub written : List PageResult → CrawlStats → ℕ → Text
  unfolding write_record write_summary
  written [] stats elapsed = write_summary stats elapsed
  written (result ∷ results) stats elapsed = write_record result ++ written results stats elapsed
