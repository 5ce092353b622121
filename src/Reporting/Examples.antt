-- ===== src/Reporting/Examples.antt =====
-- The text of a page (src/url_crawler/reporting.py).
use url_crawler.Reporting.Strings.{read_quoted, read_quoted-quoted}
use url_crawler.Reporting.Records.{record_lines, written-split_on}
use url_crawler.Reporting.Json.{dumps, escaped, escape, quoted}
use url_crawler.Reporting.Jsonl.{write_record, written}
use url_crawler.Base.{[], ◌∷◌, none, some, ◌≡◌, refl, codes, split_on, has_char, ℕ, ◌++◌, Text}
use url_crawler.Models.{PageResult, timeout, no_stats}
use url_crawler.Reporting.{write_page}
use url_crawler.Reporting.Lines.{lines_of, write_page-split_on}

abbrev page : PageResult
page = record {
  url = codes "http://a.org/";
  status = some 301;
  links = codes "http://a.org/b" ∷ [];
  error = none;
}

text_written : write_page page ≡ codes "http://a.org/  [redirect 301]\n  http://a.org/b\n\n"
unfolding write_page
text_written = refl

page_lines : split_on b'\n' (write_page page) ≡ lines_of page
unfolding has_char
page_lines = write_page-split_on page refl (refl, tt)

abbrev broken_page : PageResult
broken_page = record {
  url = codes "http://a.org/\n";
  status = none;
  links = [];
  error =
      some (record {
        url = [];
        kind = timeout;
        status = none;
        message = codes "a \"b\"";
        attempts = 3;
      });
}

record_written :
    write_record broken_page
    ≡ codes
        "{\"url\": \"http://a.org/\\n\", \"status\": null, \"links\": [], \"error\": {\"kind\": \"timeout\", \"status\": null, \"message\": \"a \\\"b\\\"\"}}\n"
unfolding write_record dumps escaped escape
record_written = refl

abbrev no_time : ℕ → Text
no_time n = codes "0.0"

written-split_on_example :
    split_on b'\n' (written no_time (broken_page ∷ page ∷ []) no_stats 0)
    ≡ record_lines no_time (broken_page ∷ page ∷ []) no_stats 0
unfolding has_char
written-split_on_example = written-split_on no_time (λ n. refl) (broken_page ∷ page ∷ []) no_stats 0

text_read_back :
    read_quoted (quoted (codes "a\n\"b\"") ++ codes ", ") ≡ some (codes "a\n\"b\"", codes ", ")
text_read_back = read_quoted-quoted (codes "a\n\"b\"") (codes ", ")
