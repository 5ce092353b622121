-- ===== src/Reporting.antt =====
-- src/url_crawler/reporting.py: what `TextReporter` writes for a page, and in Jsonl `JsonlReporter`. The
-- stream is the text written to it.
pub mod Json
pub mod Jsonl
pub mod Records
pub mod Strings
pub mod Lines
mod Examples
use url_crawler.Base.{
  ℕ, List, [], ◌∷◌, ◌++◌, Option, none, some, Bool, true, false, ◌&&◌, Text, codes, map, decimal,
  leb, ltb, if◌then◌else◌,
}
use url_crawler.Models.{FetchError, kind_value, PageResult}

abbrev pub status_part : Option ℕ → Text
status_part none = []
status_part (some status) = b' ' ∷ decimal status

abbrev pub redirect_part : Option ℕ → Text
redirect_part none = []
redirect_part (some status) =
    if leb 300 status && ltb status 400
    then codes "  [redirect " ++ decimal status ++ codes "]"
    else []

abbrev pub note : Option FetchError → Option ℕ → Text
note (some error) status =
    codes "  [error: " ++ kind_value error.kind ++ status_part error.status ++ codes "]"
note none status = redirect_part status

unfoldable pub header : PageResult → Text
unfolding decimal
header page = page.url ++ note page.error page.status

-- `f"  {link}"`, and a line of the stream.
abbrev pub indented : Text → Text
indented link = codes "  " ++ link

abbrev pub line : Text → Text
line text = text ++ b'\n' ∷ []

unfoldable pub write_links : List Text → Text
write_links [] = []
write_links (link ∷ links) = line (indented link) ++ write_links links

-- `TextReporter.page`.
unfoldable pub write_page : PageResult → Text
unfolding header write_links
write_page page = line (header page) ++ write_links page.links ++ line []
