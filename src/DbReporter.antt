-- ===== src/DbReporter.antt =====
-- src/url_crawler_service/reporter.py and models.py: the buffer between a crawl and its pages' table.
-- The methods switch at an await only, so a flush is two steps: it takes the lock and hands the rows to
-- `insert_pages`, and later that returns or raises; pages may be reported in between.
pub mod Delivery
mod Examples
use url_crawler.Base.{
  ℕ, ◌+◌, List, [], ◌∷◌, ◌++◌, Option, none, some, Bool, true, false, ◌||◌, Text, leb,
  if◌then◌else◌, length, drop,
}
use url_crawler.Models.{FetchError, PageResult, kind_value}
use url_crawler.Repository.Rows.{PageRow}

pub record DbReporter : Type 0 where
  pub buffer : List PageRow
  pub seq : ℕ
  pub pages_written : ℕ
  pub full : Bool
  pub closing : Bool
  -- The rows of the insert that the holder of the lock awaits.
  pub writing : Option (List PageRow)
  -- The rows of the inserts that returned, which the repository has committed.
  pub committed : List PageRow

abbrev pub opened : DbReporter
opened = record {
  buffer = [];
  seq = 0;
  pages_written = 0;
  full = false;
  closing = false;
  writing = none;
  committed = [];
}

abbrev kind_of : Option FetchError → Option Text
kind_of none = none
kind_of (some e) = some (kind_value e.kind)

abbrev message_of : Option FetchError → Option Text
message_of none = none
message_of (some e) = some e.message

-- `page_row`.
unfoldable pub page_row : ℕ → PageResult → ℕ → PageRow
page_row seq result fetched_at = record {
  seq = seq;
  url = result.url;
  status = result.status;
  error_kind = kind_of result.error;
  error_message = message_of result.error;
  links = result.links;
  fetched_at = fetched_at;
}

unfoldable pub page : ℕ → PageResult → ℕ → DbReporter → DbReporter
page batch_size result now d =
    let buffer = d.buffer ++ page_row (d.seq + 1) result now ∷ [] in
    record d { seq = d.seq + 1; buffer = buffer; full = leb batch_size (length buffer) || d.full }

unfoldable pub discard : DbReporter → DbReporter
discard d = record d { buffer = [] }

-- `_flush` up to its await; it waits for the lock while another flush holds it.
abbrev pub send : List PageRow → DbReporter → DbReporter
send [] d = d
send (row ∷ rows) d = record d { writing = some (row ∷ rows) }

abbrev pub lock : Option (List PageRow) → DbReporter → DbReporter
lock none d = send d.buffer d
lock (some rows) d = d

unfoldable pub start_flush : DbReporter → DbReporter
start_flush d = lock d.writing d

-- `run` wakes, by the event or by the timer.
unfoldable pub wake : DbReporter → DbReporter
unfolding start_flush
wake d = if d.closing then d else start_flush (record d { full = false })

unfoldable pub close : DbReporter → DbReporter
unfolding start_flush
close d = start_flush (record d { closing = true; full = true })

-- `_flush` after its await.
abbrev pub settle : Option (List PageRow) → DbReporter → DbReporter
settle none d = d
settle (some rows) d = record d {
  buffer = drop (length rows) d.buffer;
  pages_written = d.pages_written + length rows;
  writing = none;
  committed = d.committed ++ rows;
}

unfoldable pub insert_returned : DbReporter → DbReporter
insert_returned d = settle d.writing d

unfoldable pub insert_raised : DbReporter → DbReporter
insert_raised d = record d { writing = none }

-- What may happen to a reporter whose lease holds.
pub data Event : Type 0 where
  reported : PageResult → ℕ → Event
  woken closed returned failed : Event

unfoldable pub react : ℕ → Event → DbReporter → DbReporter
unfolding page wake close insert_returned insert_raised
react batch_size (reported result now) d = page batch_size result now d
react batch_size woken d = wake d
react batch_size closed d = close d
react batch_size returned d = insert_returned d
react batch_size failed d = insert_raised d

unfoldable pub react_all : ℕ → List Event → DbReporter → DbReporter
unfolding react
react_all batch_size [] d = d
react_all batch_size (e ∷ es) d = react_all batch_size es (react batch_size e d)
