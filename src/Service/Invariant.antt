-- ===== src/Service/Invariant.antt =====
-- What a run of src/url_crawler_service keeps between the reporter's buffer and the page table.
use url_crawler.Base.{
  ℕ, ◌+◌, List, [], ◌∷◌, ◌++◌, Option, none, some, Bool, true, false, ◌≡◌, refl, sym, subst, ap,
  ◌∙◌, append_assoc, append-nil, if◌then◌else◌, length, drop,
}
use url_crawler.Models.{PageResult}
use url_crawler.Repository.Rows.{PageRow, Page}
use url_crawler.DbReporter.{
  DbReporter, page_row, page, start_flush, send, lock, wake, close, insert_returned, insert_raised,
}
use url_crawler.DbReporter.Delivery.{Kept, Heads}
use url_crawler.Service.Stored.{stored, put_all, put_all-rest, Numbered, Numbered-left}

-- The rows that are on their way begin with the rows of an insert whose acknowledgement was lost.
abbrev pub Sending : List PageRow → Option (List PageRow) → Type 0
Sending extra none = Unit {0}
Sending extra (some rows) = (more : List PageRow) × (rows ≡ extra ++ more)

-- The table holds the rows that the reporter knows to be committed, then such rows, which the buffer
-- still holds.
abbrev pub InTable : ℕ → List Page → DbReporter → Type 0
InTable id pages d =
    (extra : List PageRow) × (rest : List PageRow) × (stored id pages ≡ d.committed ++ extra)
    × (d.buffer ≡ extra ++ rest)
    × Sending extra d.writing

pub page-InTable :
    (id batch_size : ℕ) (result : PageResult) (now : ℕ) (pages : List Page) (d : DbReporter)
    → InTable id pages d
    → InTable id pages (page batch_size result now d)
unfolding page
page-InTable id batch_size result now pages d (extra, rest, t, b, s) =
    let row = page_row (d.seq + 1) result now in
    (
      extra,
      rest ++ row ∷ [],
      t,
      ap (λ rows. rows ++ row ∷ []) b ∙ append_assoc extra rest (row ∷ []),
      s,
    )

send-InTable :
    (id : ℕ) (rows : List PageRow) (pages : List Page) (d : DbReporter)
    → d.buffer ≡ rows
    → InTable id pages d
    → InTable id pages (send rows d)
send-InTable id [] pages d e h = h
send-InTable id (row ∷ rows) pages d e (extra, rest, t, b, s) =
    (extra, rest, t, b, (rest, sym e ∙ b))

lock-InTable :
    (id : ℕ) (w : Option (List PageRow)) (pages : List Page) (d : DbReporter)
    → InTable id pages d
    → InTable id pages (lock w d)
lock-InTable id none pages d h = send-InTable id d.buffer pages d refl h
lock-InTable id (some rows) pages d h = h

if-InTable :
    (id : ℕ) (b : Bool) (pages : List Page) (x y : DbReporter)
    → InTable id pages x
    → InTable id pages y
    → InTable id pages (if b then x else y)
if-InTable id true pages x y h k = h
if-InTable id false pages x y h k = k

pub wake-InTable :
    (id : ℕ) (pages : List Page) (d : DbReporter) → InTable id pages d → InTable id pages (wake d)
unfolding wake start_flush
wake-InTable id pages d h =
    if-InTable id d.closing pages d (lock d.writing (record d { full = false })) h
      (lock-InTable id d.writing pages (record d { full = false }) h)

pub close-InTable :
    (id : ℕ) (pages : List Page) (d : DbReporter) → InTable id pages d → InTable id pages (close d)
unfolding close start_flush
close-InTable id pages d h =
    lock-InTable id d.writing pages (record d { closing = true; full = true }) h

pub raised-InTable :
    (id : ℕ) (pages : List Page) (d : DbReporter)
    → InTable id pages d
    → InTable id pages (insert_raised d)
unfolding insert_raised
raised-InTable id pages d (extra, rest, t, b, s) = (extra, rest, t, b, tt)

-- A committed batch: afterwards the table holds it after the committed rows, once.
pub batch_stored :
    (id : ℕ) (all rows : List PageRow) (pages after : List Page) (d : DbReporter)
    → Kept all d
    → Numbered 0 all
    → d.writing ≡ some rows
    → stored id after ≡ put_all rows (stored id pages)
    → InTable id pages d
    → stored id after ≡ d.committed ++ rows
batch_stored id all rows pages after d k n w e (extra, rest, t, b, s) =
    let (more, q) = subst (Sending extra) w s in
    let (left, g) = subst (λ o. Heads o d.buffer) w k.heads in
    let whole : all ≡ (d.committed ++ rows) ++ left =
      sym k.split ∙ ap (λ b. d.committed ++ b) g ∙ sym (append_assoc d.committed rows left) in
    let head : Numbered 0 (d.committed ++ (extra ++ more)) =
      subst (λ b. Numbered 0 (d.committed ++ b)) q
        (Numbered-left 0 (d.committed ++ rows) left (subst (Numbered 0) whole n)) in
    e
    ∙ ap (put_all rows) t
    ∙ ap (λ b. put_all b (d.committed ++ extra)) q
    ∙ put_all-rest d.committed extra more head
    ∙ ap (λ b. d.committed ++ b) (sym q)

-- The insert returns.
pub returned-InTable :
    (id : ℕ) (rows : List PageRow) (pages : List Page) (d : DbReporter)
    → d.writing ≡ some rows
    → stored id pages ≡ d.committed ++ rows
    → InTable id pages (insert_returned d)
unfolding insert_returned
returned-InTable id rows pages d w e =
    rw w ([], drop (length rows) d.buffer, e ∙ sym (append-nil (d.committed ++ rows)), refl, tt)

-- The insert is committed and raises.
pub unheard-InTable :
    (id : ℕ) (rows : List PageRow) (pages : List Page) (d : DbReporter)
    → d.writing ≡ some rows
    → Heads d.writing d.buffer
    → stored id pages ≡ d.committed ++ rows
    → InTable id pages (insert_raised d)
unfolding insert_raised
unheard-InTable id rows pages d w h e =
    let (left, g) = subst (λ o. Heads o d.buffer) w h in (rows, left, e, g, tt)
