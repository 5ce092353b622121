-- ===== src/DbReporter/Delivery.antt =====
-- That src/url_crawler_service/reporter.py loses, repeats and reorders no page.
use url_crawler.Base.{
  ℕ, ◌+◌, List, [], ◌∷◌, ◌++◌, Option, none, some, Bool, true, false, ◌≡◌, refl, arith, length,
  drop, length-append, append_assoc, append-nil, sym, ap, subst, ◌∙◌, if◌then◌else◌,
}
use url_crawler.Models.{PageResult}
use url_crawler.Repository.Rows.{PageRow}
use url_crawler.DbReporter.{
  DbReporter, opened, page_row, page, start_flush, send, lock, wake, close, settle, insert_returned,
  insert_raised, Event, reported, woken, closed, returned, failed, react, react_all,
}

-- The rows of the pages that a list of events reports, numbered after `n`.
unfoldable pub rows_of : ℕ → List Event → List PageRow
rows_of n [] = []
rows_of n (reported result now ∷ es) = page_row (n + 1) result now ∷ rows_of (n + 1) es
rows_of n (e ∷ es) = rows_of n es

-- The rows in flight head the buffer.
abbrev pub Heads : Option (List PageRow) → List PageRow → Type 0
Heads none buffer = Unit
Heads (some rows) buffer = (rest : List PageRow) × (buffer ≡ rows ++ rest)

-- The rows so far are the committed ones and the buffer.
pub record Kept (all : List PageRow) (d : DbReporter) : Type 0 where
  pub split : d.committed ++ d.buffer ≡ all
  pub counted : d.pages_written ≡ length d.committed
  pub numbered : d.seq ≡ length all
  pub heads : Heads d.writing d.buffer

pub drop-length-append : (xs ys : List PageRow) → drop (length xs) (xs ++ ys) ≡ ys
drop-length-append [] ys = refl
drop-length-append (x ∷ xs) ys = drop-length-append xs ys

committed-split :
    (done rows rest buffer : List PageRow)
    → buffer ≡ rows ++ rest
    → (done ++ rows) ++ drop (length rows) buffer ≡ done ++ buffer
committed-split done rows rest buffer h =
    rw (h, drop-length-append rows rest) (append_assoc done rows rest)

send-Kept :
    (all : List PageRow) (d : DbReporter) (rows : List PageRow)
    → d.buffer ≡ rows
    → Kept all d
    → Kept all (send rows d)
send-Kept all d [] e k = k
send-Kept all d (row ∷ rows) e k = record {
  split = k.split;
  counted = k.counted;
  numbered = k.numbered;
  heads = ([], e ∙ sym (append-nil (row ∷ rows)));
}

lock-Kept :
    (all : List PageRow) (d : DbReporter) (w : Option (List PageRow))
    → Kept all d
    → Kept all (lock w d)
lock-Kept all d none k = send-Kept all d d.buffer refl k
lock-Kept all d (some rows) k = k

settle-Kept :
    (all : List PageRow) (d : DbReporter) (w : Option (List PageRow))
    → Heads w d.buffer
    → Kept all d
    → Kept all (settle w d)
settle-Kept all d none h k = k
settle-Kept all d (some rows) (rest, h) k = record {
  split = committed-split d.committed rows rest d.buffer h ∙ k.split;
  counted = omega (arith, length-append d.committed rows, k.counted);
  numbered = k.numbered;
  heads = tt;
}

-- The heads of a buffer stay its heads when a page is added.
Heads-append :
    (w : Option (List PageRow)) (buffer : List PageRow) (row : PageRow)
    → Heads w buffer
    → Heads w (buffer ++ row ∷ [])
Heads-append none buffer row h = tt
Heads-append (some rows) buffer row (rest, h) =
    (rest ++ row ∷ [], ap (λ b. b ++ row ∷ []) h ∙ append_assoc rows rest (row ∷ []))

page-Kept :
    (all : List PageRow) (batch_size : ℕ) (result : PageResult) (now : ℕ) (d : DbReporter)
    → Kept all d
    → Kept (all ++ page_row (length all + 1) result now ∷ []) (page batch_size result now d)
unfolding page
page-Kept all batch_size result now d k =
    let row = page_row (d.seq + 1) result now in
    record {
      split =
          rw (← k.numbered)
            (sym (append_assoc d.committed d.buffer (row ∷ [])) ∙ ap (λ b. b ++ row ∷ []) k.split);
      counted = k.counted;
      numbered =
          omega (arith, k.numbered, length-append all (page_row (length all + 1) result now ∷ []));
      heads = Heads-append d.writing d.buffer row k.heads;
    }

if-Kept :
    (all : List PageRow) (b : Bool) (x y : DbReporter)
    → Kept all x
    → Kept all y
    → Kept all (if b then x else y)
if-Kept all true x y k l = k
if-Kept all false x y k l = l

-- The rows that are to be there after an event.
abbrev pub grown : Event → List PageRow → List PageRow
grown (reported result now) all = all ++ page_row (length all + 1) result now ∷ []
grown e all = all

pub react-Kept :
    (all : List PageRow) (batch_size : ℕ) (e : Event) (d : DbReporter)
    → Kept all d
    → Kept (grown e all) (react batch_size e d)
unfolding react wake close start_flush insert_returned insert_raised
react-Kept all batch_size (reported result now) d k = page-Kept all batch_size result now d k
react-Kept all batch_size woken d k =
    if-Kept all d.closing d (lock d.writing (record d { full = false })) k (
      lock-Kept all (record d { full = false }) d.writing
        record { split = k.split; counted = k.counted; numbered = k.numbered; heads = k.heads })
react-Kept all batch_size closed d k =
    lock-Kept all (record d { closing = true; full = true }) d.writing
      record { split = k.split; counted = k.counted; numbered = k.numbered; heads = k.heads }
react-Kept all batch_size returned d k = settle-Kept all d d.writing k.heads k
react-Kept all batch_size failed d k = record {
  split = k.split;
  counted = k.counted;
  numbered = k.numbered;
  heads = tt;
}

grown-rows :
    (all : List PageRow) (e : Event) (es : List Event)
    → grown e all ++ rows_of (length (grown e all)) es ≡ all ++ rows_of (length all) (e ∷ es)
unfolding rows_of
grown-rows all (reported result now) es =
    let row = page_row (length all + 1) result now in
    rw (length-append all (row ∷ [])) (append_assoc all (row ∷ []) (rows_of (length all + 1) es))
grown-rows all woken es = refl
grown-rows all closed es = refl
grown-rows all returned es = refl
grown-rows all failed es = refl

react_all-Kept :
    (all : List PageRow) (batch_size : ℕ) (es : List Event) (d : DbReporter)
    → Kept all d
    → Kept (all ++ rows_of (length all) es) (react_all batch_size es d)
unfolding react_all rows_of
react_all-Kept all batch_size [] d k = rw (append-nil all) k
react_all-Kept all batch_size (e ∷ es) d k =
    subst (λ rows. Kept rows (react_all batch_size es (react batch_size e d))) (grown-rows all e es)
      (react_all-Kept (grown e all) batch_size es (react batch_size e d)
        (react-Kept all batch_size e d k))

-- Whatever pages are reported, flushes start and inserts return or fail, in any order, the rows
-- committed followed by the rows buffered are exactly the reported pages, in their order and numbered
-- from 1, and `pages_written` counts the committed ones.
pub react_all-delivers :
    (batch_size : ℕ) (es : List Event)
    → ((react_all batch_size es opened).committed ++ (react_all batch_size es opened).buffer
        ≡ rows_of 0 es)
      × ((react_all batch_size es opened).pages_written
          ≡ length (react_all batch_size es opened).committed)
react_all-delivers batch_size es =
    let k =
      react_all-Kept [] batch_size es opened
        record { split = refl; counted = refl; numbered = refl; heads = tt } in
    (k.split, k.counted)
