-- ===== src/Service/Stored.antt =====
-- The rows that a batch of src/url_crawler_service/reporter.py adds to the table.
use url_crawler.Base.{
  ℕ, ◌+◌, ◌≤◌, List, [], ◌∷◌, ◌++◌, Bool, true, false, ◌&&◌, subst, ◌≡◌, refl, sym, ap, arith, any,
  All, All-imp, All-append, length, append_assoc, append-nil, ◌∙◌, ◌==◌, if◌then◌else◌,
}
use url_crawler.Repository.Rows.{PageRow, Page}
use url_crawler.Repository.{insert_page, insert_rows}

-- The rows of one crawl in the page table.
unfoldable pub stored : ℕ → List Page → List PageRow
stored id [] = []
stored id (page ∷ pages) =
    if page.crawl_id == id then page.row ∷ stored id pages else stored id pages

abbrev pub has_seq : ℕ → List PageRow → Bool
has_seq n = any (λ r. r.seq == n)

-- The insertion on the rows of the crawl.
unfoldable pub put : PageRow → List PageRow → List PageRow
put row rows = if has_seq row.seq rows then rows else rows ++ row ∷ []

unfoldable pub put_all : List PageRow → List PageRow → List PageRow
unfolding put
put_all [] rows = rows
put_all (row ∷ more) rows = put_all more (put row rows)

stored-append :
    (id k : ℕ) (row : PageRow) (pages : List Page)
    → stored id (pages ++ record { crawl_id = k; row = row } ∷ [])
      ≡ (if k == id then stored id pages ++ row ∷ [] else stored id pages)
unfolding stored
stored-append id k row [] = refl
stored-append id k row (page ∷ pages) = ground (arith, stored-append id k row pages)

has_seq-stored :
    (id n : ℕ) (pages : List Page)
    → any (λ page. page.crawl_id == id && page.row.seq == n) pages ≡ has_seq n (stored id pages)
unfolding stored any
has_seq-stored id n [] = refl
has_seq-stored id n (page ∷ pages) = ground (arith, has_seq-stored id n pages)

stored-insert_page :
    (id : ℕ) (row : PageRow) (pages : List Page)
    → stored id (insert_page id row pages) ≡ put row (stored id pages)
unfolding insert_page put
stored-insert_page id row pages =
    ground (arith, has_seq-stored id row.seq pages, stored-append id id row pages)

pub stored-insert_rows :
    (id : ℕ) (rows : List PageRow) (pages : List Page)
    → stored id (insert_rows id rows pages) ≡ put_all rows (stored id pages)
unfolding insert_rows put_all
stored-insert_rows id [] pages = refl
stored-insert_rows id (row ∷ rows) pages =
    stored-insert_rows id rows (insert_page id row pages)
    ∙ ap (put_all rows) (stored-insert_page id row pages)

stored-insert_page_other :
    (id k : ℕ) (row : PageRow) (pages : List Page)
    → (k == id) ≡ false
    → stored id (insert_page k row pages) ≡ stored id pages
unfolding insert_page
stored-insert_page_other id k row pages h = ground (arith, h, stored-append id k row pages)

-- The batch of another crawl.
pub stored-insert_rows_other :
    (id k : ℕ) (rows : List PageRow) (pages : List Page)
    → (k == id) ≡ false
    → stored id (insert_rows k rows pages) ≡ stored id pages
unfolding insert_rows
stored-insert_rows_other id k [] pages h = refl
stored-insert_rows_other id k (row ∷ rows) pages h =
    stored-insert_rows_other id k rows (insert_page k row pages) h
    ∙ stored-insert_page_other id k row pages h

-- The rows are numbered one after another, after `n`.
abbrev pub Numbered : ℕ → List PageRow → Type 0
Numbered n [] = Unit {0}
Numbered n (row ∷ rows) = (row.seq ≡ n + 1) × Numbered (n + 1) rows

pub Numbered-left : (n : ℕ) (xs ys : List PageRow) → Numbered n (xs ++ ys) → Numbered n xs
Numbered-left n [] ys h = tt
Numbered-left n (x ∷ xs) ys (e, h) = (e, Numbered-left (n + 1) xs ys h)

Numbered-right :
    (n : ℕ) (xs ys : List PageRow) → Numbered n (xs ++ ys) → Numbered (n + length xs) ys
Numbered-right n [] ys h = subst (λ k. Numbered k ys) (omega arith) h
Numbered-right n (x ∷ xs) ys (e, h) =
    subst (λ k. Numbered k ys) (omega arith) (Numbered-right (n + 1) xs ys h)

Numbered-low : (n : ℕ) (xs : List PageRow) → Numbered n xs → All (λ r. r.seq ≤ n + length xs) xs
Numbered-low n [] h = tt
Numbered-low n (x ∷ xs) (e, h) =
    (omega (arith, e), All-imp (λ r le. omega (arith, le)) xs (Numbered-low (n + 1) xs h))

has_seq_low :
    (n k : ℕ) (xs : List PageRow) → n ≤ k → All (λ r. r.seq ≤ n) xs → has_seq (k + 1) xs ≡ false
unfolding any
has_seq_low n k [] le h = refl
has_seq_low n k (x ∷ xs) le (l, h) = ground (arith, le, l, has_seq_low n k xs le h)

-- Rows that go on with the numbers are appended.
put_all-fresh :
    (n : ℕ) (more xs : List PageRow)
    → All (λ r. r.seq ≤ n) xs
    → Numbered n more
    → put_all more xs ≡ xs ++ more
unfolding put_all put
put_all-fresh n [] xs h t = sym (append-nil xs)
put_all-fresh n (row ∷ more) xs h (e, t) =
    let new : has_seq row.seq xs ≡ false =
      ap (λ k. has_seq k xs) e ∙ has_seq_low n n xs (omega arith) h in
    let low : All (λ r. r.seq ≤ n + 1) (xs ++ row ∷ []) =
      All-append (λ r. r.seq ≤ n + 1) xs (row ∷ []) (All-imp (λ r le. omega (arith, le)) xs h)
        (omega (arith, e), tt) in
    rw (put_all, put, new)
      (put_all-fresh (n + 1) more (xs ++ row ∷ []) low t ∙ append_assoc xs (row ∷ []) more)

-- Rows whose numbers are there change nothing.
put_all-present :
    (rows xs : List PageRow) → All (λ r. has_seq r.seq xs ≡ true) rows → put_all rows xs ≡ xs
unfolding put_all put
put_all-present [] xs h = refl
put_all-present (row ∷ rows) xs (h, hs) = rw (put_all, put, h) (put_all-present rows xs hs)

put_all-append :
    (xs ys rows : List PageRow) → put_all (xs ++ ys) rows ≡ put_all ys (put_all xs rows)
unfolding put_all
put_all-append [] ys rows = refl
put_all-append (x ∷ xs) ys rows = put_all-append xs ys (put x rows)

has_seq-append : (n : ℕ) (xs ys : List PageRow) → has_seq n ys ≡ true → has_seq n (xs ++ ys) ≡ true
unfolding any
has_seq-append n [] ys h = h
has_seq-append n (x ∷ xs) ys h = ground (arith, has_seq-append n xs ys h)

has_seq_each : (xs : List PageRow) → All (λ r. has_seq r.seq xs ≡ true) xs
unfolding any
has_seq_each [] = tt
has_seq_each (x ∷ xs) = (ground arith, All-imp (λ r h. ground (arith, h)) xs (has_seq_each xs))

-- A batch of which a head is in the table already: the rest is appended.
pub put_all-rest :
    (done extra more : List PageRow)
    → Numbered 0 (done ++ (extra ++ more))
    → put_all (extra ++ more) (done ++ extra) ≡ done ++ (extra ++ more)
put_all-rest done extra more h =
    let there = All-imp (λ r e. has_seq-append r.seq done extra e) extra (has_seq_each extra) in
    let split : Numbered 0 ((done ++ extra) ++ more) =
      subst (Numbered 0) (sym (append_assoc done extra more)) h in
    let low : All (λ r. r.seq ≤ length (done ++ extra)) (done ++ extra) =
      All-imp (λ r le. omega (arith, le)) (done ++ extra)
        (Numbered-low 0 (done ++ extra) (Numbered-left 0 (done ++ extra) more split)) in
    put_all-append extra more (done ++ extra)
    ∙ ap (put_all more) (put_all-present extra (done ++ extra) there)
    ∙ put_all-fresh (length (done ++ extra)) more (done ++ extra) low
        (subst (λ k. Numbered k more) (omega arith) (Numbered-right 0 (done ++ extra) more split))
    ∙ append_assoc done extra more
