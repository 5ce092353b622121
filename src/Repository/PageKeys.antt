-- ===== src/Repository/PageKeys.antt =====
-- The key (crawl_id, seq) of the page table in src/url_crawler_service/repository.py.
use url_crawler.Base.{
  ℕ, List, [], ◌∷◌, ◌++◌, Option, some, Bool, false, not, ◌&&◌, ◌≡◌, ◌≢◌, refl, subst, arith, ◌==◌,
  select, any, All, Text, Bool-cases, Option-cases, inl, inr, ok,
}
use url_crawler.Repository.Rows.{
  CrawlState, queued, running, finished, failed, aborted, PageRow, Page, Db, is_queued, first,
}
use url_crawler.Repository.Ordered.{Keyed}
use url_crawler.Repository.Steps.{
  Step, creates, claims, beats, finishes, hands_back, reaps, cancels, inserts, Reach, here, next,
}
use url_crawler.Repository.{
  insert_page, insert_rows, insert_pages, claim, take_row, oldest, request_cancel, cancel_in, get,
  finish, create, heartbeat, release, reap, leases,
}
use url_crawler.Repository.Listing.{seq_of}
use url_crawler.Repository.Rows.{is_terminal}

-- No page has the key of a later one in the table.
abbrev pub Unique : List Page → Type 0
Unique [] = Unit {0}
Unique (page ∷ pages) =
    (any (λ p. p.crawl_id == page.crawl_id && p.row.seq == page.row.seq) pages ≡ false)
    × Unique pages

select-any :
    (p q : Page → Bool) (pages : List Page) → any p pages ≡ false → any p (select q pages) ≡ false
unfolding select any
select-any p q [] h = refl
select-any p q (page ∷ pages) h = ground (arith, h, select-any p q pages)

select-Unique : (p : Page → Bool) (pages : List Page) → Unique pages → Unique (select p pages)
unfolding select
select-Unique p [] h = tt
select-Unique p (page ∷ pages) (h, hs) = elim (Bool-cases (p page)) [
  | inl e ↦ rw e (select-any _ p pages h, select-Unique p pages hs)
  | inr e ↦ rw e (select-Unique p pages hs)
]

any-append-one :
    (p : Page → Bool) (page : Page) (pages : List Page)
    → any p pages ≡ false
    → p page ≡ false
    → any p (pages ++ page ∷ []) ≡ false
unfolding any
any-append-one p page [] h e = ground (arith, e)
any-append-one p page (q ∷ pages) h e = ground (arith, h, any-append-one p page pages)

append-Unique :
    (id : ℕ) (row : PageRow) (pages : List Page)
    → Unique pages
    → any (λ p. p.crawl_id == id && p.row.seq == row.seq) pages ≡ false
    → Unique (pages ++ record { crawl_id = id; row = row } ∷ [])
unfolding any
append-Unique id row [] u e = (refl, tt)
append-Unique id row (page ∷ pages) (h, u) e = (
  any-append-one _ record { crawl_id = id; row = row } pages h (ground (arith, e)),
  append-Unique id row pages u (ground (arith, e)),
)

insert_page-Unique :
    (id : ℕ) (row : PageRow) (pages : List Page) → Unique pages → Unique (insert_page id row pages)
unfolding insert_page
insert_page-Unique id row pages u =
    elim (Bool-cases (any (λ p. p.crawl_id == id && p.row.seq == row.seq) pages)) [
      | inl e ↦ rw (insert_page, e) u
      | inr e ↦ rw (insert_page, e) (append-Unique id row pages u e)
    ]

insert_rows-Unique :
    (id : ℕ) (rows : List PageRow) (pages : List Page)
    → Unique pages
    → Unique (insert_rows id rows pages)
unfolding insert_rows
insert_rows-Unique id [] pages u = u
insert_rows-Unique id (row ∷ rows) pages u =
    insert_rows-Unique id rows (insert_page id row pages) (insert_page-Unique id row pages u)

insert_pages-Unique :
    (id : ℕ) (worker : Text) (rows : List PageRow) (db after : Db)
    → insert_pages id worker rows db ≡ some after
    → Unique db.pages
    → Unique after.pages
unfolding insert_pages
insert_pages-Unique id worker [] db after e u =
    let q : db ≡ after = cc in subst (λ d. Unique d.pages) q u
insert_pages-Unique id worker (row ∷ rows) db after e u =
    elim (Option-cases (first (select (leases id worker) db.crawls))) [
      | inl q ↦ ground (arith, q, e)
      | inr (r, q) ↦
          let same : (record db { pages = insert_rows id (row ∷ rows) db.pages }) ≡ after =
            ground (arith, q, e) in
          subst (λ d. Unique d.pages) same (insert_rows-Unique id (row ∷ rows) db.pages u)
    ]

claim-Unique :
    (worker : Text) (now : ℕ) (locked : ℕ → Bool) (db : Db)
    → Unique db.pages
    → Unique (claim worker now locked db).1.pages
unfolding claim take_row
claim-Unique worker now locked db u =
    elim (Option-cases (oldest (select (λ r. is_queued r.state && not (locked r.id)) db.crawls))) [
      | inl e ↦ rw (claim, e) u
      | inr (row, e) ↦ rw (claim, e) (select-Unique _ db.pages u)
    ]

cancel_in-pages :
    (id now : ℕ) (db : Db) (state : CrawlState) → (cancel_in id now db state).1.pages ≡ db.pages
cancel_in-pages id now db queued = refl
cancel_in-pages id now db running = refl
cancel_in-pages id now db finished = refl
cancel_in-pages id now db failed = refl
cancel_in-pages id now db aborted = refl

finish-pages :
    (id : ℕ) (worker : Text) (state : CrawlState) (stats : Text) (error : Option Text) (now : ℕ)
    (db after : Db) (recorded : Bool)
    → finish id worker state stats error now db ≡ ok (recorded, after)
    → db.pages ≡ after.pages
unfolding finish
finish-pages id worker state stats error now db after recorded e =
    elim (Bool-cases (is_terminal state)) [
      | inl t ↦ ground (arith, t, e)
      | inr t ↦ ground (arith, t, e)
    ]

Step-Unique : {m : ℕ} {db after : Db} → Step m db after → Unique db.pages → Unique after.pages
unfolding create heartbeat release reap request_cancel
Step-Unique (creates id seed config now db e) u = u
Step-Unique (claims worker now locked db) u = claim-Unique worker now locked db u
Step-Unique (beats id worker stats now db) u = u
Step-Unique (finishes id worker state stats error now db after recorded e) u =
    subst Unique (finish-pages id worker state stats error now db after recorded e) u
Step-Unique (hands_back id worker db) u = u
Step-Unique (reaps lease now db) u = u
Step-Unique (cancels id now db) u = elim (Option-cases (get id db)) [
  | inl e ↦ rw (request_cancel, e) u
  | inr (r, e) ↦ rw (request_cancel, e, cancel_in-pages id now db r.state) u
]
Step-Unique (inserts id worker rows db after e) u = insert_pages-Unique id worker rows db after e u

-- In every database that the transactions lead to, a page's key is its own.
pub Reach-Unique : {m : ℕ} {db : Db} → Reach m db → Unique db.pages
Reach-Unique here = tt
Reach-Unique (next r s) = Step-Unique s (Reach-Unique r)

any-Keyed :
    (id : ℕ) (page : Page) (pages : List Page)
    → page.crawl_id ≡ id
    → any (λ p. p.crawl_id == page.crawl_id && p.row.seq == page.row.seq) pages ≡ false
    → All (λ p. seq_of page ≢ seq_of p) (select (λ p. p.crawl_id == id) pages)
unfolding any select
any-Keyed id page [] q e = tt
any-Keyed id page (p ∷ pages) q e = elim (Bool-cases (p.crawl_id == id)) [
  | inl t ↦ rw t ((λ k. ground (arith, t, q, e, k)), any-Keyed id page pages q (ground (arith, e)))
  | inr t ↦ rw t (any-Keyed id page pages q (ground (arith, e)))
]

-- The pages of one crawl have different numbers.
pub crawl-Keyed :
    (id : ℕ) (pages : List Page)
    → Unique pages
    → Keyed seq_of (select (λ p. p.crawl_id == id) pages)
unfolding select
crawl-Keyed id [] u = tt
crawl-Keyed id (page ∷ pages) (h, u) = elim (Bool-cases (page.crawl_id == id)) [
  | inl t ↦ rw t (any-Keyed id page pages (ground (arith, t)) h, crawl-Keyed id pages u)
  | inr t ↦ rw t (crawl-Keyed id pages u)
]
