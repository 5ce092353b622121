-- ===== src/Service/Finished.antt =====
-- What the page table of src/url_crawler_service holds of a crawl while its worker keeps the lease, and
-- when the worker records its end.
use url_crawler.Base.{
  ℕ, ◌<◌, List, [], ◌∷◌, ◌++◌, Option, some, Bool, true, false, ◌≡◌, refl, sym, ap, ◌∙◌, arith,
  Text, select, append_assoc, if◌then◌else◌, Bool-cases, inl, inr, ok,
}
use url_crawler.Models.{PageResult}
use url_crawler.Repository.Rows.{
  CrawlState, running, CrawlRow, PageRow, Db, owned_by, first, update, returning, is_terminal,
}
use url_crawler.Repository.{get, owns, finish, closed_row, is_some}
use url_crawler.Repository.Statements.{first-select-true}
use url_crawler.Repository.Claiming.{UniqueIds}
use url_crawler.Repository.Transitions.{get-update}
use url_crawler.Repository.Lifecycle.{Reach-AllSound}
use url_crawler.Service.{Job, Run, numbered}
use url_crawler.Service.Stored.{stored}
use url_crawler.Service.Foreign.{one_row}
use url_crawler.Service.Served.{Follows-same, run-Tracked}

-- At every moment of a run, whatever others do and whichever inserts fail or go unheard: as long as
-- the crawl's row names the worker, the crawl runs, and its rows in the page table are a head of the
-- pages that the crawl has reported, in their order and numbered from 1, none twice.
pub run-Prefix :
    {m id batch_size : ℕ} {worker : Text} {pages : List (PageResult × ℕ)} {j : Job} (r : CrawlRow)
    → 0 < m
    → Run m id worker batch_size pages j
    → get id j.db ≡ some r
    → owned_by worker r.worker_id ≡ true
    → (r.state ≡ running)
      × ((rest : List PageRow) × (stored id j.db.pages ++ rest ≡ numbered 0 pages))
run-Prefix {id = id} {worker = worker} {j = j} r pos run e o =
    let s = (run-Tracked pos run).served in
    let same : s.row ≡ r = ground (arith, e, s.found) in
    let (z, (extra, rest, t, b, w)) = s.held (ap (λ c. owned_by worker c.worker_id) same ∙ o) in
    (
      sym (ap (λ c. c.state) same) ∙ z,
      (
        rest,
        ap (λ rows. rows ++ rest) t
            ∙ append_assoc (run-Tracked pos run).full.committed extra rest
            ∙ ap (λ rows. (run-Tracked pos run).full.committed ++ rows) (sym b)
            ∙ s.kept.split,
      ),
    )

returning-select :
    (p : CrawlRow → Bool) (f : CrawlRow → CrawlRow) (rs : List CrawlRow)
    → is_some (first (returning p f rs)) ≡ true
    → (c : CrawlRow) × (first (select p rs) ≡ some c)
unfolding returning select first
returning-select p f [] e = cc
returning-select p f (r ∷ rs) e = elim (Bool-cases (p r)) [
  | inl t ↦ (r, rw t refl)
  | inr t ↦ let (c, q) = returning-select p f rs (ground (arith, e, t)) in (c, rw t q)
]

-- An end that is recorded: the worker owned the crawl, and no page changed.
finish-recorded :
    (id : ℕ) (worker : Text) (state : CrawlState) (stats : Text) (error : Option Text) (now : ℕ)
    (db after : Db) (r : CrawlRow)
    → UniqueIds db.crawls
    → get id db ≡ some r
    → finish id worker state stats error now db ≡ ok (true, after)
    → (owned_by worker r.worker_id ≡ true)
      × (after.pages ≡ db.pages)
      × (get id after ≡ some (closed_row state stats error now r))
unfolding finish get
finish-recorded id worker state stats error now db after r u e q =
    let f = closed_row state stats error now in
    let p = owns id worker in
    elim (Bool-cases (is_terminal state)) [
      | inr t ↦ ground (arith, q, t)
      | inl t ↦
          let w : record db { crawls = update p f db.crawls } ≡ after = ground (arith, q, t) in
          let hit : is_some (first (returning p f db.crawls)) ≡ true = ground (arith, q, t) in
          let (c, n) = returning-select p f db.crawls hit in
          let owned : owns id worker c ≡ true = first-select-true p c db.crawls n in
          let same : r ≡ c = one_row id p r c db u e n (ground (arith, owned)) in
          let mine : owns id worker r ≡ true = ap (owns id worker) same ∙ owned in
          (
            ground (arith, mine),
            ap (λ a. a.pages) (sym w),
            ap (get id) (sym w)
                ∙ get-update id p f db.crawls r (λ s. refl) e
                ∙ ap (λ b. some (if b then f r else r)) mine,
          )
    ]

pub empty_left : (xs ys : List PageRow) → xs ++ ys ≡ [] → xs ≡ []
empty_left [] ys e = refl
empty_left (x ∷ xs) ys e = cc

-- When a worker whose reporter holds no row back, and has thrown none away, records the end of a crawl, the crawl's row has that
-- end, and its rows in the page table are exactly the pages that the crawl has reported, in their order
-- and numbered from 1: none is lost, repeated or another crawl's, whatever other workers, the reaper
-- and clients did, and whichever inserts failed or went unheard, since the claim.
pub finish_complete :
    {m id batch_size : ℕ} {worker : Text} {pages : List (PageResult × ℕ)} {j : Job}
    (state : CrawlState) (stats : Text) (error : Option Text) (now : ℕ) (after : Db)
    → 0 < m
    → Run m id worker batch_size pages j
    → j.discarded ≡ false
    → j.reporter.buffer ≡ []
    → finish id worker state stats error now j.db ≡ ok (true, after)
    → (stored id after.pages ≡ numbered 0 pages)
      × ((r : CrawlRow) × (get id after ≡ some r) × (r.state ≡ state))
finish_complete {m} {id} {batch_size} {worker} {pages} {j} state stats error now after pos run k b
      q =
    let tracked = run-Tracked pos run in
    let s = tracked.served in
    let d = tracked.full in
    let empty : d.buffer ≡ [] =
      sym (ap (λ x. x.buffer) (Follows-same j.discarded d j.reporter k tracked.follows)) ∙ b in
    let u = (Reach-AllSound pos s.reach).unique in
    let (own, same, there) =
      finish-recorded id worker state stats error now j.db after s.row u s.found q in
    let (z, (extra, rest, t, h, w)) = s.held own in
    let none_extra : extra ≡ [] = empty_left extra rest (sym h ∙ empty) in
    (
      ap (stored id) same
          ∙ t
          ∙ ap (λ rows. d.committed ++ rows) (none_extra ∙ sym empty)
          ∙ s.kept.split,
      (closed_row state stats error now s.row, there, refl),
    )
