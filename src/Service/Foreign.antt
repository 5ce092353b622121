-- ===== src/Service/Foreign.antt =====
-- What the transactions of others leave of a crawl that a worker runs
-- (src/url_crawler_service/repository.py).
use url_crawler.Base.{
  ℕ, List, [], ◌∷◌, Option, none, some, Bool, true, false, not, ◌≡◌, refl, sym, subst, ap, ◌∙◌,
  arith, Text, text_eq, text_eq_iff, ◌==◌, select, Bool-cases, Option-cases, inl, inr, ltb, map,
}
use mathlib.Core.Bool.{true≢false}
use url_crawler.Repository.Rows.{
  CrawlState, queued, running, finished, failed, aborted, CrawlRow, Page, PageRow, Db, owned_by,
  update, first, is_terminal,
}
use url_crawler.Repository.{
  create, get, claimed_row, claim, owns, leases, beat, heartbeat, closed_row, finish, releases,
  released, release, is_expired, cancel_row, flag_row, request_cancel, insert_pages, cancel_in,
  insert_rows,
}
use url_crawler.Repository.Statements.{first-select-true}
use url_crawler.Repository.Claiming.{UniqueIds, In, select-In, Claims, claim-Claims}
use url_crawler.Repository.Reaping.{settled, reap-settles}
use url_crawler.Repository.Transitions.{get-update, get-settled, get-append, get-same}
use url_crawler.Repository.Steps.{
  Step, creates, claims, beats, finishes, hands_back, reaps, cancels, inserts,
}
use url_crawler.Service.{IsForeign}
use url_crawler.Service.Stored.{stored, stored-insert_rows_other}

-- One worker owns a row.
one_owner :
    (a b : Text) (o : Option Text) → owned_by a o ≡ true → owned_by b o ≡ true → text_eq a b ≡ true
one_owner a b none h k = cc
one_owner a b (some w) h k =
    let p = (text_eq_iff w a).0 h in
    let q = (text_eq_iff w b).0 k in (text_eq_iff a b).1 (sym p ∙ q)

In-select :
    (p : CrawlRow → Bool) (c : CrawlRow) (rs : List CrawlRow)
    → first (select p rs) ≡ some c
    → In c rs
unfolding first select
In-select p c [] e = cc
In-select p c (s ∷ rs) e = elim (Bool-cases (p s)) [
  | inl t ↦ inl (ground (arith, e, t))
  | inr t ↦ inr (In-select p c rs (ground (arith, e, t)))
]

-- The row that a statement on one id finds is the row of that id.
pub one_row :
    (id : ℕ) (p : CrawlRow → Bool) (r c : CrawlRow) (db : Db)
    → UniqueIds db.crawls
    → get id db ≡ some r
    → first (select p db.crawls) ≡ some c
    → (c.id == id) ≡ true
    → r ≡ c
unfolding get
one_row id p r c db u e f h =
    get-same id c.id r c db e (select-In c db.crawls u (In-select p c db.crawls f))
      (ground (arith, h, first-select-true (λ s. s.id == id) r db.crawls e))

module _ (id : ℕ) (worker : Text) where
  -- If the worker owns the crawl afterwards, then it did before, and its crawl goes on running with the
  -- same pages.
  abbrev pub Kept : CrawlRow → Db → CrawlRow → Db → Type 0
  Kept r db s after =
      owned_by worker s.worker_id ≡ true
      → (owned_by worker r.worker_id ≡ true)
        × (r.state ≡ running → s.state ≡ running)
        × (stored id after.pages ≡ stored id db.pages)

  abbrev pub Spared : CrawlRow → Db → Db → Type 0
  Spared r db after = (s : CrawlRow) × (get id after ≡ some s) × Kept r db s after

  -- One statement on the crawls.
  update-Spared :
      (p : CrawlRow → Bool) (f : CrawlRow → CrawlRow) (db : Db) (r : CrawlRow)
      → ((s : CrawlRow) → (f s).id ≡ s.id)
      → get id db ≡ some r
      → (p r ≡ true → Kept r db (f r) db)
      → Spared r db (record db { crawls = update p f db.crawls })
  unfolding get
  update-Spared p f db r same e k = elim (Bool-cases (p r)) [
    | inl t ↦ (f r, rw (get-update id p f db.crawls r same e, t) refl, k t)
    | inr t ↦ (r, rw (get-update id p f db.crawls r same e, t) refl, λ o. (o, (λ q. q), refl))
  ]

  pub stored-select :
      (k : ℕ) (pages : List Page)
      → (k == id) ≡ false
      → stored id (select (λ page. not (page.crawl_id == k)) pages) ≡ stored id pages
  unfolding stored select
  stored-select k [] h = refl
  stored-select k (page ∷ pages) h = ground (arith, h, stored-select k pages h)

  claim-Spared :
      (r : CrawlRow) (other : Text) (now : ℕ) (locked : ℕ → Bool) (db : Db)
      (x : Option CrawlRow × Db)
      → text_eq other worker ≡ false
      → get id db ≡ some r
      → Claims other now locked db x
      → Spared r db x.1
  unfolding Claims get
  claim-Spared r other now locked db (none, after) f e c =
      (r, rw c.1 e, rw c.1 (λ o. (o, (λ q. q), refl)))
  claim-Spared r other now locked db (some taken, after) f e (t, found, w, old, is, c) =
      let p = λ (s : CrawlRow). s.id == t.id in
      let q = get-update id p (claimed_row other t.attempts now) db.crawls r (λ s. refl) e in
      let here : (r.id == id) ≡ true = first-select-true (λ s. s.id == id) r db.crawls e in
      rw c (elim (Bool-cases (r.id == t.id)) [
        | inl k ↦ (claimed_row other t.attempts now r, rw (q, k) refl, λ o. cc)
        | inr k ↦ (
          r,
          rw (q, k) refl,
          λ o. (o, (λ z. z), stored-select t.id db.pages (ground (arith, here, k))),
        )
      ])

  settled-Kept :
      (m lease now : ℕ) (db after : Db) (r : CrawlRow)
      → after.pages ≡ db.pages
      → Kept r db (settled lease m now r) after
  unfolding settled
  settled-Kept m lease now db after r same = elim (Bool-cases (is_expired lease now r)) [
    | inr e ↦ rw e (λ o. (o, (λ q. q), ap (stored id) same))
    | inl e ↦ elim (Bool-cases r.cancel_requested) [
      | inl c ↦ rw (e, c) (λ o. cc)
      | inr c ↦ elim (Bool-cases (ltb r.attempts m)) [
        | inl l ↦ rw (e, c, l) (λ o. cc)
        | inr l ↦ rw (e, c, l) (λ o. cc)
      ]
    ]
  ]

  cancel-Spared :
      (k now : ℕ) (db : Db) (r c : CrawlRow) (s : CrawlState)
      → get id db ≡ some r
      → get k db ≡ some c
      → c.state ≡ s
      → Spared r db (cancel_in k now db s).1
  unfolding get
  cancel-Spared k now db r c queued e f q =
      update-Spared (λ s. s.id == k) (cancel_row now) db r (λ s. refl) e
        (λ t o.
          (o, (λ z. ground (arith, z, ap (λ s. s.state) (get-same id k r c db e f t), q)), refl))
  cancel-Spared k now db r c running e f q =
      update-Spared (λ s. s.id == k) flag_row db r (λ s. refl) e (λ t o. (o, (λ z. z), refl))
  cancel-Spared k now db r c finished e f q = (r, e, λ o. (o, (λ z. z), refl))
  cancel-Spared k now db r c failed e f q = (r, e, λ o. (o, (λ z. z), refl))
  cancel-Spared k now db r c aborted e f q = (r, e, λ o. (o, (λ z. z), refl))

  insert-Spared :
      (k : ℕ) (other : Text) (row : PageRow) (rows : List PageRow) (db : Db) (r c : CrawlRow)
      → UniqueIds db.crawls
      → text_eq other worker ≡ false
      → get id db ≡ some r
      → first (select (leases k other) db.crawls) ≡ some c
      → Spared r db (record db { pages = insert_rows k (row ∷ rows) db.pages })
  unfolding get
  insert-Spared k other row rows db r c u f e n =
      let leased = first-select-true (leases k other) c db.crawls n in
      elim (Bool-cases (k == id)) [
        | inr z ↦ (r, e, λ o. (o, (λ q. q), stored-insert_rows_other id k (row ∷ rows) db.pages z))
        | inl z ↦
            let same : r ≡ c =
              one_row id (leases k other) r c db u e n (ground (arith, leased, z)) in
            let by : owned_by other r.worker_id ≡ true = rw same (ground (arith, leased)) in
            (r, e, λ o. elim (true≢false (sym (one_owner other worker r.worker_id by o) ∙ f)) [ ])
      ]

  -- Whatever another worker, the reaper or a client does: the crawl stays in the table, and if its row
  -- still names the worker afterwards, then it did before, the crawl runs if it ran, and its pages are
  -- the same.
  pub Step-Spared :
      {m : ℕ} {db after : Db} (step : Step m db after)
      → IsForeign worker step
      → UniqueIds db.crawls
      → (r : CrawlRow) → get id db ≡ some r
      → Spared r db after
  unfolding get create heartbeat finish release request_cancel insert_pages
  Step-Spared (creates k seed config now db fresh) f u r e =
      (r, get-append id (create k seed config now db).0 db.crawls r e, λ o. (o, (λ q. q), refl))
  Step-Spared (claims other now locked db) f u r e =
      claim-Spared r other now locked db (claim other now locked db) f e
        (claim-Claims other now locked db u)
  Step-Spared (beats k other stats now db) f u r e =
      update-Spared (leases k other) (beat stats now) db r (λ s. refl) e
        (λ t o. (o, (λ q. q), refl))
  Step-Spared (finishes k other state stats error now db after recorded q) f u r e =
      elim (Bool-cases (is_terminal state)) [
        | inr t ↦ ground (arith, q, t)
        | inl t ↦
            let w : record db {
              crawls = update (owns k other) (closed_row state stats error now) db.crawls;
            }
                ≡ after =
              ground (arith, q, t) in
            subst (Spared r db) w (
              update-Spared (owns k other) (closed_row state stats error now) db r (λ s. refl) e
                (λ z o.
                  elim (true≢false
                    (sym (one_owner other worker r.worker_id (ground (arith, z)) o) ∙ f)) [ ]))
      ]
  Step-Spared (hands_back k other db) f u r e =
      update-Spared (releases k other) released db r (λ s. refl) e (λ t o. cc)
  Step-Spared {m} (reaps lease now db) f u r e = rw (reap-settles lease m now db) (
    settled lease m now r,
    get-settled id m lease now db.crawls r e,
    settled-Kept m lease now db (record db { crawls = map (settled lease m now) db.crawls }) r refl,
  )
  Step-Spared (cancels k now db) f u r e = elim (Option-cases (get k db)) [
    | inl q ↦ rw (request_cancel, q) (r, e, λ o. (o, (λ z. z), refl))
    | inr (c, q) ↦ rw (request_cancel, q) (cancel-Spared k now db r c c.state e q refl)
  ]
  Step-Spared (inserts k other [] db after q) f u r e =
      let w : db ≡ after = ground (arith, q) in
      subst (Spared r db) w (r, e, λ o. (o, (λ z. z), refl))
  Step-Spared (inserts k other (row ∷ rows) db after q) f u r e =
      elim (Option-cases (first (select (leases k other) db.crawls))) [
        | inl n ↦ ground (arith, q, n)
        | inr (c, n) ↦
            let w : record db { pages = insert_rows k (row ∷ rows) db.pages } ≡ after =
              ground (arith, q, n) in
            subst (Spared r db) w (insert-Spared k other row rows db r c u f e n)
      ]
