-- ===== src/Repository/Transitions.antt =====
-- How the transactions of src/url_crawler_service/repository.py move a crawl from state to state. The
-- statements name the states they read only in part: `finish` and `release` ask for the worker alone.
use url_crawler.Base.{
  ℕ, List, [], ◌∷◌, ◌++◌, Option, none, some, Bool, true, ◌≡◌, ◌≢◌, ◌<◌, ◌⊎◌, refl, sym, subst, ap,
  ◌∙◌, arith, Text, ◌==◌, select, Bool-cases, inl, inr, Option-cases, if◌then◌else◌, map, ltb,
  ==_eq,
}
use url_crawler.Repository.Rows.{
  CrawlState, queued, running, finished, failed, aborted, CrawlRow, Db, is_queued, is_terminal,
  update, first,
}
use url_crawler.Repository.{
  create, get, claimed_row, claim, owns, leases, beat, heartbeat, closed_row, finish, releases,
  released, release, is_expired, cancel_row, flag_row, request_cancel, insert_pages, cancel_in,
  insert_rows,
}
use url_crawler.Repository.Statements.{select-All, running_of, first-select-true}
use url_crawler.Repository.Claiming.{Claims, claim-Claims}
use url_crawler.Repository.Reaping.{settled, reap-settles}
use url_crawler.Repository.Sound.{SoundAt, IsSound}
use url_crawler.Repository.Lifecycle.{Reach-AllSound}
use url_crawler.Repository.Steps.{
  Reach, Step, creates, claims, beats, finishes, hands_back, reaps, cancels, inserts,
}

-- What a transaction may make of a crawl's row `r`: the row `s` afterwards.
abbrev pub Allowed : {m : ℕ} {db after : Db} → Step m db after → CrawlRow → CrawlRow → Type 0
Allowed (creates id seed config now db fresh) r s = s ≡ r
Allowed (claims worker now locked db) r s =
    (s ≡ r) ⊎ ((r.state ≡ queued) × (s.state ≡ running) × (s.worker_id ≡ some worker))
Allowed (beats id worker stats now db) r s =
    (s ≡ r) ⊎ ((leases id worker r ≡ true) × (s.state ≡ r.state))
Allowed (finishes id worker state stats error now db after recorded e) r s =
    (s ≡ r)
    ⊎ ((owns id worker r ≡ true)
        × (r.state ≢ queued)
        × (s.state ≡ state)
        × (is_terminal state ≡ true))
Allowed (hands_back id worker db) r s =
    (s ≡ r) ⊎ ((releases id worker r ≡ true) × (r.state ≢ queued) × (s.state ≡ queued))
Allowed (reaps lease now db) r s =
    (s ≡ r)
    ⊎ ((is_expired lease now r ≡ true)
        × (r.state ≡ running)
        × ((s.state ≡ aborted) ⊎ ((s.state ≡ queued) ⊎ (s.state ≡ failed))))
Allowed (cancels id now db) r s =
    (s ≡ r)
    ⊎ (((r.state ≡ queued) × (s.state ≡ aborted)) ⊎ ((r.state ≡ running) × (s.state ≡ running)))
Allowed (inserts id worker rows db after e) r s = s ≡ r

-- The row of an id after a statement that keeps ids.
pub get-update :
    (id : ℕ) (p : CrawlRow → Bool) (f : CrawlRow → CrawlRow) (rs : List CrawlRow) (r : CrawlRow)
    → ((s : CrawlRow) → (f s).id ≡ s.id)
    → first (select (λ s. s.id == id) rs) ≡ some r
    → first (select (λ s. s.id == id) (update p f rs)) ≡ some (if p r then f r else r)
unfolding first select update
get-update id p f [] r same e = cc
get-update id p f (s ∷ rs) r same e = ground (arith, e, same s, get-update id p f rs r same)

pub get-settled :
    (id m lease now : ℕ) (rs : List CrawlRow) (r : CrawlRow)
    → first (select (λ s. s.id == id) rs) ≡ some r
    → first (select (λ s. s.id == id) (map (settled lease m now) rs)) ≡ some (settled lease m now r)
unfolding first select settled
get-settled id m lease now [] r e = cc
get-settled id m lease now (s ∷ rs) r e = ground (arith, e, get-settled id m lease now rs r)

pub get-append :
    (id : ℕ) (row : CrawlRow) (rs : List CrawlRow) (r : CrawlRow)
    → first (select (λ s. s.id == id) rs) ≡ some r
    → first (select (λ s. s.id == id) (rs ++ row ∷ [])) ≡ some r
unfolding first select
get-append id row [] r e = cc
get-append id row (s ∷ rs) r e = ground (arith, e, get-append id row rs r)

-- The row of an id afterwards.
abbrev pub Moved : (CrawlRow → Type 0) → ℕ → Db → Type 0
Moved P id after = (s : CrawlRow) × (get id after ≡ some s) × P s

update-Moved :
    (P : CrawlRow → Type 0) (id : ℕ) (p : CrawlRow → Bool) (f : CrawlRow → CrawlRow) (db : Db)
    (r : CrawlRow)
    → ((s : CrawlRow) → (f s).id ≡ s.id)
    → get id db ≡ some r
    → P r
    → (p r ≡ true → P (f r))
    → Moved P id (record db { crawls = update p f db.crawls })
unfolding get
update-Moved P id p f db r same e stay move = elim (Bool-cases (p r)) [
  | inl t ↦ (f r, rw (get-update id p f db.crawls r same e, t) refl, move t)
  | inr t ↦ (r, rw (get-update id p f db.crawls r same e, t) refl, stay)
]

settled-Allowed :
    (lease m now : ℕ) (db : Db) (r : CrawlRow)
    → Allowed {m = m} (reaps lease now db) r (settled lease m now r)
unfolding settled
settled-Allowed lease m now db r = elim (Bool-cases (is_expired lease now r)) [
  | inr e ↦ rw e (inl refl)
  | inl e ↦
      let q : r.state ≡ running = running_of r.state (ground (arith, e)) in
      elim (Bool-cases r.cancel_requested) [
        | inl c ↦ inr (e, q, inl (rw (settled, e, c) refl))
        | inr c ↦ elim (Bool-cases (ltb r.attempts m)) [
          | inl l ↦ inr (e, q, inr (inl (rw (settled, e, c, l) refl)))
          | inr l ↦ inr (e, q, inr (inr (rw (settled, e, c, l) refl)))
        ]
      ]
]

some_inj : (r t : CrawlRow) → some r ≡ some t → r ≡ t
some_inj r t e = cc

-- Two rows that are found, one under the other's id, are one.
pub get-same :
    (id k : ℕ) (r t : CrawlRow) (db : Db)
    → get id db ≡ some r
    → get k db ≡ some t
    → (r.id == k) ≡ true
    → r ≡ t
unfolding get
get-same id k r t db e f q =
    let here : (r.id == id) ≡ true = first-select-true (λ s. s.id == id) r db.crawls e in
    let same : id ≡ k = sym (==_eq r.id id here) ∙ ==_eq r.id k q in
    some_inj r t (sym e ∙ ap (λ n. first (select (λ s. s.id == n) db.crawls)) same ∙ f)

-- A waiting row has no worker, so a row that a worker owns does not wait.
owned-not_queued :
    (m id : ℕ) (worker : Text) (r : CrawlRow)
    → IsSound m r
    → owns id worker r ≡ true
    → r.state ≢ queued
owned-not_queued m id worker r h o q =
    let free : r.worker_id ≡ none = (subst (λ s. SoundAt m s r) q h).0 in ground (arith, o, free)

queued_of : (s : CrawlState) → is_queued s ≡ true → s ≡ queued
queued_of queued e = refl
queued_of running e = cc
queued_of finished e = cc
queued_of failed e = cc
queued_of aborted e = cc

claim-Moved :
    (m id : ℕ) (r : CrawlRow) (worker : Text) (now : ℕ) (locked : ℕ → Bool) (db : Db)
    (x : Option CrawlRow × Db)
    → get id db ≡ some r
    → Claims worker now locked db x
    → Moved (Allowed {m = m} (claims worker now locked db) r) id x.1
unfolding Claims get
claim-Moved m id r worker now locked db (none, after) e c = (r, rw c.1 e, inl refl)
claim-Moved m id r worker now locked db (some taken, after) e (t, found, w, old, is, c) = rw c (
    update-Moved (Allowed {m = m} (claims worker now locked db) r) id (λ s. s.id == t.id)
      (claimed_row worker t.attempts now) db r (λ s. refl) e (inl refl)
      (λ k.
        inr (queued_of r.state (ground (arith, w, get-same id t.id r t db e found k)), refl, refl)))

create-Moved :
    (id k : ℕ) (seed config : Text) (now : ℕ) (db : Db) (r : CrawlRow)
    → get id db ≡ some r
    → Moved (λ s. s ≡ r) id (create k seed config now db).1
unfolding get create
create-Moved id k seed config now db r e =
    (r, get-append id (create k seed config now db).0 db.crawls r e, refl)

cancel-Moved :
    (m id k now : ℕ) (db : Db) (r c : CrawlRow) (s : CrawlState)
    → get id db ≡ some r
    → get k db ≡ some c
    → c.state ≡ s
    → Moved (Allowed {m = m} (cancels k now db) r) id (cancel_in k now db s).1
unfolding get
cancel-Moved m id k now db r c queued e f q =
    update-Moved (Allowed {m = m} (cancels k now db) r) id (λ s. s.id == k) (cancel_row now) db r
      (λ s. refl) e (inl refl)
      (λ t. inr (inl (ap (λ s. s.state) (get-same id k r c db e f t) ∙ q, refl)))
cancel-Moved m id k now db r c running e f q =
    update-Moved (Allowed {m = m} (cancels k now db) r) id (λ s. s.id == k) flag_row db r
      (λ s. refl) e (inl refl)
      (λ t. let runs = ap (λ s. s.state) (get-same id k r c db e f t) ∙ q in inr (inr (runs, runs)))
cancel-Moved m id k now db r c finished e f q = (r, e, inl refl)
cancel-Moved m id k now db r c failed e f q = (r, e, inl refl)
cancel-Moved m id k now db r c aborted e f q = (r, e, inl refl)

-- No transaction on a reachable database loses a crawl, and each leaves a crawl's row as it is, but for
-- these: `claim` takes a queued crawl to running, for the claimer; `heartbeat` changes the row that its
-- worker leases and keeps its state; `finish` takes the crawl that its worker owns, which is not queued,
-- to the terminal state it is given; `release` takes one that its worker owns and whose cancellation is
-- not asked for, and which is not queued, to queued; `reap` takes a running one whose heartbeat is too
-- old to aborted, queued or failed; `request_cancel` takes a queued one to aborted, and changes a running
-- one that stays running.
pub Step-Moved :
    {m : ℕ} {db after : Db}
    → 0 < m
    → Reach m db
    → (step : Step m db after) (id : ℕ) (r : CrawlRow) → get id db ≡ some r
    → Moved (Allowed step r) id after
unfolding claim heartbeat finish release request_cancel insert_pages get
Step-Moved pos reach (creates k seed config now db fresh) id r e =
    create-Moved id k seed config now db r e
Step-Moved {m} pos reach (claims worker now locked db) id r e =
    claim-Moved m id r worker now locked db (claim worker now locked db) e
      (claim-Claims worker now locked db (Reach-AllSound pos reach).unique)
Step-Moved {m} pos reach (beats k worker stats now db) id r e =
    update-Moved (Allowed {m = m} (beats k worker stats now db) r) id (leases k worker)
      (beat stats now) db r (λ s. refl) e (inl refl) (λ l. inr (l, refl))
Step-Moved {m} pos reach (finishes k worker state stats error now db after recorded q) id r e =
    elim (Bool-cases (is_terminal state)) [
      | inl t ↦
          let w : record db {
            crawls = update (owns k worker) (closed_row state stats error now) db.crawls;
          }
              ≡ after =
            ground (arith, q, t) in
          let P : CrawlRow → Type 0 =
            Allowed {m = m} (finishes k worker state stats error now db after recorded q) r in
          let sound : IsSound m r =
            select-All (IsSound m) (λ s. s.id == id) r db.crawls e
              (Reach-AllSound pos reach).sound in
          subst (Moved P id) w (
            update-Moved P id (owns k worker) (closed_row state stats error now) db r (λ s. refl) e
              (inl refl) (λ o. inr (o, owned-not_queued m k worker r sound o, refl, t)))
      | inr t ↦ ground (arith, q, t)
    ]
Step-Moved {m} pos reach (hands_back k worker db) id r e =
    let sound : IsSound m r =
      select-All (IsSound m) (λ s. s.id == id) r db.crawls e (Reach-AllSound pos reach).sound in
    update-Moved (Allowed {m = m} (hands_back k worker db) r) id (releases k worker) released db r
      (λ s. refl) e (inl refl)
      (λ o. inr (o, owned-not_queued m k worker r sound (ground (arith, o)), refl))
Step-Moved {m} pos reach (reaps lease now db) id r e = rw (reap-settles lease m now db) (
  settled lease m now r,
  get-settled id m lease now db.crawls r e,
  settled-Allowed lease m now db r,
)
Step-Moved {m} pos reach (cancels k now db) id r e = elim (Option-cases (get k db)) [
  | inl q ↦ rw (request_cancel, q) (r, e, inl refl)
  | inr (c, q) ↦ rw (request_cancel, q) (cancel-Moved m id k now db r c c.state e q refl)
]
Step-Moved pos reach (inserts k worker [] db after q) id r e =
    let w : db ≡ after = ground (arith, q) in subst (Moved (λ s. s ≡ r) id) w (r, e, refl)
Step-Moved pos reach (inserts k worker (row ∷ rows) db after q) id r e =
    elim (Option-cases (first (select (leases k worker) db.crawls))) [
      | inl n ↦ ground (arith, q, n)
      | inr (c, n) ↦
          let w : record db { pages = insert_rows k (row ∷ rows) db.pages } ≡ after =
            ground (arith, q, n) in
          subst (Moved (λ s. s ≡ r) id) w (r, e, refl)
    ]
