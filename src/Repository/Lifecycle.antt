-- ===== src/Repository/Lifecycle.antt =====
-- What holds of every row in every database that src/url_crawler_service/repository.py can reach.
use url_crawler.Base.{
  ℕ, ◌<◌, List, [], ◌∷◌, Option, none, some, Bool, true, ◌≡◌, refl, subst, arith, Text, ◌==◌,
  select, Bool-cases, inl, inr, Option-cases,
}
use url_crawler.Repository.Rows.{
  CrawlState, queued, running, finished, failed, aborted, CrawlRow, Page, Db, is_queued,
  is_terminal, update, first,
}
use url_crawler.Repository.{
  create, get, claimed_row, claim, owns, leases, beat, heartbeat, closed_row, finish, releases,
  released, release, cancel_row, flag_row, request_cancel, insert_pages, insert_rows, cancel_in,
}
use url_crawler.Repository.Statements.{update-All, select-All}
use url_crawler.Repository.Claiming.{Claims, claim-Claims}
use url_crawler.Repository.Reaping.{reap-settles}
use url_crawler.Repository.Steps.{
  Step, creates, claims, beats, finishes, hands_back, reaps, cancels, inserts, Reach, here, next,
}
use url_crawler.Repository.Sound.{
  SoundAt, IsSound, tries, update-UniqueIds, update-AllSound, beat-IsSound, closed_row-IsSound,
  released-IsSound, settled-AllSound, flag_row-All, append-AllSound, AllSound,
}

queued_attempts :
    (m : ℕ) (s : CrawlState) (r : CrawlRow) → is_queued s ≡ true → SoundAt m s r → r.attempts < m
queued_attempts m queued r e h = h.3
queued_attempts m running r e h = cc
queued_attempts m finished r e h = cc
queued_attempts m failed r e h = cc
queued_attempts m aborted r e h = cc

claim-AllSound :
    (m : ℕ) (worker : Text) (now : ℕ) (locked : ℕ → Bool) (db : Db) (x : Option CrawlRow × Db)
    → Claims worker now locked db x
    → AllSound m db
    → AllSound m x.1
unfolding Claims get
claim-AllSound m worker now locked db (none, after) c h = rw c.1 h
claim-AllSound m worker now locked db (some taken, after) (r, found, w, old, t, e) h =
    let low =
      queued_attempts m r.state r (ground (arith, w))
        (select-All (IsSound m) (λ s. s.id == r.id) r db.crawls found h.sound) in
    rw e record {
      unique =
          update-UniqueIds (λ s. s.id == r.id) (claimed_row worker r.attempts now) db.crawls
            (λ s. refl) h.unique;
      sound =
          update-All (IsSound m) (λ s. s.id == r.id) (claimed_row worker r.attempts now) db.crawls
            (λ s _ _. (refl, refl, refl, omega (arith, low))) h.sound;
    }

-- The outcome of a cancel request on a row that is there.
cancel-AllSound :
    (m id now : ℕ) (db : Db) (r : CrawlRow) (s : CrawlState)
    → get id db ≡ some r
    → r.state ≡ s
    → AllSound m db
    → AllSound m (cancel_in id now db s).1
unfolding get
cancel-AllSound m id now db r queued e q h =
    update-AllSound m (λ s. s.id == id) (cancel_row now) db (λ s. refl)
      (λ s k _. (refl, tries m s.state s k)) h
cancel-AllSound m id now db r running e q h = record {
  unique = update-UniqueIds (λ s. s.id == id) flag_row db.crawls (λ s. refl) h.unique;
  sound = flag_row-All m id r db.crawls e q h.unique h.sound;
}
cancel-AllSound m id now db r finished e q h = h
cancel-AllSound m id now db r failed e q h = h
cancel-AllSound m id now db r aborted e q h = h

pages-AllSound :
    (m : ℕ) (pages : List Page) (db : Db) → AllSound m db → AllSound m (record db { pages = pages })
pages-AllSound m pages db h = record { unique = h.unique; sound = h.sound }

-- Every transaction keeps ids unique and rows sound.
pub Step-AllSound :
    {m : ℕ} {db after : Db} → 0 < m → Step m db after → AllSound m db → AllSound m after
unfolding create claim heartbeat finish release request_cancel insert_pages
Step-AllSound {m} pos (creates id seed config now db fresh) h =
    let both =
      append-AllSound m (create id seed config now db).0 db.crawls (refl, refl, refl, pos) fresh
        h.unique h.sound in
    record { unique = both.0; sound = both.1 }
Step-AllSound {m} pos (claims worker now locked db) h =
    claim-AllSound m worker now locked db (claim worker now locked db)
      (claim-Claims worker now locked db h.unique) h
Step-AllSound {m} pos (beats id worker stats now db) h =
    update-AllSound m (leases id worker) (beat stats now) db (λ r. refl)
      (λ r k e. beat-IsSound m id worker stats now r.state r k (ground (arith, e))) h
Step-AllSound {m} pos (finishes id worker state stats error now db after recorded e) h =
    elim (Bool-cases (is_terminal state)) [
      | inl t ↦
          let q : record db {
            crawls = update (owns id worker) (closed_row state stats error now) db.crawls;
          }
              ≡ after =
            ground (arith, e, t) in
          subst (AllSound m) q (
            update-AllSound m (owns id worker) (closed_row state stats error now) db (λ r. refl)
              (λ r k _. closed_row-IsSound m state stats error now r t (tries m r.state r k)) h)
      | inr t ↦ ground (arith, e, t)
    ]
Step-AllSound {m} pos (hands_back id worker db) h =
    update-AllSound m (releases id worker) released db (λ r. refl)
      (λ r k e. released-IsSound m r pos (tries m r.state r k) (ground (arith, e))) h
Step-AllSound {m} pos (reaps lease now db) h =
    let both = settled-AllSound m lease now db.crawls h.unique h.sound in
    rw (reap-settles lease m now db) record { unique = both.0; sound = both.1 }
Step-AllSound {m} pos (cancels id now db) h = elim (Option-cases (get id db)) [
  | inl e ↦ rw (request_cancel, e) h
  | inr (r, e) ↦ rw (request_cancel, e) (cancel-AllSound m id now db r r.state e refl h)
]
Step-AllSound {m} pos (inserts id worker [] db after e) h = subst (AllSound m) (ground (arith, e)) h
Step-AllSound {m} pos (inserts id worker (row ∷ rows) db after e) h =
    elim (Option-cases (first (select (leases id worker) db.crawls))) [
      | inl q ↦ ground (arith, e, q)
      | inr (r, q) ↦
          let pages = insert_rows id (row ∷ rows) db.pages in
          let w : record db { pages = pages } ≡ after = ground (arith, e, q) in
          subst (AllSound m) w (pages-AllSound m pages db h)
    ]

-- From the empty database, whatever transactions run in whatever order, ids are unique and every row
-- is sound: a queued crawl has no worker, no heartbeat, no pending cancel and an attempt left; a
-- running one has a worker, a heartbeat and a start; one that ended has its time; and the attempts of
-- a crawl never exceed `max_attempts`.
pub Reach-AllSound : {m : ℕ} {db : Db} → 0 < m → Reach m db → AllSound m db
Reach-AllSound pos here = record { unique = tt; sound = tt }
Reach-AllSound pos (next r s) = Step-AllSound pos s (Reach-AllSound pos r)
