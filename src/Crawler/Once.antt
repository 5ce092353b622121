-- ===== src/Crawler/Once.antt =====
-- src/url_crawler/crawler.py fetches each page once: no canonical key twice, and, in a crawl that runs
-- to its end, each key that was seen.
use url_crawler.Base.{
  ℕ, ◌+◌, ◌≤◌, List, [], ◌∷◌, none, some, true, false, Text, Result, ok, raise, arith, ◌≡◌, refl,
  All, Result-cases, inl, inr, get_elem?, set, has, text_eq_iff, if◌then◌else◌,
}
use url_crawler.Models.{FetchResult, Fetched, fetched}
use url_crawler.Frontier.{Frontier, joined, mark_key, get, task_done}
use url_crawler.Crawler.Deps.{Deps}
use url_crawler.Crawler.State.{Crawl, After, After-intro, new}
use url_crawler.Crawler.Page.{handle}
use url_crawler.Crawler.Quiet.{Quiet, handle-Quiet, settled-Quiet}
use url_crawler.Crawler.Bookkeeping.{IsIdle, run-joined_iff}
use url_crawler.Crawler.Workers.{
  Task, idle, waiting, sleeping, fetching, Pool, Move, Stage, returned, delay, fetch, process,
  recover, after_fetch, finish, start, run_moves, pool_of,
}
use url_crawler.Crawler.Seed.{enter, hop, admit, prepare, run_pool, run, left_by, run_leaves}
use url_crawler.Crawler.Tasks.{total, total-set, total-replicate}
use url_crawler.Crawler.Growth.{handle-Holds, settled-Holds}
use url_crawler.Crawler.Preparation.{prepare-keeps, prepare-always}
use url_crawler.Crawler.Schedules.{Change, took, locked, woke, got, run_moves-keeps}
use url_crawler.Crawler.Ledger.{
  occurs, hit, hits, Exact, AtMost, add_key-Exact, add_key-AtMost, occurs-zero_of_not_has,
  occurs_of_has,
}

module _ (d : Deps) (k : Text) where
  abbrev key_of : Text → Result Text
  key_of = d.urls.canonical_key

  -- 1 for a worker that is yet to fetch a URL with the key.
  due : Task → ℕ
  due idle = 0
  due (waiting url) = hit key_of k url
  due (sleeping url) = hit key_of k url
  due (fetching url) = 0

  -- The URLs with the key that were fetched or are with a worker that will fetch them.
  abbrev issued : Pool → ℕ
  issued p = hits key_of k p.crawl.fetches + total due p.tasks

  record Ledger (p : Pool) : Type 0 where
    at_most : AtMost key_of k (issued p) p.crawl.frontier
    exact : p.crawl.stopping ≡ false → Exact key_of k (issued p) p.crawl.frontier

  settled-Ledger :
      (n : ℕ) (url : Text) (r : Result Fetched) (c : Crawl)
      → AtMost key_of k n c.frontier
      → AtMost key_of k n (recover d url (after_fetch d url r c)).1.frontier
  settled-Ledger n url r c h =
      (settled-Holds d c.scope c.robots (AtMost key_of k n)
        (λ key link f _ e. add_key-AtMost key_of k key link f e n) url r c (refl, refl, h)).2

  settled-Exact :
      (n : ℕ) (url : Text) (r : Result Fetched) (c : Crawl)
      → Exact key_of k n c.frontier
      → Exact key_of k n (recover d url (after_fetch d url r c)).1.frontier
  settled-Exact n url r c h =
      (settled-Holds d c.scope c.robots (Exact key_of k n)
        (λ key link f _ e. add_key-Exact key_of k key link f e n) url r c (refl, refl, h)).2

  finish-Ledger :
      (p : Pool) (x : Result (Unit {0}) × Crawl)
      → Ledger (record p { crawl = x.1 })
      → Ledger (finish p x)
  unfolding finish task_done
  finish-Ledger p x h = ground arith

  get-seen :
      (f f' : Frontier) (url : Text)
      → get f ≡ some (url, f')
      → (f'.seen ≡ f.seen) × (f.queue ≡ url ∷ f'.queue)
  unfolding get
  get-seen f f' url e = ground arith

  start-Ledger :
      (i : ℕ) (p : Pool) (url : Text) (f : Frontier) (x : Stage × Crawl)
      → get_elem? p.tasks i ≡ some idle
      → get p.crawl.frontier ≡ some (url, f)
      → x.1.frontier ≡ f
      → x.1.fetches ≡ p.crawl.fetches
      → (x.0 ≡ returned → x.1.stopping ≡ true)
      → (x.1.stopping ≡ false → p.crawl.stopping ≡ false)
      → Ledger p
      → Ledger (start d i p url x)
  unfolding start due hits
  start-Ledger i p url f (returned, c) e g q s stops runs h =
      finish-Ledger p (ok tt, c) (ground (arith, get-seen p.crawl.frontier f url g, stops refl))
  start-Ledger i p url f (delay, c) e g q s stops runs h =
      ground
        (arith, get-seen p.crawl.frontier f url g, total-set due p.tasks i idle (waiting url) e)
  start-Ledger i p url f (fetch, c) e g q s stops runs h =
      ground
        (arith, get-seen p.crawl.frontier f url g, total-set due p.tasks i idle (fetching url) e)

  process_lem :
      (c : Crawl)
      → ((process d c).1.frontier ≡ c.frontier)
        × ((process d c).1.fetches ≡ c.fetches)
        × ((process d c).0 ≡ returned → (process d c).1.stopping ≡ true)
        × ((process d c).1.stopping ≡ false → c.stopping ≡ false)
  unfolding process
  process_lem c = ground arith

  got-Ledger :
      (i : ℕ) (p : Pool) (url : Text) (x : Result (Unit {0}) × Crawl)
      → get_elem? p.tasks i ≡ some (fetching url)
      → Quiet p.crawl x.1
      → AtMost key_of k (issued p) x.1.frontier
      → (p.crawl.stopping ≡ false → Exact key_of k (issued p) x.1.frontier)
      → Ledger (record p { crawl = x.1; tasks = set p.tasks i idle })
  unfolding due
  got-Ledger i p url x e quiet most exact =
      ground (arith, total-set due p.tasks i (fetching url) idle e)

  Change-Ledger : (p q : Pool) → Ledger p → p.crashed ≡ none → Change d p q → Ledger q
  unfolding due hits
  Change-Ledger p q h alive (took i url f e g) =
      let c = record p.crawl { frontier = f } in
      let (s, t, stops, runs) = process_lem c in
      start-Ledger i p url f (process d c) e g s t stops runs h
  Change-Ledger p q h alive (locked i url e free) =
      ground (arith, total-set due p.tasks i (waiting url) (sleeping url) e)
  Change-Ledger p q h alive (woke i url e) =
      ground (arith, total-set due p.tasks i (sleeping url) (fetching url) e)
  Change-Ledger p q h alive (got i url r e) =
      let x = recover d url (after_fetch d url r p.crawl) in
      finish-Ledger (record p { tasks = set p.tasks i idle }) x
        (got-Ledger i p url x e (settled-Quiet d url r p.crawl)
          (settled-Ledger (issued p) url r p.crawl h.at_most)
          (λ s. settled-Exact (issued p) url r p.crawl (h.exact s)))

  -- The crawl alone: what its chain has marked it has fetched or queued.
  abbrev Exactly : Crawl → Type 0
  Exactly c = Exact key_of k (hits key_of k c.fetches) c.frontier

  enter-Exactly : (seed : Text) → After Exactly (enter d seed new)
  unfolding enter mark_key hits hit occurs has
  enter-Exactly seed = ground arith

  hop-Exactly :
      (url : Text) (r : FetchResult) (target : Text) (c : Crawl)
      → Exactly c
      → After Exactly (hop d url r target c)
  unfolding hop mark_key hits hit occurs
  hop-Exactly url r target c h = elim (Result-cases (key_of target)) [
    | inl (key, e) ↦ ground (arith, occurs-zero_of_not_has k c.frontier.seen, text_eq_iff key k)
    | inr (x, e) ↦ ground arith
  ]

  admit-Exactly : (begun url : Text) (c : Crawl) → Exactly c → After Exactly (admit d begun url c)
  unfolding admit
  admit-Exactly begun url c h = ground arith

  handle-Exactly :
      (url : Text) (r : FetchResult) (c : Crawl)
      → Exactly c
      → After Exactly (handle d url (fetched r) c)
  handle-Exactly url r c h = After-intro Exactly (handle d url (fetched r) c) (
      rw (handle-Quiet d url (fetched r) c).fetches
        (handle-Holds d c.scope c.robots (Exact key_of k (hits key_of k c.fetches))
          (λ key link f _ e. add_key-Exact key_of k key link f e (hits key_of k c.fetches)) url
          (fetched r) c (refl, refl, h)).2)

  prepare-Exactly : (seed : Text) → After Exactly (prepare d seed new)
  prepare-Exactly =
      prepare-keeps d Exactly hop-Exactly Exactly Exactly enter-Exactly admit-Exactly handle-Exactly
        (λ _ h. h)

  run_pool-Ledger :
      (x : Result (Unit {0}) × Crawl) (moves : List Move) (p : Pool)
      → run_pool d x moves ≡ ok p
      → After Exactly x
      → Ledger p
  unfolding due
  run_pool-Ledger (ok _, c) moves p e h =
      let e' : run_moves d (pool_of d c) moves ≡ p = ground arith in
      rw (← e') (
        run_moves-keeps d Ledger Change-Ledger (pool_of d c) moves
          (ground (arith, total-replicate due d.config.concurrency idle refl)))
  run_pool-Ledger (raise x, c) moves p e h = cc

  run-Ledger : (seed : Text) (moves : List Move) (p : Pool) → run d seed moves ≡ ok p → Ledger p
  unfolding run
  run-Ledger seed moves p e = run_pool-Ledger (prepare d seed new) moves p e (prepare-Exactly seed)

  -- The crawl alone, also where the start raises: what was fetched was marked before.
  abbrev Marked : Crawl → Type 0
  Marked c = AtMost key_of k (hits key_of k c.fetches) c.frontier

  enter-Marked : (seed : Text) → Marked (enter d seed new).1
  unfolding enter mark_key hits hit occurs has
  enter-Marked seed = ground arith

  hop-Marked :
      (url : Text) (r : FetchResult) (target : Text) (c : Crawl)
      → Marked c
      → Marked (hop d url r target c).1
  unfolding hop mark_key hits hit occurs
  hop-Marked url r target c h = elim (Result-cases (key_of target)) [
    | inl (key, e) ↦ ground (arith, occurs-zero_of_not_has k c.frontier.seen, text_eq_iff key k)
    | inr (x, e) ↦ ground arith
  ]

  admit-Marked : (begun url : Text) (c : Crawl) → Marked c → Marked (admit d begun url c).1
  unfolding admit
  admit-Marked begun url c h = ground arith

  handle-Marked :
      (url : Text) (r : FetchResult) (c : Crawl) → Marked c → Marked (handle d url (fetched r) c).1
  handle-Marked url r c h =
      rw (handle-Quiet d url (fetched r) c).fetches
        (handle-Holds d c.scope c.robots (AtMost key_of k (hits key_of k c.fetches))
          (λ key link f _ e. add_key-AtMost key_of k key link f e (hits key_of k c.fetches)) url
          (fetched r) c (refl, refl, h)).2

  prepare-Marked : (seed : Text) → Marked (prepare d seed new).1
  unfolding hits occurs
  prepare-Marked =
      prepare-always d Marked hop-Marked enter-Marked admit-Marked handle-Marked (λ c h. h)
        (record { once = omega arith; within = omega arith })

  left_by-once :
      (x : Result (Unit {0}) × Crawl) (moves : List Move)
      → After Exactly x
      → Marked x.1
      → hits key_of k (left_by d x moves).fetches ≤ 1
  left_by-once (ok _, c) moves e h =
      omega (arith, run_pool-Ledger (ok tt, c) moves (run_moves d (pool_of d c) moves) refl e)
  left_by-once (raise x, c) moves e h = omega (arith, h)

  -- However `run` ends and under every schedule, an exception while the seed's chain is followed
  -- included: no two calls of `fetch` are for URLs with one canonical key.
  pub run-fetches_key_once :
      (seed : Text) (moves : List Move) → hits key_of k (run_leaves d seed moves).fetches ≤ 1
  unfolding run_leaves
  run-fetches_key_once seed moves =
      left_by-once (prepare d seed new) moves (prepare-Exactly seed) (prepare-Marked seed)

  idle_none_due : (ts : List Task) → All IsIdle ts → total due ts ≡ 0
  unfolding total due
  idle_none_due [] h = refl
  idle_none_due (t ∷ ts) h = rw h.0 (omega (arith, idle_none_due ts h.1))

  -- In every run that has joined its queue and was not stopped, by the page limit or the fuse, a key
  -- was seen exactly if one fetch was made for it: no page found is left out, and none comes twice.
  pub run-fetches_all_seen :
      (seed : Text) (moves : List Move) (p : Pool)
      → run d seed moves ≡ ok p
      → joined p.crawl.frontier ≡ true
      → p.crawl.stopping ≡ false
      → hits key_of k p.crawl.fetches ≡ (if has k p.crawl.frontier.seen then 1 else 0)
  unfolding hits
  run-fetches_all_seen seed moves p e j s =
      let done = (run-joined_iff d seed moves p e).0 j in
      ground (
        arith,
        (run-Ledger seed moves p e).exact s,
        idle_none_due p.tasks done.1,
        occurs-zero_of_not_has k p.crawl.frontier.seen,
        occurs_of_has k p.crawl.frontier.seen,
      )
