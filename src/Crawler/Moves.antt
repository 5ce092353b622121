-- ===== src/Crawler/Moves.antt =====
-- That src/url_crawler/crawler.py's worker pool makes a bounded number of moves for each URL seen.
use url_crawler.Base.{
  ℕ, ◌+◌, ◌*◌, ◌≤◌, List, [], ◌∷◌, Option, none, some, Bool, true, false, ◌&&◌, Text, Result, ok,
  raise, arith, ◌≡◌, refl, length, get_elem?, Bool-cases, inl, inr, any, Exn, if◌then◌else◌,
}
use url_crawler.Models.{FetchResult, fetched}
use url_crawler.Frontier.{Frontier, mark_key, get}
use url_crawler.Crawler.Deps.{Deps}
use url_crawler.Crawler.State.{Crawl, After, After-intro, new}
use url_crawler.Crawler.Page.{handle}
use url_crawler.Crawler.Workers.{
  Task, idle, waiting, sleeping, fetching, Pool, Move, gets, locks, wakes, returns, move, attempt,
  step, worker_of, is_sleeping, run_moves, pool_of,
}
use url_crawler.Crawler.Seed.{enter, hop, admit, prepare, run_pool, run}
use url_crawler.Crawler.Tasks.{total, total-replicate}
use url_crawler.Crawler.Growth.{handle-Holds}
use url_crawler.Crawler.Preparation.{prepare-keeps}
use url_crawler.Crawler.Schedules.{Change, took, locked, woke, got}
use url_crawler.Crawler.Enabled.{admits, runs, enabled, made, weight, is_empty}
use url_crawler.Crawler.Budget.{Spare, InBudget, Spare-add_key, Change-InBudget}

get_empty : (f : Frontier) → get f ≡ none → is_empty f.queue ≡ true
unfolding get
get_empty f e = ground arith

get_filled : (f g : Frontier) (url : Text) → get f ≡ some (url, g) → is_empty f.queue ≡ false
unfolding get
get_filled f g url e = ground arith

weight_idle : weight idle ≡ 0
unfolding weight
weight_idle = refl

module _ (d : Deps) where
  -- A move that is enabled changes the pool, and no other does.
  abbrev Made : Pool → Pool → Bool → Type 0
  Made p q true = Change d p q
  Made p q false = q ≡ p

  gets-Made :
      (i : ℕ) (p : Pool) (o : Option (Text × Frontier))
      → get_elem? p.tasks i ≡ some idle
      → get p.crawl.frontier ≡ o
      → Made p (move d (gets i) (some idle) p) (admits (gets i) (some idle) p)
  unfolding move admits
  gets-Made i p none e q = rw (q, move, admits, get_empty p.crawl.frontier q) refl
  gets-Made i p (some (url, f)) e q =
      rw (q, move, admits, get_filled p.crawl.frontier f url q) (took i url f e q)

  admits-Made :
      (m : Move) (t : Option Task) (p : Pool)
      → get_elem? p.tasks (worker_of m) ≡ t
      → Made p (move d m t p) (admits m t p)
  unfolding move admits
  admits-Made (gets i) (some idle) p e = gets-Made i p (get p.crawl.frontier) e refl
  admits-Made (locks i) (some (waiting url)) p e = elim (Bool-cases (any is_sleeping p.tasks)) [
    | inl s ↦ rw (move, admits, s) refl
    | inr s ↦ rw (move, admits, s) (locked i url e s)
  ]
  admits-Made (wakes i) (some (sleeping url)) p e = woke i url e
  admits-Made (returns i result) (some (fetching url)) p e = got i url result e
  admits-Made _ _ p e = refl

  attempt-Made :
      (o : Option Exn) (m : Move) (p : Pool)
      → Made p (attempt d o m p) (runs o && admits m (get_elem? p.tasks (worker_of m)) p)
  unfolding attempt
  attempt-Made none m p = admits-Made m (get_elem? p.tasks (worker_of m)) p refl
  attempt-Made (some x) m p = refl

  pub step-Made : (m : Move) (p : Pool) → Made p (step d p m) (enabled p m)
  unfolding step enabled
  step-Made m p = attempt-Made p.crashed m p

  step-InBudget :
      (n : ℕ) (p q : Pool) (b : Bool)
      → InBudget n p
      → Made p q b
      → InBudget (n + (if b then 1 else 0)) q
  step-InBudget n p q true h c = omega (arith, Change-InBudget d n p q h c)
  step-InBudget n p q false h e = rw e (omega (arith, h))

  run_moves-InBudget :
      (n : ℕ) (p : Pool) (ms : List Move)
      → InBudget n p
      → InBudget (n + made d p ms) (run_moves d p ms)
  unfolding run_moves made
  run_moves-InBudget n p [] h = omega (arith, h)
  run_moves-InBudget n p (m ∷ ms) h =
      let k = n + (if enabled p m then 1 else 0) in
      let r =
        run_moves-InBudget k (step d p m) ms
          (step-InBudget n p (step d p m) (enabled p m) h (step-Made m p)) in
      omega (arith, r)

  enter-Spare : (seed : Text) → Spare 0 0 (enter d seed new).1.frontier
  unfolding enter mark_key
  enter-Spare seed = ground arith

  hop-Spare :
      (url : Text) (r : FetchResult) (target : Text) (c : Crawl)
      → Spare 0 0 c.frontier
      → Spare 0 0 (hop d url r target c).1.frontier
  unfolding hop mark_key
  hop-Spare url r target c h = ground arith

  admit-Spare :
      (begun url : Text) (c : Crawl)
      → Spare 0 0 c.frontier
      → Spare 0 0 (admit d begun url c).1.frontier
  unfolding admit
  admit-Spare begun url c h = ground arith

  handle-Spare :
      (url : Text) (r : FetchResult) (c : Crawl)
      → Spare 0 0 c.frontier
      → Spare 0 0 (handle d url (fetched r) c).1.frontier
  handle-Spare url r c h =
      (handle-Holds d c.scope c.robots (Spare 0 0) (λ key link f _ _. Spare-add_key 0 0 key link f)
        url (fetched r) c (refl, refl, h)).2

  abbrev Funded : Crawl → Type 0
  Funded c = Spare 0 0 c.frontier

  prepare-Spare : (seed : Text) → After Funded (prepare d seed new)
  prepare-Spare =
      prepare-keeps d Funded
        (λ url r t c h. After-intro Funded (hop d url r t c) (hop-Spare url r t c h)) Funded Funded
        (λ seed. After-intro Funded (enter d seed new) (enter-Spare seed))
        (λ begun url c h. After-intro Funded (admit d begun url c) (admit-Spare begun url c h))
        (λ url r c h. After-intro Funded (handle d url (fetched r) c) (handle-Spare url r c h))
        (λ _ h. h)

  run_pool-InBudget :
      (x : Result (Unit {0}) × Crawl) (moves : List Move) (p : Pool)
      → run_pool d x moves ≡ ok p
      → After Funded x
      → InBudget (made d (pool_of d x.1) moves) p
  run_pool-InBudget (ok _, c) moves p e h =
      let e' : run_moves d (pool_of d c) moves ≡ p = ground arith in
      let none_yet : total weight (pool_of d c).tasks ≡ 0 =
        total-replicate weight d.config.concurrency idle weight_idle in
      let r = run_moves-InBudget 0 (pool_of d c) moves (omega (arith, h, none_yet)) in
      rw (← e') (omega (arith, r))
  run_pool-InBudget (raise x, c) moves p e h = cc

  -- In every run, under every schedule, the workers make at most four moves for each URL seen: one
  -- takes it from the queue, one takes the delay's lock, one ends the delay and one ends the fetch. So
  -- a run over finitely many URLs comes to an end, after which no move is possible.
  pub run-moves_le_seen :
      (seed : Text) (moves : List Move) (p : Pool)
      → run d seed moves ≡ ok p
      → made d (pool_of d (prepare d seed new).1) moves ≤ 4 * length p.crawl.frontier.seen
  unfolding run
  run-moves_le_seen seed moves p e =
      omega (arith, run_pool-InBudget (prepare d seed new) moves p e (prepare-Spare seed))
