-- ===== src/Crawler/Allowed.antt =====
-- src/url_crawler/crawler.py's workers fetch only what the host scope and the robots policy allow.
use url_crawler.Base.{
  ℕ, zero, suc, List, [], ◌∷◌, ◌++◌, Option, some, Text, Result, ok, arith, ◌≡◌, sym, ap, ◌∙◌,
  subst, get_elem?, set, replicate, All, All-append,
}
use url_crawler.Models.{Fetched}
use url_crawler.Frontier.{Frontier, get, add_key, task_done}
use url_crawler.Crawler.Deps.{Deps, HostScope, RobotsPolicy}
use url_crawler.Crawler.State.{Crawl}
use url_crawler.Crawler.Quiet.{settled-Quiet}
use url_crawler.Crawler.Growth.{Admitted, settled-Holds}
use url_crawler.Crawler.Workers.{
  Task, idle, waiting, sleeping, fetching, Pool, Move, Stage, returned, delay, fetch, process,
  recover, after_fetch, finish, start, run_moves, pool_of,
}
use url_crawler.Crawler.Schedules.{Change, took, locked, woke, got, run_moves-keeps}

All-set {ℓ κ} :
    {A : Type ℓ} (P : A → Type κ) (xs : List A) (i : ℕ) (x : A)
    → All P xs
    → P x
    → All P (set xs i x)
All-set P [] i x h p = h
All-set P (y ∷ ys) zero x h p = (p, h.1)
All-set P (y ∷ ys) (suc i) x h p = (h.0, All-set P ys i x h.1 p)

All-get {ℓ κ} :
    {A : Type ℓ} (P : A → Type κ) (xs : List A) (i : ℕ) (x : A)
    → get_elem? xs i ≡ some x
    → All P xs
    → P x
All-get P [] i x e h = cc
All-get P (y ∷ ys) zero x e h = let e' : y ≡ x = cc in subst P e' h.0
All-get P (y ∷ ys) (suc i) x e h = All-get P ys i x e h.1

All-replicate {ℓ κ} : {A : Type ℓ} (P : A → Type κ) (n : ℕ) (x : A) → P x → All P (replicate n x)
All-replicate P zero x p = tt
All-replicate P (suc n) x p = (p, All-replicate P n x p)

finish_frame :
    (p : Pool) (x : Result (Unit {0}) × Crawl)
    → ((finish p x).crawl.frontier.queue ≡ x.1.frontier.queue)
      × ((finish p x).crawl.scope ≡ x.1.scope)
      × ((finish p x).crawl.robots ≡ x.1.robots)
      × ((finish p x).crawl.fetches ≡ x.1.fetches)
      × ((finish p x).tasks ≡ p.tasks)
unfolding finish task_done
finish_frame p x = ground arith

get-queue : (f f' : Frontier) (url : Text) → get f ≡ some (url, f') → f.queue ≡ url ∷ f'.queue
unfolding get
get-queue f f' url e = ground arith

process_frame :
    (d : Deps) (c : Crawl)
    → ((process d c).1.frontier.queue ≡ c.frontier.queue)
      × ((process d c).1.scope ≡ c.scope)
      × ((process d c).1.robots ≡ c.robots)
      × ((process d c).1.fetches ≡ c.fetches)
unfolding process
process_frame d c = ground arith

module _ (d : Deps) (here : Option HostScope) (robots : RobotsPolicy) (base : List Text) where
  abbrev pub Fits : Text → Type 0
  Fits = Admitted d here robots

  -- The URL that a worker holds fits.
  abbrev Holding : Task → Type 0
  Holding idle = Unit
  Holding (waiting url) = Fits url
  Holding (sleeping url) = Fits url
  Holding (fetching url) = Fits url

  pub record Fitting (c : Crawl) : Type 0 where
    pub scope : c.scope ≡ here
    pub policy : c.robots ≡ robots
    pub queued : All Fits c.frontier.queue
    pub made : (news : List Text) × (c.fetches ≡ news ++ base) × All Fits news

  abbrev PoolFits : Pool → Type 0
  PoolFits p = Fitting p.crawl × All Holding p.tasks

  pub add_key-Fits :
      (key url : Text) (f : Frontier)
      → Fits url
      → All Fits f.queue
      → All Fits (add_key key url f).1.queue
  unfolding add_key
  add_key-Fits key url f a h = ground (arith, All-append Fits f.queue (url ∷ []) h (a, tt))

  settled-Fits :
      (url : Text) (r : Result Fetched) (c : Crawl)
      → Fitting c
      → Fitting (recover d url (after_fetch d url r c)).1
  settled-Fits url r c h =
      let held =
        settled-Holds d here robots (λ f. All Fits f.queue)
          (λ key link f a _. add_key-Fits key link f a) url r c (h.scope, h.policy, h.queued) in
      record {
        scope = held.0;
        policy = held.1;
        queued = held.2;
        made = (h.made.0, (settled-Quiet d url r c).fetches ∙ h.made.1, h.made.2);
      }

  finish-Fits :
      (p : Pool) (x : Result (Unit {0}) × Crawl)
      → Fitting x.1
      → All Holding p.tasks
      → PoolFits (finish p x)
  finish-Fits p x h t =
      let (q, s, r, f, ts) = finish_frame p x in
      (
        record {
          scope = s ∙ h.scope;
          policy = r ∙ h.policy;
          queued = subst (All Fits) (sym q) h.queued;
          made = (h.made.0, f ∙ h.made.1, h.made.2);
        },
        subst (All Holding) (sym ts) t,
      )

  made-start :
      (url : Text) (c : Crawl)
      → Fits url
      → Fitting c
      → Fitting (record c { fetches = url ∷ c.fetches })
  made-start url c a h = record {
    scope = h.scope;
    policy = h.policy;
    queued = h.queued;
    made = (url ∷ h.made.0, ap (◌∷◌ url) h.made.1, (a, h.made.2));
  }

  get-Fits :
      (f f' : Frontier) (url : Text)
      → get f ≡ some (url, f')
      → All Fits f.queue
      → Fits url × All Fits f'.queue
  get-Fits f f' url e h = subst (All Fits) (get-queue f f' url e) h

  process-Fits : (c : Crawl) → Fitting c → Fitting (process d c).1
  unfolding process
  process-Fits c h =
      let (q, s, r, f) = process_frame d c in
      record {
        scope = s ∙ h.scope;
        policy = r ∙ h.policy;
        queued = subst (All Fits) (sym q) h.queued;
        made = (h.made.0, f ∙ h.made.1, h.made.2);
      }

  start-Fits :
      (i : ℕ) (p : Pool) (url : Text) (x : Stage × Crawl)
      → Fits url
      → Fitting x.1
      → All Holding p.tasks
      → PoolFits (start d i p url x)
  unfolding start
  start-Fits i p url (returned, c) a h t = finish-Fits p (ok tt, c) h t
  start-Fits i p url (delay, c) a h t = (h, All-set Holding p.tasks i (waiting url) t a)
  start-Fits i p url (fetch, c) a h t =
      (made-start url c a h, All-set Holding p.tasks i (fetching url) t a)

  taken :
      (c : Crawl) (f : Frontier)
      → All Fits f.queue
      → Fitting c
      → Fitting (record c { frontier = f })
  taken c f q h = record { scope = h.scope; policy = h.policy; queued = q; made = h.made }

  Change-Fits : (p q : Pool) → PoolFits p → Change d p q → PoolFits q
  Change-Fits p q (h, t) (took i url f e g) =
      let (a, rest) = get-Fits p.crawl.frontier f url g h.queued in
      start-Fits i p url _ a (process-Fits _ (taken p.crawl f rest h)) t
  Change-Fits p q (h, t) (locked i url e free) =
      (h, All-set Holding p.tasks i (sleeping url) t (All-get Holding p.tasks i (waiting url) e t))
  Change-Fits p q (h, t) (woke i url e) =
      let a = All-get Holding p.tasks i (sleeping url) e t in
      (made-start url p.crawl a h, All-set Holding p.tasks i (fetching url) t a)
  Change-Fits p q (h, t) (got i url r e) =
      finish-Fits (record p { tasks = set p.tasks i idle }) _ (settled-Fits url r p.crawl h)
        (All-set Holding p.tasks i idle t tt)

  pub run_moves-Fits :
      (c : Crawl) (moves : List Move) → Fitting c → Fitting (run_moves d (pool_of d c) moves).crawl
  run_moves-Fits c moves h =
      (run_moves-keeps d PoolFits (λ p q w _. Change-Fits p q w) (pool_of d c) moves
        (h, All-replicate Holding d.config.concurrency idle tt)).0
