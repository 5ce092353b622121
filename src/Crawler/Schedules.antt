-- ===== src/Crawler/Schedules.antt =====
-- The cases of one move of src/url_crawler/crawler.py's worker pool, and induction on a schedule.
use url_crawler.Base.{
  ℕ, List, [], ◌∷◌, Option, none, some, false, Text, Result, Exn, ◌≡◌, refl, get_elem?, set, ◌⊎◌,
  inl, inr, Option-cases, Bool-cases, any,
}
use url_crawler.Models.{Fetched}
use url_crawler.Frontier.{Frontier, get}
use url_crawler.Crawler.Deps.{Deps}
use url_crawler.Crawler.Workers.{
  Task, idle, waiting, sleeping, fetching, Pool, Move, gets, locks, wakes, returns, process,
  start_fetch, recover, after_fetch, finish, start, move, worker_of, step, attempt, run_moves,
  is_sleeping,
}

module _ (d : Deps) (p : Pool) where
  -- What one move can do to the pool, other than nothing.
  pub data Change : Pool → Type 0 where
    took :
        (i : ℕ) (url : Text) (f : Frontier)
        → get_elem? p.tasks i ≡ some idle
        → get p.crawl.frontier ≡ some (url, f)
        → Change (start d i p url (process d (record p.crawl { frontier = f })))
    locked :
        (i : ℕ) (url : Text)
        → get_elem? p.tasks i ≡ some (waiting url)
        → any is_sleeping p.tasks ≡ false
        → Change (record p { tasks = set p.tasks i (sleeping url) })
    woke :
        (i : ℕ) (url : Text)
        → get_elem? p.tasks i ≡ some (sleeping url)
        → Change
            (record p { crawl = start_fetch url p.crawl; tasks = set p.tasks i (fetching url) })
    got :
        (i : ℕ) (url : Text) (result : Result Fetched)
        → get_elem? p.tasks i ≡ some (fetching url)
        → Change (
            finish
              (record p { tasks = set p.tasks i idle })
              (recover d url (after_fetch d url result p.crawl)))

  abbrev Moved : Pool → Type 0
  Moved q = (q ≡ p) ⊎ ((p.crashed ≡ none) × Change q)

  move-gets :
      (i : ℕ)
      → p.crashed ≡ none
      → get_elem? p.tasks i ≡ some idle
      → Moved (move d (gets i) (some idle) p)
  unfolding move
  move-gets i alive e = elim (Option-cases (get p.crawl.frontier)) [
    | inl q ↦ rw (q, move) (inl refl)
    | inr ((url, f), q) ↦ rw (q, move) (inr (alive, took i url f e q))
  ]

  move-locks :
      (i : ℕ) (url : Text)
      → p.crashed ≡ none
      → get_elem? p.tasks i ≡ some (waiting url)
      → Moved (move d (locks i) (some (waiting url)) p)
  unfolding move
  move-locks i url alive e = elim (Bool-cases (any is_sleeping p.tasks)) [
    | inl q ↦ rw (q, move) (inl refl)
    | inr q ↦ rw (q, move) (inr (alive, locked i url e q))
  ]

  move-Moved :
      (m : Move) (t : Option Task)
      → p.crashed ≡ none
      → get_elem? p.tasks (worker_of m) ≡ t
      → Moved (move d m t p)
  unfolding move
  move-Moved (gets i) (some idle) alive e = move-gets i alive e
  move-Moved (locks i) (some (waiting url)) alive e = move-locks i url alive e
  move-Moved (wakes i) (some (sleeping url)) alive e = inr (alive, woke i url e)
  move-Moved (returns i result) (some (fetching url)) alive e = inr (alive, got i url result e)
  move-Moved _ _ alive e = inl refl

  attempt-Moved : (x : Option Exn) (m : Move) → p.crashed ≡ x → Moved (attempt d x m p)
  unfolding attempt
  attempt-Moved (some e) m h = inl refl
  attempt-Moved none m h = move-Moved m (get_elem? p.tasks (worker_of m)) h refl

  pub step-Moved : (m : Move) → Moved (step d p m)
  unfolding step
  step-Moved m = attempt-Moved p.crashed m refl

module _ {ℓ} (d : Deps) (P : Pool → Type ℓ)
    (keep : (p q : Pool) → P p → p.crashed ≡ none → Change d p q → P q) where
  pub step-keeps : (p : Pool) (m : Move) → P p → P (step d p m)
  step-keeps p m h = elim (step-Moved d p m) [
    | inl e ↦ rw e h
    | inr (alive, c) ↦ keep p (step d p m) h alive c
  ]

  -- What every change keeps holds after any schedule.
  pub run_moves-keeps : (p : Pool) (ms : List Move) → P p → P (run_moves d p ms)
  unfolding run_moves
  run_moves-keeps p [] h = h
  run_moves-keeps p (m ∷ ms) h = run_moves-keeps (step d p m) ms (step-keeps p m h)
