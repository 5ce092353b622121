-- ===== src/Worker/Claiming.antt =====
-- src/url_crawler_service/worker.py: `_reap_if_due`, `run_once` and `run_forever`.
use url_crawler.Base.{
  ℕ, ◌+◌, ◌≤◌, List, [], ◌∷◌, Option, none, some, Bool, true, false, not, ◌≡◌, inl, inr, refl,
  arith, Text, ltb, if◌then◌else◌, Bool-cases, Result, ok, raise, Exn, ◌>>=◌,
}
use url_crawler.Repository.Rows.{CrawlRow, Db}
use url_crawler.Repository.{reap, claim}

-- The times of the worker's reaps on its own clock, the latest first, and how often it waited for the
-- poll interval.
pub record Poller : Type 0 where
  pub last_reap : Option ℕ
  pub reaps : List ℕ
  pub polls : ℕ

abbrev pub fresh : Poller
fresh = record { last_reap = none; reaps = []; polls = 0 }

-- What a round meets: the worker's clock, the database and its time, the rows locked by others,
-- whether the reap or the claim raises, and what the job does to the database or raises.
pub record Round : Type 0 where
  pub clock : ℕ
  pub db : Db
  pub now : ℕ
  pub locked : ℕ → Bool
  pub reap_raises : Option Exn
  pub claim_raises : Option Exn
  pub run_job : CrawlRow → Db → Result Db

module _ (worker : Text) (lease max_attempts : ℕ) where
  abbrev pub is_due : ℕ → Option ℕ → Bool
  is_due clock none = true
  is_due clock (some last) = not (ltb clock (last + lease))

  abbrev pub raising : {A : Type 0} → Option Exn → A → Result A
  raising none a = ok a
  raising (some e) a = raise e

  -- `_last_reap` is set before the repository is called.
  unfoldable pub reap_if_due : Round → Poller → Result Db × Poller
  reap_if_due r p =
      if is_due r.clock p.last_reap
      then (
        raising r.reap_raises (reap lease max_attempts r.now r.db).1,
        record p { last_reap = some r.clock; reaps = r.clock ∷ p.reaps },
      )
      else (ok r.db, p)

  -- The claim and the job: whether a crawl was claimed.
  abbrev pub claimed_job : Round → Option CrawlRow × Db → Result (Bool × Db)
  claimed_job r (none, db) = ok (false, db)
  claimed_job r (some crawl, db) = r.run_job crawl db >>= λ after. ok (true, after)

  abbrev pub claim_and_run : Round → Result Db → Result (Bool × Db)
  claim_and_run r (raise e) = raise e
  claim_and_run r (ok db) =
      raising r.claim_raises (claim worker r.now r.locked db) >>= claimed_job r

  unfoldable pub run_once : Round → Poller → Result (Bool × Db) × Poller
  unfolding reap_if_due
  run_once r p = let (db, q) = reap_if_due r p in (claim_and_run r db, q)

  -- A round of `run_forever`: an exception waits like an empty queue.
  abbrev pub after_round : Result (Bool × Db) × Poller → Poller
  after_round (ok (true, db), p) = p
  after_round (ok (false, db), p) = record p { polls = p.polls + 1 }
  after_round (raise e, p) = record p { polls = p.polls + 1 }

  unfoldable pub run_forever : List Round → Poller → Poller
  unfolding run_once
  run_forever [] p = p
  run_forever (r ∷ rounds) p = run_forever rounds (after_round (run_once r p))

  -- Each reap comes a whole lease or more after the one before.
  abbrev pub Spaced : List ℕ → Type 0
  Spaced [] = Unit {0}
  Spaced (t ∷ []) = Unit {0}
  Spaced (t ∷ s ∷ ts) = (s + lease ≤ t) × Spaced (s ∷ ts)

  abbrev LastIs : Option ℕ → List ℕ → Type 0
  LastIs none [] = Unit {0}
  LastIs none (t ∷ ts) = ⊥
  LastIs (some last) [] = ⊥
  LastIs (some last) (t ∷ ts) = last ≡ t

  abbrev IsSpaced : Poller → Type 0
  IsSpaced p = Spaced p.reaps × LastIs p.last_reap p.reaps

  due-Spaced :
      (clock : ℕ) (last : Option ℕ) (ts : List ℕ)
      → is_due clock last ≡ true
      → LastIs last ts
      → Spaced ts
      → Spaced (clock ∷ ts)
  due-Spaced clock none [] d l s = tt
  due-Spaced clock none (t ∷ ts) d l s = elim l [ ]
  due-Spaced clock (some last) [] d l s = elim l [ ]
  due-Spaced clock (some last) (t ∷ ts) d l s = (ground (arith, d, l), s)

  after_round-IsSpaced : (x : Result (Bool × Db) × Poller) → IsSpaced x.1 → IsSpaced (after_round x)
  after_round-IsSpaced (ok (true, db), p) h = h
  after_round-IsSpaced (ok (false, db), p) h = h
  after_round-IsSpaced (raise e, p) h = h

  run_once-IsSpaced : (r : Round) (p : Poller) → IsSpaced p → IsSpaced (run_once r p).1
  unfolding run_once reap_if_due
  run_once-IsSpaced r p (s, l) = elim (Bool-cases (is_due r.clock p.last_reap)) [
    | inl d ↦ rw (run_once, reap_if_due, d) (due-Spaced r.clock p.last_reap p.reaps d l s, refl)
    | inr d ↦ rw (run_once, reap_if_due, d) (s, l)
  ]

  run_forever-IsSpaced :
      (rounds : List Round) (p : Poller) → IsSpaced p → IsSpaced (run_forever rounds p)
  unfolding run_forever
  run_forever-IsSpaced [] p h = h
  run_forever-IsSpaced (r ∷ rounds) p h =
      run_forever-IsSpaced rounds (after_round (run_once r p))
        (after_round-IsSpaced (run_once r p) (run_once-IsSpaced r p h))

  -- Through every sequence of rounds, with exceptions anywhere, a worker reaps at most once in a lease.
  pub run_forever-Spaced : (rounds : List Round) → Spaced (run_forever rounds fresh).reaps
  run_forever-Spaced rounds = (run_forever-IsSpaced rounds fresh (tt, tt)).0
