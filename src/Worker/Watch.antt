-- ===== src/Worker/Watch.antt =====
-- src/url_crawler_service/worker.py: `_heartbeat`, the task that watches the lease of a crawl.
use url_crawler.Base.{
  ℕ, ◌+◌, ◌≤◌, List, [], ◌∷◌, Option, none, some, Bool, true, false, ◌≡◌, inl, inr, refl, ap, arith,
  Text, ltb, select, if◌then◌else◌, Bool-cases, Option-cases, ◌∙◌,
}
use url_crawler.Repository.Rows.{CrawlRow, Db, returning, first}
use url_crawler.Repository.{leases, beat, flag_of, heartbeat}
use url_crawler.Worker.{Interrupt, cancel_requested, lease_lost}

-- One round: the call raises, or it meets a database at its time there; then the worker reads its
-- own clock.
pub data Beat : Type 0 where
  raised : ℕ → Beat
  called : Db → Text → ℕ → ℕ → Beat

-- The watcher goes on, with the time of its last success, or it has cancelled the crawl.
pub data Watch : Type 0 where
  alive : ℕ → Watch
  interrupted : Interrupt → Watch

module _ (id : ℕ) (worker : Text) (lease : ℕ) where
  abbrev pub answered : Option Bool → ℕ → Watch
  answered none clock = interrupted lease_lost
  answered (some true) clock = interrupted cancel_requested
  answered (some false) clock = alive clock

  unfoldable pub round : ℕ → Beat → Watch
  round last_ok (raised clock) =
      if ltb clock (last_ok + lease) then alive last_ok else interrupted lease_lost
  round last_ok (called db stats now clock) = answered (heartbeat id worker stats now db).0 clock

  unfoldable pub watch : ℕ → List Beat → Watch
  unfolding round
  watch last_ok [] = alive last_ok
  watch last_ok (b ∷ beats) = elim (round last_ok b) [
    | alive at ↦ watch at beats
    | interrupted i ↦ interrupted i
  ]

  -- The row that the worker leases, if there is one.
  abbrev pub leased : Db → Option CrawlRow
  leased db = first (select (leases id worker) db.crawls)

  -- A round that is no reason to stop the crawl.
  abbrev pub Calm : ℕ → Beat → Type 0
  Calm last_ok (raised clock) = ltb clock (last_ok + lease) ≡ true
  Calm last_ok (called db stats now clock) =
      (r : CrawlRow) × (leased db ≡ some r) × (r.cancel_requested ≡ false)

  -- A round that is the reason for an interrupt.
  abbrev pub Reason : ℕ → Beat → Interrupt → Type 0
  Reason last_ok (raised clock) lease_lost = last_ok + lease ≤ clock
  Reason last_ok (called db stats now clock) lease_lost = leased db ≡ none
  Reason last_ok (called db stats now clock) cancel_requested =
      (r : CrawlRow) × (leased db ≡ some r) × (r.cancel_requested ≡ true)
  Reason last_ok b i = ⊥

  abbrev pub success : ℕ → Beat → ℕ
  success last_ok (raised clock) = last_ok
  success last_ok (called db stats now clock) = clock

  -- What the rounds were, given how the watch stands after them.
  pub data Watched : ℕ → List Beat → Watch → Type 0 where
    over : {last_ok : ℕ} → Watched last_ok [] (alive last_ok)
    calm :
        {last_ok : ℕ} {b : Beat} {beats : List Beat} {w : Watch}
        → Calm last_ok b
        → Watched (success last_ok b) beats w
        → Watched last_ok (b ∷ beats) w
    struck :
        {last_ok : ℕ} {b : Beat} {beats : List Beat} {i : Interrupt}
        → Reason last_ok b i
        → Watched last_ok (b ∷ beats) (interrupted i)

  -- The answer of the update tells of the row that it changed.
  flag_of-returning :
      (stats : Text) (now : ℕ) (rs : List CrawlRow)
      → flag_of (first (returning (leases id worker) (beat stats now) rs))
        ≡ flag_of (first (select (leases id worker) rs))
  unfolding returning first select
  flag_of-returning stats now [] = refl
  flag_of-returning stats now (r ∷ rs) = ground (arith, flag_of-returning stats now rs)

  -- How a call that returned is answered.
  round_answer :
      (last_ok : ℕ) (db : Db) (stats : Text) (now clock : ℕ) (o : Option CrawlRow)
      → leased db ≡ o
      → round last_ok (called db stats now clock) ≡ answered (flag_of o) clock
  unfolding round heartbeat
  round_answer last_ok db stats now clock o e =
      ap (λ f. answered f clock) (flag_of-returning stats now db.crawls ∙ ap flag_of e)

  -- The watcher stops the crawl at the first round that gives the reason for its interrupt (a lease
  -- that is gone or has lasted too long without a success, or a cancel request on the leased row), and
  -- at no other; while it goes on, each answer came from a row that it leases and nobody cancelled, and
  -- each failure came within the lease of the last success.
  pub watch-Watched :
      (last_ok : ℕ) (beats : List Beat) → Watched last_ok beats (watch last_ok beats)
  unfolding watch
  watch-Watched last_ok [] = over
  watch-Watched last_ok (raised clock ∷ beats) = elim (Bool-cases (ltb clock (last_ok + lease))) [
    | inl t ↦ rw (watch, round, t) (calm t (watch-Watched last_ok beats))
    | inr t ↦ rw (watch, round, t) (struck (ground arith))
  ]
  watch-Watched last_ok (called db stats now clock ∷ beats) = elim (Option-cases (leased db)) [
    | inl e ↦ rw (watch, round_answer last_ok db stats now clock none e) (struck e)
    | inr (r, e) ↦ elim (Bool-cases r.cancel_requested) [
      | inl c ↦ rw (watch, round_answer last_ok db stats now clock (some r) e, c) (struck (r, e, c))
      | inr c ↦
          rw (watch, round_answer last_ok db stats now clock (some r) e, c)
            (calm (r, e, c) (watch-Watched clock beats))
    ]
  ]
