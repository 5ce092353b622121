-- ===== src/Repository/Claiming.antt =====
-- What `claim` of src/url_crawler_service/repository.py takes.
use url_crawler.Base.{
  ℕ, ◌≤◌, List, [], ◌∷◌, Option, none, some, Bool, true, false, ◌&&◌, ◌≡◌, ◌⊎◌, refl, arith, Text,
  leb, ◌==◌, any, not, select, Bool-cases, inl, inr, All, Option-cases, subst, sym,
}
use url_crawler.Repository.Rows.{CrawlRow, Db, is_queued, update, returning, first}
use url_crawler.Repository.{get, oldest, claimed_row, take_row, claim}

-- The primary key of the table.
abbrev pub UniqueIds : List CrawlRow → Type 0
UniqueIds [] = Unit
UniqueIds (r ∷ rs) = (any (λ s. s.id == r.id) rs ≡ false) × UniqueIds rs

abbrev pub In : CrawlRow → List CrawlRow → Type 0
In r [] = ⊥
In r (s ∷ rs) = (s ≡ r) ⊎ In r rs

absent_id :
    (k : ℕ) (r : CrawlRow) (rs : List CrawlRow)
    → any (λ s. s.id == k) rs ≡ false
    → In r rs
    → (k == r.id) ≡ false
unfolding any
absent_id k r [] a m = elim m [ ]
absent_id k r (s ∷ rs) a (inl e) = rw (← e) (ground arith)
absent_id k r (s ∷ rs) a (inr m) = absent_id k r rs (ground arith) m

pub select-In :
    (r : CrawlRow) (rs : List CrawlRow)
    → UniqueIds rs
    → In r rs
    → first (select (λ s. s.id == r.id) rs) ≡ some r
unfolding select first
select-In r [] u m = elim m [ ]
select-In r (s ∷ rs) u (inl e) = rw (e) (ground arith)
select-In r (s ∷ rs) u (inr m) = ground (arith, absent_id s.id r rs u.0 m, select-In r rs u.1 m)

pub returning-In :
    (f : CrawlRow → CrawlRow) (r : CrawlRow) (rs : List CrawlRow)
    → UniqueIds rs
    → In r rs
    → first (returning (λ s. s.id == r.id) f rs) ≡ some (f r)
unfolding returning first
returning-In f r [] u m = elim m [ ]
returning-In f r (s ∷ rs) u (inl e) = rw (e) (ground arith)
returning-In f r (s ∷ rs) u (inr m) =
    ground (arith, absent_id s.id r rs u.0 m, returning-In f r rs u.1 m)

module _ (p : CrawlRow → Bool) where
  -- No row satisfies `p`, or the row is one that does and none is older.
  abbrev Oldest : List CrawlRow → Option CrawlRow → Type 0
  Oldest rs none = any p rs ≡ false
  Oldest rs (some r) =
      (p r ≡ true) × In r rs × All (λ s. p s ≡ true → r.created_at ≤ s.created_at) rs

  older_All :
      (a b : ℕ) (rs : List CrawlRow)
      → a ≤ b
      → All (λ s. p s ≡ true → b ≤ s.created_at) rs
      → All (λ s. p s ≡ true → a ≤ s.created_at) rs
  older_All a b [] l h = tt
  older_All a b (s ∷ rs) l (h, hs) = ((λ e. omega (arith, h e)), older_All a b rs l hs)

  vacuous :
      (a : ℕ) (rs : List CrawlRow) → any p rs ≡ false → All (λ s. p s ≡ true → a ≤ s.created_at) rs
  unfolding any
  vacuous a [] e = tt
  vacuous a (s ∷ rs) e = ((λ h. ground arith), vacuous a rs (ground arith))

  -- One more row: it is the oldest, or is passed over.
  oldest-step :
      (r : CrawlRow) (rs : List CrawlRow) (o : Option CrawlRow)
      → oldest (select p rs) ≡ o
      → Oldest rs o
      → Oldest (r ∷ rs) (oldest (select p (r ∷ rs)))
  unfolding oldest select any
  oldest-step r rs none e h = elim (Bool-cases (p r)) [
    | inl t ↦ rw (t, e) (t, inl refl, ((λ _. omega arith), vacuous r.created_at rs h))
    | inr t ↦ rw (t, e) (rw t h)
  ]
  oldest-step r rs (some s) e (t, m, old) = elim (Bool-cases (p r)) [
    | inr f ↦ rw (f, e) (t, inr m, ((λ g. ground arith), old))
    | inl g ↦ elim (Bool-cases (leb r.created_at s.created_at)) [
      | inl l ↦
          let q : oldest (select p (r ∷ rs)) ≡ some r = rw (g, e, l) refl in
          let older = older_All r.created_at s.created_at rs (ground arith) old in
          subst (Oldest (r ∷ rs)) (sym q) (g, inl refl, ((λ _. omega arith), older))
      | inr l ↦
          let q : oldest (select p (r ∷ rs)) ≡ some s = rw (g, e, l) refl in
          subst (Oldest (r ∷ rs)) (sym q) (t, inr m, ((λ _. ground arith), old))
    ]
  ]

  pub oldest-Oldest : (rs : List CrawlRow) → Oldest rs (oldest (select p rs))
  unfolding oldest select any
  oldest-Oldest [] = refl
  oldest-Oldest (r ∷ rs) = oldest-step r rs (oldest (select p rs)) refl (oldest-Oldest rs)

-- The rows that `claim` looks at.
abbrev pub waits : (ℕ → Bool) → CrawlRow → Bool
waits locked r = is_queued r.state && not (locked r.id)

-- What `claim` did: no row waited and nothing changed, or a row than which no waiting row is older
-- runs now under the worker with one attempt more, its pages are gone, and no other row changed.
unfoldable pub Claims : Text → ℕ → (ℕ → Bool) → Db → Option CrawlRow × Db → Type 0
Claims worker now locked db (none, after) = (any (waits locked) db.crawls ≡ false) × (after ≡ db)
Claims worker now locked db (some taken, after) =
    (r : CrawlRow) × (get r.id db ≡ some r)
    × (waits locked r ≡ true)
    × All (λ s. waits locked s ≡ true → r.created_at ≤ s.created_at) db.crawls
    × (taken ≡ claimed_row worker r.attempts now r)
    × (after ≡ record db {
      crawls = update (λ s. s.id == r.id) (claimed_row worker r.attempts now) db.crawls;
      pages = select (λ page. not (page.crawl_id == r.id)) db.pages;
    })

-- For every table with unique ids `claim` takes the oldest queued crawl that no other transaction
-- holds, if there is one: it is running under the worker with one attempt more, its old pages are
-- deleted and no other row or page changes; if there is none, nothing changes.
pub claim-Claims :
    (worker : Text) (now : ℕ) (locked : ℕ → Bool) (db : Db)
    → UniqueIds db.crawls
    → Claims worker now locked db (claim worker now locked db)
unfolding claim take_row Claims get
claim-Claims worker now locked db u =
    let h = oldest-Oldest (waits locked) db.crawls in
    elim (Option-cases (oldest (select (waits locked) db.crawls))) [
      | inl e ↦ rw (claim, e) (subst (Oldest (waits locked) db.crawls) e h, refl)
      | inr (r, e) ↦
          let (w, m, old) = subst (Oldest (waits locked) db.crawls) e h in
          rw (claim, e, take_row, returning-In (claimed_row worker r.attempts now) r db.crawls u m)
            (r, select-In r db.crawls u m, w, old, refl, refl)
    ]
