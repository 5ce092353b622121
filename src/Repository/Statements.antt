-- ===== src/Repository/Statements.antt =====
-- The lemmas on `update` and `returning` of Repository/Rows.antt, the statements of the repository.
use url_crawler.Base.{
  List, [], ◌∷◌, none, Bool, true, false, ◌&&◌, ◌≡◌, refl, arith, select, any, All, Bool-cases, inl,
  inr, subst, some,
}
use url_crawler.Repository.Rows.{
  CrawlRow, update, returning, first, CrawlState, queued, running, finished, failed, aborted,
  is_running,
}

pub update-none :
    (p : CrawlRow → Bool) (f : CrawlRow → CrawlRow) (rs : List CrawlRow)
    → any p rs ≡ false
    → update p f rs ≡ rs
unfolding update any
update-none p f [] e = refl
update-none p f (r ∷ rs) e = ground (arith, update-none p f rs)

pub returning-none :
    (p : CrawlRow → Bool) (f : CrawlRow → CrawlRow) (rs : List CrawlRow)
    → any p rs ≡ false
    → returning p f rs ≡ []
unfolding returning any
returning-none p f [] e = refl
returning-none p f (r ∷ rs) e = ground (arith, returning-none p f rs)

pub any-and {ℓ} :
    {A : Type ℓ} (p q : A → Bool) (xs : List A)
    → any p xs ≡ false
    → any (λ x. p x && q x) xs ≡ false
unfolding any
any-and p q [] e = refl
any-and p q (x ∷ xs) e = ground (arith, any-and p q xs)

pub first-select {ℓ} :
    {A : Type ℓ} (p : A → Bool) (xs : List A) → any p xs ≡ false → first (select p xs) ≡ none
unfolding any select first
first-select p [] e = refl
first-select p (x ∷ xs) e = ground (arith, first-select p xs)

-- A statement keeps what each row that it changes keeps.
pub update-All {κ} :
    (P : CrawlRow → Type κ) (p : CrawlRow → Bool) (f : CrawlRow → CrawlRow) (rs : List CrawlRow)
    → ((r : CrawlRow) → P r → p r ≡ true → P (f r))
    → All P rs
    → All P (update p f rs)
unfolding update
update-All P p f [] k h = tt
update-All P p f (r ∷ rs) k (h, hs) = elim (Bool-cases (p r)) [
  | inl e ↦ rw e (k r h e, update-All P p f rs k hs)
  | inr e ↦ rw e (h, update-All P p f rs k hs)
]

-- What holds of every row holds of the first one that is selected.
pub select-All :
    (P : CrawlRow → Type 0) (p : CrawlRow → Bool) (r : CrawlRow) (rs : List CrawlRow)
    → first (select p rs) ≡ some r
    → All P rs
    → P r
unfolding first select
select-All P p r [] e h = cc
select-All P p r (s ∷ rs) e (h, hs) = elim (Bool-cases (p s)) [
  | inl t ↦ subst P (ground (arith, e, t)) h
  | inr t ↦ select-All P p r rs (ground (arith, e, t)) hs
]

pub running_of : (s : CrawlState) → is_running s ≡ true → s ≡ running
running_of queued e = cc
running_of running e = refl
running_of finished e = cc
running_of failed e = cc
running_of aborted e = cc

pub first-select-true {ℓ} :
    {A : Type ℓ} (p : A → Bool) (x : A) (xs : List A) → first (select p xs) ≡ some x → p x ≡ true
unfolding first select
first-select-true p x [] e = cc
first-select-true p x (y ∷ xs) e = elim (Bool-cases (p y)) [
  | inl t ↦ subst (λ z. p z ≡ true) (ground (arith, e, t)) t
  | inr t ↦ first-select-true p x xs (ground (arith, e, t))
]
