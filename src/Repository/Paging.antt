-- ===== src/Repository/Paging.antt =====
-- Reading an ordered list in batches, each after the key of the last one's last element.
use url_crawler.Base.{
  ℕ, zero, suc, ◌≤◌, ◌<◌, List, [], ◌∷◌, Option, none, some, ◌≡◌, refl, arith, ltb, select, All,
  All-imp, subst, Bool-cases, inl, inr, take, drop,
}
use url_crawler.Repository.Ordered.{Ascending}

module _ {ℓ} {A : Type ℓ} (key : A → ℕ) where
  abbrev pub above : ℕ → List A → List A
  above a = select (λ x. ltb a (key x))

  -- The key of the last element.
  unfoldable pub last_key : List A → Option ℕ
  last_key [] = none
  last_key (x ∷ []) = some (key x)
  last_key (x ∷ y ∷ xs) = last_key (y ∷ xs)

  above-All : (a : ℕ) (xs : List A) → All (λ x. a < key x) xs → above a xs ≡ xs
  unfolding select
  above-All a [] h = refl
  above-All a (x ∷ xs) (h, hs) = ground (arith, h, above-All a xs hs)

  pub above-above : (a b : ℕ) (xs : List A) → a ≤ b → above b (above a xs) ≡ above b xs
  unfolding select
  above-above a b [] h = refl
  above-above a b (x ∷ xs) h = ground (arith, h, above-above a b xs h)

  pub first-le-last :
      (n last : ℕ) (x : A) (xs : List A)
      → Ascending key (x ∷ xs)
      → last_key (x ∷ take n xs) ≡ some last
      → key x ≤ last
  unfolding last_key
  first-le-last zero last x xs a e = ground (arith, e)
  first-le-last (suc n) last x [] a e = ground (arith, e)
  first-le-last (suc n) last x (y ∷ xs) ((b, bs), a) e =
      let le = first-le-last n last y xs a e in omega (arith, b, le)

  -- What stands above the last of the first `n` is the rest.
  pub above-last_key :
      (n last : ℕ) (x : A) (xs : List A)
      → Ascending key (x ∷ xs)
      → last_key (x ∷ take n xs) ≡ some last
      → above last (x ∷ xs) ≡ drop n xs
  unfolding select last_key
  above-last_key zero last x xs (b, a) e =
      let q : key x ≡ last = ground (arith, e) in
      let rest = above-All last xs (All-imp (λ z k. omega (arith, q, k)) xs b) in
      ground (arith, q, rest)
  above-last_key (suc n) last x [] a e = ground (arith, e)
  above-last_key (suc n) last x (y ∷ xs) ((b, bs), a) e =
      let le = first-le-last n last y xs a e in
      let rest = above-last_key n last y xs a e in ground (arith, b, le, rest)

  -- The first element above a number is above it.
  pub above-first : (a : ℕ) (x : A) (xs ys : List A) → above a xs ≡ x ∷ ys → a < key x
  unfolding select
  above-first a x [] ys e = cc
  above-first a x (y ∷ xs) ys e = elim (Bool-cases (ltb a (key y))) [
    | inl l ↦
        let same : y ∷ above a xs ≡ x ∷ ys = ground (arith, l, e) in
        let q : y ≡ x = cc in subst (λ z. a < key z) q (ground (arith, l))
    | inr l ↦ above-first a x xs ys (ground (arith, l, e))
  ]

  pub last_key-some : (x : A) (xs : List A) → (n : ℕ) × (last_key (x ∷ xs) ≡ some n)
  unfolding last_key
  last_key-some x [] = (key x, refl)
  last_key-some x (y ∷ xs) = last_key-some y xs
