-- ===== src/Repository/Ordered.antt =====
-- The lemmas on `order_by` of Repository/Rows.antt, by a key.
use url_crawler.Base.{
  ℕ, ◌<◌, ◌≢◌, List, [], ◌∷◌, Bool, true, false, ◌≡◌, refl, sym, arith, leb, select, All, All-imp,
  Bool-cases, inl, inr, ◌∙◌,
}
use url_crawler.Repository.Rows.{insert_by, order_by}

module _ {ℓ} {A : Type ℓ} (key : A → ℕ) where
  abbrev pub by_key : A → A → Bool
  by_key x y = leb (key x) (key y)

  -- The keys are all different, and the keys ascend.
  abbrev pub Keyed : List A → Type 0
  Keyed [] = Unit {0}
  Keyed (x ∷ xs) = All (λ y. key x ≢ key y) xs × Keyed xs

  abbrev pub Ascending : List A → Type 0
  Ascending [] = Unit {0}
  Ascending (x ∷ xs) = All (λ y. key x < key y) xs × Ascending xs

  insert_by-All {κ} :
      (P : A → Type κ) (x : A) (xs : List A) → P x → All P xs → All P (insert_by by_key x xs)
  unfolding insert_by
  insert_by-All P x [] h hs = (h, tt)
  insert_by-All P x (y ∷ ys) h (k, ks) = elim (Bool-cases (leb (key x) (key y))) [
    | inl e ↦ rw e (h, (k, ks))
    | inr e ↦ rw e (k, insert_by-All P x ys h ks)
  ]

  order_by-All {κ} : (P : A → Type κ) (xs : List A) → All P xs → All P (order_by by_key xs)
  unfolding order_by
  order_by-All P [] h = tt
  order_by-All P (x ∷ xs) (h, hs) = insert_by-All P x (order_by by_key xs) h (order_by-All P xs hs)

  insert_by-Ascending :
      (x : A) (xs : List A)
      → All (λ y. key x ≢ key y) xs
      → Ascending xs
      → Ascending (insert_by by_key x xs)
  unfolding insert_by
  insert_by-Ascending x [] h a = (tt, tt)
  insert_by-Ascending x (y ∷ ys) (n, ns) (b, a) = elim (Bool-cases (leb (key x) (key y))) [
    | inl e ↦
        let lt : key x < key y = ground (arith, e, n) in
        rw e ((lt, All-imp (λ z k. omega (arith, lt, k)) ys b), (b, a))
    | inr e ↦ rw e (
      insert_by-All (λ z. key y < key z) x ys (ground (arith, e)) b,
      insert_by-Ascending x ys ns a,
    )
  ]

  pub order_by-Ascending : (xs : List A) → Keyed xs → Ascending (order_by by_key xs)
  unfolding order_by
  order_by-Ascending [] h = tt
  order_by-Ascending (x ∷ xs) (n, h) =
      insert_by-Ascending x (order_by by_key xs) (order_by-All (λ y. key x ≢ key y) xs n)
        (order_by-Ascending xs h)

  insert_by-front :
      (x : A) (xs : List A) → All (λ y. key x < key y) xs → insert_by by_key x xs ≡ x ∷ xs
  unfolding insert_by
  insert_by-front x [] h = refl
  insert_by-front x (y ∷ ys) (h, hs) = ground (arith, h)

  pub select-Every {κ} :
      (P : A → Type κ) (p : A → Bool) (xs : List A) → All P xs → All P (select p xs)
  unfolding select
  select-Every P p [] h = tt
  select-Every P p (x ∷ xs) (h, hs) = elim (Bool-cases (p x)) [
    | inl e ↦ rw e (h, select-Every P p xs hs)
    | inr e ↦ rw e (select-Every P p xs hs)
  ]

  pub select-Keyed : (p : A → Bool) (xs : List A) → Keyed xs → Keyed (select p xs)
  unfolding select
  select-Keyed p [] h = tt
  select-Keyed p (x ∷ xs) (h, hs) = elim (Bool-cases (p x)) [
    | inl e ↦ rw e (select-Every (λ y. key x ≢ key y) p xs h, select-Keyed p xs hs)
    | inr e ↦ rw e (select-Keyed p xs hs)
  ]

  select-insert_by :
      (p : A → Bool) (x : A) (xs : List A)
      → p x ≡ true
      → Ascending xs
      → All (λ y. key x ≢ key y) xs
      → select p (insert_by by_key x xs) ≡ insert_by by_key x (select p xs)
  unfolding select insert_by
  select-insert_by p x [] e a n = rw e refl
  select-insert_by p x (y ∷ ys) e (b, a) (n, ns) = elim (Bool-cases (leb (key x) (key y))) [
    | inl l ↦
        let lt : key x < key y = ground (arith, l, n) in
        let ahead : All (λ z. key x < key z) (y ∷ ys) =
          (lt, All-imp (λ z k. omega (arith, lt, k)) ys b) in
        let front =
          insert_by-front x (select p (y ∷ ys))
            (select-Every (λ z. key x < key z) p (y ∷ ys) ahead) in
        rw (l, e) (sym front)
    | inr l ↦ ground (arith, l, select-insert_by p x ys e a ns)
  ]

  select-insert_by-drops :
      (p : A → Bool) (x : A) (xs : List A)
      → p x ≡ false
      → select p (insert_by by_key x xs) ≡ select p xs
  unfolding select insert_by
  select-insert_by-drops p x [] e = rw e refl
  select-insert_by-drops p x (y ∷ ys) e = ground (arith, e, select-insert_by-drops p x ys)

  -- Selecting first and ordering first come to the same.
  pub select-order_by :
      (p : A → Bool) (xs : List A)
      → Keyed xs
      → select p (order_by by_key xs) ≡ order_by by_key (select p xs)
  unfolding select order_by
  select-order_by p [] h = refl
  select-order_by p (x ∷ xs) (n, h) =
      let ordered = order_by by_key xs in
      elim (Bool-cases (p x)) [
        | inl e ↦
            select-insert_by p x ordered e (order_by-Ascending xs h)
              (order_by-All (λ y. key x ≢ key y) xs n)
            ∙ rw (e, select-order_by p xs h) refl
        | inr e ↦ select-insert_by-drops p x ordered e ∙ rw (e, select-order_by p xs h) refl
      ]
