-- ===== src/Crawler/Ledger.antt =====
-- Which URLs src/url_crawler/crawler.py fetches, by their canonical keys: what frontier.py's `_seen`
-- guarantees.
use url_crawler.Base.{
  ℕ, ◌+◌, ◌≤◌, List, [], ◌∷◌, ◌++◌, true, false, Text, Result, ok, raise, arith, ◌≡◌, refl,
  if◌then◌else◌, text_eq, text_eq_iff, has,
}
use url_crawler.Frontier.{Frontier, add_key}

-- How often a key is in the set: it is a list here.
unfoldable pub occurs : Text → List Text → ℕ
occurs k [] = 0
occurs k (x ∷ xs) = (if text_eq x k then 1 else 0) + occurs k xs

pub occurs-zero_of_not_has : (k : Text) (xs : List Text) → has k xs ≡ false → occurs k xs ≡ 0
unfolding occurs has
occurs-zero_of_not_has k [] h = refl
occurs-zero_of_not_has k (x ∷ xs) h = ground (arith, occurs-zero_of_not_has k xs)

pub occurs_of_has : (k : Text) (xs : List Text) → has k xs ≡ true → 1 ≤ occurs k xs
unfolding occurs has
occurs_of_has k [] h = absurd (ground arith)
occurs_of_has k (x ∷ xs) h = ground (arith, occurs_of_has k xs)

module _ (canonical_key : Text → Result Text) (k : Text) where
  -- 1 for a URL with the key `k`.
  unfoldable pub hit : Text → ℕ
  hit url = elim (canonical_key url) [ ok key ↦ if text_eq key k then 1 else 0 | raise e ↦ 0 ]

  -- The number of URLs with the key `k`.
  unfoldable pub hits : List Text → ℕ
  unfolding hit
  hits [] = 0
  hits (url ∷ urls) = hit url + hits urls

  pub hits-append : (xs ys : List Text) → hits (xs ++ ys) ≡ hits xs + hits ys
  unfolding hits
  hits-append [] ys = omega arith
  hits-append (x ∷ xs) ys = omega (arith, hits-append xs ys)

  -- `n` URLs with the key have left the queue: no key is seen twice, and each that is seen left the
  -- queue or is in it.
  pub record Exact (n : ℕ) (f : Frontier) : Type 0 where
    pub once : occurs k f.seen ≤ 1
    pub all : n + hits f.queue ≡ occurs k f.seen

  pub record AtMost (n : ℕ) (f : Frontier) : Type 0 where
    pub once : occurs k f.seen ≤ 1
    pub within : n + hits f.queue ≤ occurs k f.seen

  module _ (key url : Text) (f : Frontier) (keyed : canonical_key url ≡ ok key) where
    pub add_key-Exact : (n : ℕ) → Exact n f → Exact n (add_key key url f).1
    unfolding add_key hits hit occurs
    add_key-Exact n h =
        ground (
          arith,
          hits-append f.queue (url ∷ []),
          occurs-zero_of_not_has k f.seen,
          text_eq_iff key k,
        )

    pub add_key-AtMost : (n : ℕ) → AtMost n f → AtMost n (add_key key url f).1
    unfolding add_key hits hit occurs
    add_key-AtMost n h =
        ground (
          arith,
          hits-append f.queue (url ∷ []),
          occurs-zero_of_not_has k f.seen,
          text_eq_iff key k,
        )
