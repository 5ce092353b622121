-- ===== src/Crawler/Preparation.antt =====
-- What the start of a crawl keeps, in src/url_crawler/crawler.py: a property that holds once the seed
-- is fetched, and that each redirect hop and the anchoring keep, holds of the crawl
-- that the workers find.
use url_crawler.Base.{ℕ, zero, suc, none, some, Text, Result-cases, Option-cases, inl, inr}
use url_crawler.Models.{FetchResult, Fetched, fetched, failed}
use url_crawler.Crawler.Deps.{Deps}
use url_crawler.Crawler.State.{
  Crawl, After, After-intro, continue-After, continue-keeps, new, continue, lift,
}
use url_crawler.Crawler.Page.{redirect_target, handle}
use url_crawler.Crawler.Seed.{
  enter, hop, walk, follow_seed_redirects, fetched_or_raise, admit, claim_all, settle,
  prepare_start, prepare,
}

module _ {ℓ} (d : Deps) (P : Crawl → Type ℓ)
    (hopped : (url : Text) (r : FetchResult) (target : Text) (c : Crawl)
      → P c
      → After P (hop d url r target c)) where
  pub walk-keeps : (n : ℕ) (url : Text) (r : Fetched) (c : Crawl) → P c → After P (walk d n url r c)
  unfolding walk
  walk-keeps zero url (failed error) c h = h
  walk-keeps (suc n) url (failed error) c h = h
  walk-keeps zero url (fetched r) c h = elim (Result-cases (redirect_target d url r)) [
    | inl (none, e) ↦ rw (e, walk) h
    | inl (some target, e) ↦ rw (e, walk) tt
    | inr (x, e) ↦ rw (e, walk) tt
  ]
  walk-keeps (suc n) url (fetched r) c h = elim (Result-cases (redirect_target d url r)) [
    | inl (none, e) ↦ rw (e, walk) h
    | inl (some target, e) ↦
        rw (e, walk)
          (continue-After P P (hop d url r target c) (walk d n target) (hopped url r target c h)
            (walk-keeps n target))
    | inr (x, e) ↦ rw (e, walk) tt
  ]

  module _ {κ μ} (R : Crawl → Type κ) (S : Crawl → Type μ)
      (entered : (seed : Text) → After P (enter d seed new))
      (admitted : (start url : Text) (c : Crawl) → P c → After P (admit d start url c))
      (handled : (url : Text) (r : FetchResult) (c : Crawl)
        → P c
        → After R (handle d url (fetched r) c))
      (claimed : (c : Crawl) → R c → S (claim_all c)) where
    settle-keeps :
        (start : Text) (x : Text × FetchResult) (c : Crawl) → P c → After S (settle d start x c)
    unfolding settle
    settle-keeps start (url, r) c h =
        continue-After R S (continue (admit d start url c) (λ _. handle d url (fetched r))) _
          (continue-After P R (admit d start url c) (λ _. handle d url (fetched r))
            (admitted start url c h) (λ _. handled url r))
          (λ _. claimed)

    prepare_start-keeps : (start : Text) → After S (prepare_start d start new)
    unfolding prepare_start follow_seed_redirects
    prepare_start-keeps start =
        continue-After P S
          (continue (follow_seed_redirects d start new) (λ l. lift (fetched_or_raise l)))
          (settle d start)
          (continue-After P P (follow_seed_redirects d start new) (λ l. lift (fetched_or_raise l))
            (continue-After P P (enter d start new) (walk d d.config.max_seed_redirects start)
              (entered start) (walk-keeps d.config.max_seed_redirects start))
            (λ l c h. After-intro P (lift (fetched_or_raise l) c) h))
          (settle-keeps start)

    pub prepare-keeps : (seed : Text) → After S (prepare d seed new)
    unfolding prepare
    prepare-keeps seed = elim (Option-cases (d.urls.normalize seed)) [
      | inl e ↦ rw (e, prepare) tt
      | inr (start, e) ↦ rw (e, prepare) (prepare_start-keeps start)
    ]

-- What each part of the start keeps, also where it raises, holds of the object after the start, also
-- where that raised.
module _ {ℓ} (d : Deps) (P : Crawl → Type ℓ)
    (hopped : (url : Text) (r : FetchResult) (target : Text) (c : Crawl)
      → P c
      → P (hop d url r target c).1) where
  walk-always : (n : ℕ) (url : Text) (r : Fetched) (c : Crawl) → P c → P (walk d n url r c).1
  unfolding walk
  walk-always zero url (failed error) c h = h
  walk-always (suc n) url (failed error) c h = h
  walk-always zero url (fetched r) c h = elim (Result-cases (redirect_target d url r)) [
    | inl (none, e) ↦ rw (e, walk) h
    | inl (some target, e) ↦ rw (e, walk) h
    | inr (x, e) ↦ rw (e, walk) h
  ]
  walk-always (suc n) url (fetched r) c h = elim (Result-cases (redirect_target d url r)) [
    | inl (none, e) ↦ rw (e, walk) h
    | inl (some target, e) ↦
        rw (e, walk)
          (continue-keeps P (hop d url r target c) (walk d n target) (hopped url r target c h)
            (walk-always n target))
    | inr (x, e) ↦ rw (e, walk) h
  ]

  module _ (entered : (seed : Text) → P (enter d seed new).1)
      (admitted : (start url : Text) (c : Crawl) → P c → P (admit d start url c).1)
      (handled : (url : Text) (r : FetchResult) (c : Crawl)
        → P c
        → P (handle d url (fetched r) c).1)
      (claimed : (c : Crawl) → P c → P (claim_all c)) where
    settle-always :
        (start : Text) (x : Text × FetchResult) (c : Crawl) → P c → P (settle d start x c).1
    unfolding settle
    settle-always start (url, r) c h =
        continue-keeps P (continue (admit d start url c) (λ _. handle d url (fetched r))) _
          (continue-keeps P (admit d start url c) (λ _. handle d url (fetched r))
            (admitted start url c h) (λ _. handled url r))
          (λ _. claimed)

    prepare_start-always : (start : Text) → P (prepare_start d start new).1
    unfolding prepare_start follow_seed_redirects
    prepare_start-always start =
        continue-keeps P
          (continue (follow_seed_redirects d start new) (λ l. lift (fetched_or_raise l)))
          (settle d start)
          (continue-keeps P (follow_seed_redirects d start new) (λ l. lift (fetched_or_raise l))
            (continue-keeps P (enter d start new) (walk d d.config.max_seed_redirects start)
              (entered start) (walk-always d.config.max_seed_redirects start))
            (λ l c h. h))
          (settle-always start)

    pub prepare-always : P new → (seed : Text) → P (prepare d seed new).1
    unfolding prepare
    prepare-always fresh seed = elim (Option-cases (d.urls.normalize seed)) [
      | inl e ↦ rw (e, prepare) fresh
      | inr (start, e) ↦ rw (e, prepare) (prepare_start-always start)
    ]
