-- ===== src/Crawler/Chain.antt =====
-- How many fetches the seed's chain makes in src/url_crawler/crawler.py.
use url_crawler.Base.{
  ℕ, zero, suc, ◌+◌, ◌≤◌, none, some, Text, arith, ◌≡◌, length, Result-cases, Option-cases, inl,
  inr,
}
use url_crawler.Models.{FetchResult, Fetched, fetched, failed}
use url_crawler.Crawler.Deps.{Deps}
use url_crawler.Crawler.State.{Crawl, After, After-intro, continue, continue-After, new, lift}
use url_crawler.Crawler.Page.{handle, redirect_target}
use url_crawler.Crawler.Quiet.{handle-Quiet}
use url_crawler.Crawler.Seed.{
  enter, hop, walk, admit, follow_seed_redirects, settle, prepare_start, fetched_or_raise, prepare,
}

abbrev pub Chain : ℕ → Crawl → Type 0
Chain n c = length c.fetches ≤ n

module _ (d : Deps) where
  hop-Chain :
      (n : ℕ) (url : Text) (r : FetchResult) (target : Text) (c : Crawl)
      → Chain n c
      → After (Chain (suc n)) (hop d url r target c)
  unfolding hop
  hop-Chain n url r target c h = ground arith

  walk-Chain :
      (n k : ℕ) (url : Text) (r : Fetched) (c : Crawl)
      → Chain k c
      → After (Chain (n + k)) (walk d n url r c)
  unfolding walk
  walk-Chain zero k url (failed error) c h = omega arith
  walk-Chain (suc n) k url (failed error) c h = omega arith
  walk-Chain zero k url (fetched r) c h = elim (Result-cases (redirect_target d url r)) [
    | inl (none, e) ↦ rw (e, walk) (omega arith)
    | inl (some target, e) ↦ rw (e, walk) tt
    | inr (x, e) ↦ rw (e, walk) tt
  ]
  walk-Chain (suc n) k url (fetched r) c h = elim (Result-cases (redirect_target d url r)) [
    | inl (none, e) ↦ rw (e, walk) (omega arith)
    | inl (some target, e) ↦
        rw (e, walk)
          (continue-After (Chain (suc k)) (Chain (suc n + k)) (hop d url r target c)
            (walk d n target) (hop-Chain k url r target c h)
            (λ r' c' h'.
              let e' : n + suc k ≡ suc n + k = omega arith in
              rw (← e') (walk-Chain n (suc k) target r' c' h')))
    | inr (x, e) ↦ rw (e, walk) tt
  ]

  enter-Chain : (seed : Text) → After (Chain 1) (enter d seed new)
  unfolding enter
  enter-Chain seed = ground arith

  admit-Chain :
      (n : ℕ) (begun url : Text) (c : Crawl) → Chain n c → After (Chain n) (admit d begun url c)
  unfolding admit
  admit-Chain n begun url c h = ground arith

  handle-Chain :
      (n : ℕ) (url : Text) (r : FetchResult) (c : Crawl)
      → Chain n c
      → After (Chain n) (handle d url (fetched r) c)
  handle-Chain n url r c h =
      After-intro (Chain n) (handle d url (fetched r) c)
        (ground (arith, handle-Quiet d url (fetched r) c))

  settle-Chain :
      (n : ℕ) (begun : Text) (x : Text × FetchResult) (c : Crawl)
      → Chain n c
      → After (Chain n) (settle d begun x c)
  unfolding settle
  settle-Chain n begun (url, r) c h =
      continue-After (Chain n) (Chain n)
        (continue (admit d begun url c) (λ _. handle d url (fetched r))) _
        (continue-After (Chain n) (Chain n) (admit d begun url c) (λ _. handle d url (fetched r))
          (admit-Chain n begun url c h) (λ _. handle-Chain n url r))
        (λ _ c' h'. h')

  follow-Chain :
      (begun : Text)
      → After (Chain (d.config.max_seed_redirects + 1)) (follow_seed_redirects d begun new)
  unfolding follow_seed_redirects
  follow-Chain begun =
      continue-After (Chain 1) (Chain (d.config.max_seed_redirects + 1)) (enter d begun new)
        (walk d d.config.max_seed_redirects begun) (enter-Chain begun)
        (walk-Chain d.config.max_seed_redirects 1 begun)

  prepare_start-Chain :
      (begun : Text) → After (Chain (d.config.max_seed_redirects + 1)) (prepare_start d begun new)
  unfolding prepare_start
  prepare_start-Chain begun =
      continue-After (Chain n) (Chain n)
        (continue (follow_seed_redirects d begun new) (λ l. lift (fetched_or_raise l)))
        (settle d begun)
        (continue-After (Chain n) (Chain n) (follow_seed_redirects d begun new)
          (λ l. lift (fetched_or_raise l)) (follow-Chain begun)
          (λ l c h. After-intro (Chain n) (lift (fetched_or_raise l) c) h))
        (settle-Chain n begun)
    where
      n : ℕ
      n = d.config.max_seed_redirects + 1

  -- The chain makes one fetch for the seed and at most one for each redirect that it may follow.
  pub prepare-Chain :
      (seed : Text) → After (Chain (d.config.max_seed_redirects + 1)) (prepare d seed new)
  unfolding prepare
  prepare-Chain seed = elim (Option-cases (d.urls.normalize seed)) [
    | inl e ↦ rw (e, prepare) tt
    | inr (begun, e) ↦ rw (e, prepare) (prepare_start-Chain begun)
  ]
