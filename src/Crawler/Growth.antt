-- ===== src/Crawler/Growth.antt =====
-- How the frontier grows in src/url_crawler/crawler.py: only by `_enqueue`, and only by links that the
-- scope and the policy allow.
use url_crawler.Base.{
  ℕ, List, [], ◌∷◌, Option, none, some, Bool, true, false, Text, Result, ok, raise, broken_pipe,
  arith, ◌≡◌, sym, subst, length, if◌then◌else◌, Result-cases, Option-cases, inl, inr, ◌∙◌,
}
use url_crawler.Models.{internal, FetchError, FetchResult, Fetched, fetched, failed, PageResult}
use url_crawler.Frontier.{Frontier, add_key}
use url_crawler.Crawler.Deps.{Deps, HostScope, RobotsPolicy}
use url_crawler.Crawler.State.{Crawl, continue-keeps, count_ok, count_failed, count_retries}
use url_crawler.Crawler.Page.{
  report, allowed, follow, follow_if, enqueue_link, enqueue_each, enqueue_in, enqueue, is_redirect,
  check_fuse, redirect_target, redirect_links, extracted_links, page_links, deliver, begin_page,
  handle,
}
use url_crawler.Crawler.Workers.{recover, after_fetch}

-- The link passes the scope, where there is one, and the policy.
abbrev pub Admitted : Deps → Option HostScope → RobotsPolicy → Text → Type 0
Admitted d here robots url =
    (scope : HostScope) × (here ≡ some scope)
    × (d.urls.scope_allows scope url ≡ ok true)
    × (robots.allows url ≡ ok true)

-- A link that passes is in the scope and granted by the policy.
allowed-passes :
    (d : Deps) (scope : HostScope) (robots : RobotsPolicy) (link : Text)
    → allowed d scope robots link ≡ ok true
    → (d.urls.scope_allows scope link ≡ ok true) × (robots.allows link ≡ ok true)
unfolding allowed
allowed-passes d scope robots link a = elim (Result-cases (d.urls.scope_allows scope link)) [
  | inl (true, e) ↦ (e, rw (allowed, e) at a)
  | inl (false, e) ↦ ground (arith, a, e)
  | inr (x, e) ↦ ground (arith, a, e)
]

check_fuse_frame :
    (n : ℕ) (error : FetchError) (c : Crawl)
    → ((check_fuse n error c).scope ≡ c.scope)
      × ((check_fuse n error c).robots ≡ c.robots)
      × ((check_fuse n error c).frontier ≡ c.frontier)
unfolding check_fuse
check_fuse_frame n error c = ground arith

-- `Q` survives every addition of an admitted link.
module _ {ℓ} (d : Deps) (here : Option HostScope) (robots : RobotsPolicy) (Q : Frontier → Type ℓ)
    (grow : (key url : Text) (f : Frontier)
      → Admitted d here robots url
      → d.urls.canonical_key url ≡ ok key
      → Q f
      → Q (add_key key url f).1) where
  abbrev pub Holds : Crawl → Type ℓ
  Holds c = (c.scope ≡ here) × (c.robots ≡ robots) × Q c.frontier

  follow_if-Holds :
      (scope : HostScope) (b : Bool) (link : Text) (c : Crawl)
      → here ≡ some scope
      → allowed d scope robots link ≡ ok b
      → Holds c
      → Holds (follow_if d b link c).1
  unfolding follow_if
  follow_if-Holds scope true link c s a h = elim (Result-cases (d.urls.canonical_key link)) [
    | inl (key, e) ↦
        let both = allowed-passes d scope robots link a in
        rw (e, follow_if, follow)
          (h.0, h.1, grow key link c.frontier (scope, s, both.0, both.1) e h.2)
    | inr (x, e) ↦ rw (e, follow_if, follow) h
  ]
  follow_if-Holds scope false link c s a h = h

  enqueue_link-Holds :
      (scope : HostScope) (link : Text) (c : Crawl)
      → here ≡ some scope
      → Holds c
      → Holds (enqueue_link d scope link c).1
  unfolding enqueue_link
  enqueue_link-Holds scope link c s h = elim (Result-cases (allowed d scope c.robots link)) [
    | inl (b, e) ↦ rw (e, enqueue_link) (follow_if-Holds scope b link c s (rw h.1 at e) h)
    | inr (x, e) ↦ rw (e, enqueue_link) h
  ]

  enqueue_each-Holds :
      (scope : HostScope) (links : List Text) (c : Crawl)
      → here ≡ some scope
      → Holds c
      → Holds (enqueue_each d scope links c).1
  unfolding enqueue_each
  enqueue_each-Holds scope [] c s h = h
  enqueue_each-Holds scope (link ∷ links) c s h =
      continue-keeps Holds (enqueue_link d scope link c) (λ _. enqueue_each d scope links)
        (enqueue_link-Holds scope link c s h) (λ _ c' h'. enqueue_each-Holds scope links c' s h')

  enqueue_in-Holds :
      (x : Option HostScope) (links : List Text) (c : Crawl)
      → here ≡ x
      → Holds c
      → Holds (enqueue_in d x links c).1
  unfolding enqueue_in
  enqueue_in-Holds none links c e h = h
  enqueue_in-Holds (some scope) links c e h =
      continue-keeps Holds (enqueue_each d scope links c) _ (enqueue_each-Holds scope links c e h)
        (λ _ c' h'. h')

  enqueue-Holds : (links : List Text) (c : Crawl) → Holds c → Holds (enqueue d links c).1
  unfolding enqueue
  enqueue-Holds links c h = enqueue_in-Holds c.scope links c (sym h.0) h

  report-Holds : (result : PageResult) (c : Crawl) → Holds c → Holds (report d result c).1
  unfolding report
  report-Holds result c h = elim (Option-cases (d.page_raises (length c.reported))) [
    | inl e ↦ rw (e, report) h
    | inr (x, e) ↦ rw (e, report) h
  ]

  redirect_links-Holds :
      (url : Text) (r : FetchResult) (c : Crawl) → Holds c → Holds (redirect_links d url r c).1
  unfolding redirect_links
  redirect_links-Holds url r c h = elim (Result-cases (redirect_target d url r)) [
    | inl (t, e) ↦ rw (e, redirect_links) h
    | inr (x, e) ↦ rw (e, redirect_links) h
  ]

  extracted_links-Holds :
      (url : Text) (r : FetchResult) (c : Crawl) → Holds c → Holds (extracted_links d url r c).1
  unfolding extracted_links
  extracted_links-Holds url r c h = elim (Result-cases (d.extract r.body url)) [
    | inl (t, e) ↦ rw (e, extracted_links) h
    | inr (x, e) ↦ rw (e, extracted_links) h
  ]

  page_links-Holds :
      (url : Text) (r : FetchResult) (c : Crawl) → Holds c → Holds (page_links d url r c).1
  unfolding page_links
  page_links-Holds url r c h = pick (is_redirect r.status)
    where
      pick :
          (b : Bool) → Holds ((if b then redirect_links d url r else extracted_links d url r) c).1
      pick true = redirect_links-Holds url r c h
      pick false = extracted_links-Holds url r c h

  deliver-Holds :
      (url : Text) (r : FetchResult) (links : List Text) (c : Crawl)
      → Holds c
      → Holds (deliver d url r links c).1
  unfolding deliver
  deliver-Holds url r links c h =
      continue-keeps Holds (report d _ (count_ok c)) (λ _. enqueue d links)
        (report-Holds _ (count_ok c) h) (λ _. enqueue-Holds links)

  check_fuse-Holds :
      (n : ℕ) (error : FetchError) (c : Crawl) → Holds c → Holds (check_fuse n error c)
  check_fuse-Holds n error c h =
      let (s, r, f) = check_fuse_frame n error c in (s ∙ h.0, r ∙ h.1, subst Q (sym f) h.2)

  pub handle-Holds : (url : Text) (r : Fetched) (c : Crawl) → Holds c → Holds (handle d url r c).1
  unfolding handle
  handle-Holds url (failed error) c h =
      continue-keeps Holds (report d _ (count_failed error.kind (count_retries error.attempts c))) _
        (report-Holds _ _ h) (λ _ c' h'. check_fuse-Holds d.config.failure_fuse error c' h')
  handle-Holds url (fetched r) c h =
      continue-keeps Holds (page_links d url r (begin_page r c)) (deliver d url r)
        (page_links-Holds url r (begin_page r c) h) (deliver-Holds url r)

  pub recover-Holds :
      (url : Text) (r : Result (Unit {0})) (c : Crawl) → Holds c → Holds (recover d url (r, c)).1
  unfolding recover
  recover-Holds url (ok _) c h = h
  recover-Holds url (raise broken_pipe) c h = h
  recover-Holds url (raise e) c h = report-Holds _ (count_failed internal c) h

  -- So it is for all that follows a fetch.
  pub settled-Holds :
      (url : Text) (r : Result Fetched) (c : Crawl)
      → Holds c
      → Holds (recover d url (after_fetch d url r c)).1
  unfolding after_fetch
  settled-Holds url (raise e) c h = recover-Holds url (raise e) c h
  settled-Holds url (ok r) c h = recover-Holds url _ _ (handle-Holds url r c h)
