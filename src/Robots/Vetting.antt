-- ===== src/Robots/Vetting.antt =====
-- That src/url_crawler/robots.py fetches only what its guard lets through, and fails closed.
use url_crawler.Base.{
  ℕ, zero, suc, ◌+◌, ◌≤◌, ◌<◌, ◌≢◌, List, [], ◌∷◌, Option, none, some, Bool, false, ◌≡◌, refl,
  arith, Text, Result, ok, raise, ◌==◌, leb, length, All, Bool-cases, Option-cases, Result-cases,
  inl, inr,
}
use url_crawler.Fetcher.{Response, Answer, responded, refused, is_redirect_status}
use url_crawler.Fetcher.Bodies.{Failure, Body, read, broken, read_bounded}
use url_crawler.Urls.Join.{urljoin}
use url_crawler.Robots.Loading.{
  Net, is_http_error, Found, file, no_file, unreachable, escaped, Policy, deny_all, allow_all,
  robots_txt, max_robots_redirects, max_robots_bytes, encoding_of, failed_by, body_of, redirected,
  settled_by, after_response, fetch_rounds, fetch_robots, policy_of, robots_url_of, load_robots,
}

module _ {S : Type 0} (net : Net S) where
  abbrev pub Vetted : List Text → Type 0
  Vetted = All (λ url. net.guard url ≡ none)

  -- The response that a file, or the lack of one, rests on: final, from a URL that was let through.
  abbrev pub FinalAnswer : (Response → Type 0) → Type 0
  FinalAnswer P =
      (url : Text) × (net.guard url ≡ none)
      × (r : Response) × (net.client url ≡ responded r)
      × (is_redirect_status r.status ≡ false)
      × (r.status < 500)
      × P r

  -- The response is a 200 whose whole body was read, cut at the limit, and decodes to the text.
  abbrev pub Carries : Text → Response → Type 0
  Carries text r =
      (r.status ≡ 200)
      × (body : Text) × (cut : Bool) × (read_bounded net.zlib max_robots_bytes
            (encoding_of net r.content_encoding) r.stream
          ≡ read body cut)
      × (net.decode body ≡ some text)

  abbrev pub Grounded : Found → Type 0
  Grounded (file text) = FinalAnswer (Carries text)
  Grounded no_file = FinalAnswer (λ r. r.status ≢ 200)
  Grounded (unreachable reason) = Unit {0}
  Grounded (escaped e) = Unit {0}

  abbrev Fair : ℕ → List Text × Found → Type 0
  Fair n (urls, found) = Vetted urls × (length urls ≤ n) × Grounded found

  failed_by-Grounded : (e : Failure) → Grounded (failed_by net e)
  failed_by-Grounded e = elim (Bool-cases (is_http_error net e.class)) [
    | inl h ↦ rw h tt
    | inr h ↦ rw h tt
  ]

  body_of-Grounded :
      (b : Body)
      → ((text : Text) (body : Text) (cut : Bool)
          → b ≡ read body cut
          → net.decode body ≡ some text
          → FinalAnswer (Carries text))
      → Grounded (body_of net b)
  body_of-Grounded (broken e) f = failed_by-Grounded e
  body_of-Grounded (read body cut) f = elim (Option-cases (net.decode body)) [
    | inl e ↦ rw e tt
    | inr (text, e) ↦ rw e (f text body cut refl e)
  ]

  settled_by-Grounded :
      (url : Text) (r : Response)
      → net.guard url ≡ none
      → net.client url ≡ responded r
      → is_redirect_status r.status ≡ false
      → Grounded (settled_by net r)
  unfolding settled_by
  settled_by-Grounded url r g c s = elim (Bool-cases (leb 500 r.status)) [
    | inl h ↦ rw (settled_by, h) tt
    | inr h ↦ elim (Bool-cases (r.status == 200)) [
      | inl k ↦
          rw (settled_by, h, k)
            (body_of-Grounded _ (λ text body cut b d.
              (url, g, r, c, s, ground (arith, h), (ground (arith, k), body, cut, b, d))))
      | inr k ↦ rw (settled_by, h, k) (url, g, r, c, s, ground (arith, h), ground (arith, k))
    ]
  ]

  redirected-Fair :
      (n : ℕ) (url : Text) (location : Option Text) (k : Text → List Text × Found)
      → ((next : Text) → Fair n (k next))
      → Fair n (redirected net url location k)
  redirected-Fair n url none k f = (tt, omega arith, tt)
  redirected-Fair n url (some []) k f = (tt, omega arith, tt)
  redirected-Fair n url (some (c ∷ s)) k f = elim (Result-cases (urljoin net.unicode url (c ∷ s))) [
    | inl (next, e) ↦ rw e (f next)
    | inr (x, e) ↦ rw e (tt, omega arith, tt)
  ]

  after_response-Fair :
      (n : ℕ) (url : Text) (a : Answer) (k : Text → List Text × Found)
      → net.guard url ≡ none
      → net.client url ≡ a
      → ((next : Text) → Fair n (k next))
      → Fair n (after_response net url a k)
  unfolding after_response
  after_response-Fair n url (refused e) k g c f = (tt, omega arith, failed_by-Grounded e)
  after_response-Fair n url (responded r) k g c f =
      elim (Bool-cases (is_redirect_status r.status)) [
        | inl s ↦ rw (after_response, s) (redirected-Fair n url r.location k f)
        | inr s ↦ rw (after_response, s) (tt, omega arith, settled_by-Grounded url r g c s)
      ]

  fetch_rounds-Fair : (n : ℕ) (url : Text) → Fair n (fetch_rounds net n url)
  unfolding fetch_rounds
  fetch_rounds-Fair zero url = (tt, omega arith, tt)
  fetch_rounds-Fair (suc n) url = elim (Option-cases (net.guard url)) [
    | inr (reason, g) ↦ rw (fetch_rounds, g) (tt, omega arith, tt)
    | inl g ↦
        let (vetted, short, grounded) =
          after_response-Fair n url (net.client url) (λ next. fetch_rounds net n next) g refl
            (fetch_rounds-Fair n) in
        rw (fetch_rounds, g) ((g, vetted), omega (arith, short), grounded)
  ]

  -- A policy other than `DenyAll` rests on a final answer below 500: rules are the text that the body of
  -- a 200 was read and decoded to, and the lack of rules needs another status.
  abbrev pub Justified : Result Policy → Type 0
  Justified (ok (robots_txt text)) = FinalAnswer (Carries text)
  Justified (ok allow_all) = FinalAnswer (λ r. r.status ≢ 200)
  Justified (ok deny_all) = Unit {0}
  Justified (raise e) = Unit {0}

  policy_of-Justified : (f : Found) → Grounded f → Justified (policy_of net f)
  policy_of-Justified (file text) g = g
  policy_of-Justified no_file g = g
  policy_of-Justified (unreachable reason) g = tt
  policy_of-Justified (escaped e) g = tt

  abbrev pub Loaded : List Text × Result Policy → Type 0
  Loaded (urls, policy) = Vetted urls × (length urls ≤ max_robots_redirects + 1) × Justified policy

  -- Whatever the network answers, each URL that is requested for the robots policy has been let
  -- through by the guard, there are `max_robots_redirects + 1` at most, and a policy other than DenyAll
  -- rests on a final answer below 500 from a URL let through: AllowAll on a status other than 200, and RobotsTxt
  -- on a 200, with the very text that its body was read and decoded to, up to the limit on its bytes.
  -- So a body that breaks or does not decode allows nothing.
  pub load_robots-Loaded : (site_url : Text) → Loaded (load_robots net site_url)
  unfolding load_robots fetch_robots
  load_robots-Loaded site_url = elim (Result-cases (robots_url_of net site_url)) [
    | inr (x, e) ↦ rw (load_robots, e) (tt, omega arith, tt)
    | inl (robots_url, e) ↦
        let (vetted, short, grounded) = fetch_rounds-Fair (max_robots_redirects + 1) robots_url in
        rw (load_robots, e) (vetted, short, policy_of-Justified _ grounded)
  ]
