-- ===== src/Robots/Loading.antt =====
-- src/url_crawler/robots.py: `load_robots` and `_fetch_robots`. `client` answers each GET, `decode` is
-- `bytes.decode("utf-8-sig")`, `guard` the check of each URL, and `other_http` says whether an exception
-- of a class that fetcher.py does not name is an `httpx.HTTPError`.
use url_crawler.Base.{
  ℕ, zero, suc, ◌+◌, List, [], ◌∷◌, ◌++◌, Option, none, some, Bool, true, false, Text, codes, Exn,
  Result, ok, raise, unexpected, ◌>>=◌, ◌==◌, leb, if◌then◌else◌,
}
use url_crawler.Retry.{HttpxClass, invalid_url_error, other}
use url_crawler.Fetcher.{Response, Answer, responded, refused, is_redirect_status}
use url_crawler.Fetcher.Bodies.{Failure, Zlib, Body, read, broken, read_bounded}
use url_crawler.Urls.Parse.{Unicode, urlsplit}
use url_crawler.Urls.Join.{urljoin}

-- What `_fetch_robots` gives: a text, `None`, `_UnreachableError`, or another exception.
pub data Found : Type 0 where
  file : Text → Found
  no_file : Found
  unreachable : Text → Found
  escaped : Exn → Found

-- `DenyAll()`, `AllowAll()` and `RobotsTxt(body, user_agent)`.
pub data Policy : Type 0 where
  deny_all allow_all : Policy
  robots_txt : Text → Policy

abbrev pub max_robots_redirects : ℕ
max_robots_redirects = 5

abbrev pub max_robots_bytes : ℕ
max_robots_bytes = 512000

-- What the loading is given.
pub record Net (S : Type 0) : Type 0 where
  pub unicode : Unicode
  pub zlib : Zlib S
  pub decode : Text → Option Text
  pub other_http : Bool
  pub client : Text → Answer
  pub guard : Text → Option Text

module _ {S : Type 0} (net : Net S) where
  abbrev pub is_http_error : HttpxClass → Bool
  is_http_error invalid_url_error = false
  is_http_error other = net.other_http
  is_http_error _ = true

  -- `except httpx.HTTPError`.
  abbrev pub failed_by : Failure → Found
  failed_by e =
      if is_http_error e.class then unreachable e.message else escaped (unexpected e.message)

  abbrev pub decoded_as : Option Text → Found
  decoded_as none = unreachable (codes "not valid utf-8")
  decoded_as (some text) = file text

  abbrev pub body_of : Body → Found
  body_of (read body truncated) = decoded_as (net.decode body)
  body_of (broken e) = failed_by e

  abbrev pub encoding_of : Option Text → Text
  encoding_of none = []
  encoding_of (some value) = value

  -- The messages leave URLs and numbers out.
  -- The URLs that are requested, and what is found: `k` goes on at another URL.
  abbrev pub joined_with : Result Text → (Text → List Text × Found) → List Text × Found
  joined_with (raise e) k = ([], escaped e)
  joined_with (ok url) k = k url

  abbrev pub redirected : Text → Option Text → (Text → List Text × Found) → List Text × Found
  redirected url none k = ([], unreachable (codes "redirect without a location"))
  redirected url (some []) k = ([], unreachable (codes "redirect without a location"))
  redirected url (some (c ∷ s)) k = joined_with (urljoin net.unicode url (c ∷ s)) k

  -- A response that is no redirect.
  unfoldable pub settled_by : Response → Found
  unfolding read_bounded
  settled_by r =
      if leb 500 r.status
      then unreachable (codes "status")
      else if r.status == 200
      then body_of
          (read_bounded net.zlib max_robots_bytes (encoding_of r.content_encoding) r.stream)
      else no_file

  unfoldable pub after_response : Text → Answer → (Text → List Text × Found) → List Text × Found
  unfolding settled_by urljoin is_redirect_status
  after_response url (refused e) k = ([], failed_by e)
  after_response url (responded r) k =
      if is_redirect_status r.status then redirected url r.location k else ([], settled_by r)

  abbrev pub requested : Text → List Text × Found → List Text × Found
  requested url (urls, found) = (url ∷ urls, found)

  abbrev pub unless_blocked : Text → Option Text → (Text → List Text × Found) → List Text × Found
  unfolding after_response
  unless_blocked url (some reason) k = ([], unreachable (codes "blocked: " ++ reason))
  unless_blocked url none k = requested url (after_response url (net.client url) k)

  -- The loop, with the rounds that are left.
  unfoldable pub fetch_rounds : ℕ → Text → List Text × Found
  unfolding after_response
  fetch_rounds zero url = ([], unreachable (codes "more than 5 redirects"))
  fetch_rounds (suc n) url = unless_blocked url (net.guard url) (λ next. fetch_rounds n next)

  unfoldable pub fetch_robots : Text → List Text × Found
  unfolding fetch_rounds
  fetch_robots robots_url = fetch_rounds (max_robots_redirects + 1) robots_url

  abbrev pub policy_of : Found → Result Policy
  policy_of (file body) = ok (robots_txt body)
  policy_of no_file = ok allow_all
  policy_of (unreachable reason) = ok deny_all
  policy_of (escaped e) = raise e

  abbrev pub load_from : Result Text → List Text × Result Policy
  load_from (raise e) = ([], raise e)
  load_from (ok robots_url) = let (urls, found) = fetch_robots robots_url in (urls, policy_of found)

  abbrev pub robots_url_of : Text → Result Text
  robots_url_of site_url = urlsplit net.unicode site_url >>= λ split.
      ok (split.scheme ++ codes "://" ++ split.netloc ++ codes "/robots.txt")

  unfoldable pub load_robots : Text → List Text × Result Policy
  unfolding fetch_robots urlsplit
  load_robots site_url = load_from (robots_url_of site_url)
