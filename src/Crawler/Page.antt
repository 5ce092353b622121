-- ===== src/Crawler/Page.antt =====
-- src/url_crawler/crawler.py, what becomes of one fetched page: `_handle`, `_redirect_target`,
-- `_enqueue`, `_check_fuse` and `_counts_toward_fuse`.
use url_crawler.Base.{
  ℕ, ◌+◌, List, [], ◌∷◌, ◌++◌, Option, none, some, Bool, true, false, not, ◌||◌, Text, Result, ok,
  raise, unexpected, length, ◌==◌, leb, ltb, if◌then◌else◌, codes, decimal,
}
use url_crawler.Models.{
  FetchErrorKind, timeout, connection, http_status, protocol, FetchResult, FetchError, Fetched,
  fetched, failed, PageResult,
}
use url_crawler.Frontier.{add_key}
use url_crawler.Crawler.Deps.{Deps, HostScope, RobotsPolicy}
use url_crawler.Crawler.State.{
  Crawl, M, continue, ◌>>=◌, ◌>>◌, pure, lift, modify, with_stats, count_retries, count_ok,
  count_failed, count_redirect,
}

-- `REDIRECT_STATUSES` of fetcher.py.
abbrev pub is_redirect : ℕ → Bool
is_redirect status =
    status == 301 || status == 302 || status == 303 || status == 307 || status == 308

-- `error.kind in FUSE_ERROR_KINDS`.
abbrev fuse_kind : FetchErrorKind → Bool
fuse_kind timeout = true
fuse_kind connection = true
fuse_kind protocol = true
fuse_kind _ = false

-- `status is not None and status >= 500`.
abbrev is_server_error : Option ℕ → Bool
is_server_error none = false
is_server_error (some status) = leb 500 status

abbrev counts_kind : FetchErrorKind → Option ℕ → Bool
counts_kind http_status status = is_server_error status
counts_kind kind status = fuse_kind kind

unfoldable pub counts_toward_fuse : FetchError → Bool
counts_toward_fuse error = counts_kind error.kind error.status

-- The fuse burns at `failure_fuse` counted failures with no fetched page between them.
unfoldable pub check_fuse : ℕ → FetchError → Crawl → Crawl
unfolding counts_toward_fuse
check_fuse failure_fuse error c =
    if c.aborted || not (counts_toward_fuse error)
    then c
    else let failures = c.consecutive_failures + 1 in
      let counted = record c { consecutive_failures = failures } in
      if ltb failures failure_fuse then counted else record counted {
        stopping = true;
        aborted = true;
        reason = some (decimal failures ++ codes " consecutive failures");
      }

-- `self._stats.duplicates_dropped = self._frontier.duplicates_dropped`.
abbrev pub copy_duplicates : Crawl → Crawl
copy_duplicates c =
    with_stats (λ s. record s { duplicates_dropped = c.frontier.duplicates_dropped }) c

abbrev pub count_links : List Text → Crawl → Crawl
count_links links = with_stats λ s. record s {
  links_found = s.links_found + length links;
  pages_without_links = s.pages_without_links + (if length links == 0 then 1 else 0);
}

-- The head of `_handle` on a fetched page.
abbrev pub begin_page : FetchResult → Crawl → Crawl
begin_page result c = record (count_retries result.attempts c) { consecutive_failures = 0 }

module _ (d : Deps) where
  -- A call of `reporter.page`.
  unfoldable pub report : PageResult → M (Unit {0})
  report result c =
      let called = record c { reported = result ∷ c.reported } in
      elim (d.page_raises (length c.reported)) [
        | none ↦ (ok tt, called)
        | some e ↦ (raise e, called)
      ]

  -- An empty `Location` counts as none.
  unfoldable pub redirect_target : Text → FetchResult → Result (Option Text)
  redirect_target url result =
      if is_redirect result.status
      then elim result.location [
        | none ↦ ok none
        | some [] ↦ ok none
        | some (x ∷ xs) ↦ d.urls.resolve_href (x ∷ xs) url
      ]
      else ok none

  -- `scope.allows(link) and self._robots.allows(link)`.
  unfoldable pub allowed : HostScope → RobotsPolicy → Text → Result Bool
  allowed scope robots link = elim (d.urls.scope_allows scope link) [
    | ok true ↦ robots.allows link
    | r ↦ r
  ]

  -- `self._frontier.add(link)` of an allowed link.
  unfoldable pub follow : Text → M (Unit {0})
  unfolding add_key
  follow link c = elim (d.urls.canonical_key link) [
    | raise e ↦ (raise e, c)
    | ok key ↦ (ok tt, record c { frontier = (add_key key link c.frontier).1 })
  ]

  unfoldable pub follow_if : Bool → Text → M (Unit {0})
  unfolding follow
  follow_if true link c = follow link c
  follow_if false link c = (ok tt, c)

  -- One round of the loop of `_enqueue`.
  unfoldable pub enqueue_link : HostScope → Text → M (Unit {0})
  unfolding allowed follow_if
  enqueue_link scope link c = elim (allowed scope c.robots link) [
    | raise e ↦ (raise e, c)
    | ok b ↦ follow_if b link c
  ]

  unfoldable pub enqueue_each : HostScope → List Text → M (Unit {0})
  unfolding enqueue_link
  enqueue_each scope [] c = (ok tt, c)
  enqueue_each scope (link ∷ links) c =
      continue (enqueue_link scope link c) (λ _. enqueue_each scope links)

  -- The `assert` is on the scope, which `run` has set.
  unfoldable pub enqueue_in : Option HostScope → List Text → M (Unit {0})
  unfolding enqueue_each
  enqueue_in none links c = (raise (unexpected (codes "AssertionError")), c)
  enqueue_in (some scope) links c =
      continue (enqueue_each scope links c) (λ _. modify copy_duplicates)

  unfoldable pub enqueue : List Text → M (Unit {0})
  unfolding enqueue_in
  enqueue links c = enqueue_in c.scope links c

  abbrev target_links : Option Text → List Text
  target_links none = []
  target_links (some target) = target ∷ []

  -- The two branches that find a page's links and count them.
  unfoldable pub redirect_links : Text → FetchResult → M (List Text)
  unfolding redirect_target
  redirect_links url result = do
    target ← lift (redirect_target url result)
    modify count_redirect
    pure (target_links target)

  unfoldable pub extracted_links : Text → FetchResult → M (List Text)
  extracted_links url result = do
    links ← lift (d.extract result.body url)
    modify (count_links links)
    pure links

  unfoldable pub page_links : Text → FetchResult → M (List Text)
  unfolding redirect_links extracted_links
  page_links url result =
      if is_redirect result.status then redirect_links url result else extracted_links url result

  -- The tail of `_handle`, once the links are known.
  unfoldable pub deliver : Text → FetchResult → List Text → M (Unit {0})
  unfolding report enqueue
  deliver url result links = do
    modify count_ok
    report (record { url = url; status = some result.status; links = links; error = none })
    enqueue links

  unfoldable pub handle : Text → Fetched → M (Unit {0})
  unfolding report page_links deliver check_fuse
  handle url (failed error) = do
    modify (count_retries error.attempts)
    modify (count_failed error.kind)
    report (record { url = url; status = error.status; links = []; error = some error })
    modify (check_fuse d.config.failure_fuse error)
  handle url (fetched result) = do
    modify (begin_page result)
    links ← page_links url result
    deliver url result links
