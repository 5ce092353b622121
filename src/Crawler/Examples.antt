-- ===== src/Crawler/Examples.antt =====
-- A small site, a crawl of it, and the crawler's theorems at that crawl.
use url_crawler.Crawler.Enabled.{made}
use url_crawler.Crawler.Progress.{CanMove, run-joined_or_CanMove}
use url_crawler.Crawler.Moves.{run-moves_le_seen}
use url_crawler.Base.{
  ℕ, ◌+◌, ◌≤◌, max, List, [], ◌∷◌, Option, none, some, true, false, Text, ok, arith, ◌≡◌, ◌↔◌, refl,
  All, length, ltb, if◌then◌else◌, has, text_eq, any, decimal, ◌*◌, ◌⊎◌,
}
use url_crawler.Models.{Fetched, fetched, failed, timeout, pages_total, increment, sum_values}
use url_crawler.Frontier.{joined, get, task_done, mark_key}
use url_crawler.Crawler.Deps.{Deps, UrlRules, CrawlConfig}
use url_crawler.Crawler.State.{Crawl, new, allow_all}
use url_crawler.Crawler.Workers.{Pool, Move, gets, locks, returns, run_moves, pool_of}
use url_crawler.Crawler.Seed.{prepare, run, run_leaves}
use url_crawler.Crawler.SeedAccounting.{run-counts_each_page}
use url_crawler.Crawler.Bookkeeping.{IsIdle, run-joined_iff}
use url_crawler.Crawler.Ledger.{hits}
use url_crawler.Crawler.Once.{run-fetches_key_once, run-fetches_all_seen}
use url_crawler.Crawler.Delay.{asleep, run_moves-one_sleeps}
use url_crawler.Crawler.Tasks.{total}
use url_crawler.Crawler.Limit.{run-fetches_le_limit}
use url_crawler.Crawler.OnSite.{FetchesOnSite, run-FetchesOnSite}
use url_crawler.Crawler.Fuse.{burnt, observed}
use url_crawler.Crawler.Abort.{pool_after, run-aborted_iff_burnt}

-- URLs are texts of one number; 0 redirects to 1, which links to 2, 3, 2 and 90, which is elsewhere.
abbrev rules : UrlRules
rules = record {
  normalize = λ url. some url;
  resolve_href = λ href base. ok (some href);
  canonical_key = λ url. ok url;
  scope_of = λ url. ok (record { host = []; port = none });
  scope_allows = λ scope url. ok (ltb (elim url [ [] ↦ 0 | x ∷ xs ↦ x ]) 50);
}

abbrev config : CrawlConfig
config = record {
  concurrency = 2;
  max_pages = some 10;
  respect_robots = false;
  max_seed_redirects = 5;
  failure_fuse = 2;
}

abbrev answer : ℕ → Option Text → Fetched
answer status location = fetched (record {
  url = [];
  status = status;
  body = [];
  content_type = [];
  location = location;
  attempts = 1;
})

abbrev site : Deps
site = record {
  urls = rules;
  config = config;
  seed_guard = none;
  robots_loader = λ url. ok allow_all;
  extract = λ body url.
      ok (if text_eq url (1 ∷ []) then (2 ∷ []) ∷ (3 ∷ []) ∷ (2 ∷ []) ∷ (90 ∷ []) ∷ [] else []);
  fetch = λ url. ok (if text_eq url (0 ∷ []) then answer 301 (some (1 ∷ [])) else answer 200 none);
  page_raises = λ n. none;
}

abbrev seed : Text
seed = 0 ∷ []

abbrev timed_out : Fetched
timed_out = failed (record { url = []; kind = timeout; status = none; message = []; attempts = 3 })

-- Both workers take a page; the second one's comes back first, and the other one fails.
abbrev tour : List Move
tour = gets 0 ∷ gets 1 ∷ returns 1 (ok (answer 200 none)) ∷ returns 0 (ok timed_out) ∷ gets 0 ∷ []

final : Pool
unfolding run text_eq has increment sum_values pages_total get task_done any decimal mark_key
final = run_moves site (pool_of site (prepare site seed new).1) tour

run-final : run site seed tour ≡ ok final
unfolding final
run-final = refl

run-counts_each_page_example :
    pages_total (run_leaves site seed tour).stats ≡ length (run_leaves site seed tour).reported
run-counts_each_page_example = run-counts_each_page site seed tour

-- Four pages: the redirect, the seed's page and the two that it links to.
final_total : pages_total final.crawl.stats ≡ 4
unfolding final
final_total = refl

final_joined : joined final.crawl.frontier ≡ true
unfolding final
final_joined = refl

final_runs : final.crawl.stopping ≡ false
unfolding final
final_runs = refl

run-joined_iff_example :
    (joined final.crawl.frontier ≡ true)
    ↔ ((final.crawl.frontier.queue ≡ []) × All IsIdle final.tasks)
run-joined_iff_example = run-joined_iff site seed tour final run-final

run-fetches_key_once_example :
    hits rules.canonical_key (2 ∷ []) (run_leaves site seed tour).fetches ≤ 1
run-fetches_key_once_example = run-fetches_key_once site (2 ∷ []) seed tour

run-fetches_all_seen_example :
    hits rules.canonical_key (3 ∷ []) final.crawl.fetches
    ≡ (if has (3 ∷ []) final.crawl.frontier.seen then 1 else 0)
run-fetches_all_seen_example =
    run-fetches_all_seen site (3 ∷ []) seed tour final run-final final_joined final_runs

run-fetches_le_limit_example : length final.crawl.fetches ≤ max 10 (5 + 1)
run-fetches_le_limit_example = run-fetches_le_limit site 10 seed tour final refl run-final

run-FetchesOnSite_example : FetchesOnSite site final.crawl
run-FetchesOnSite_example = run-FetchesOnSite site seed tour final run-final

run-aborted_iff_burnt_example :
    (final.crawl.aborted
      ≡ burnt 2 (observed site (pool_after site (λ n. refl) (omega arith) seed) tour []))
    × (final.crawl.aborted ≡ true → final.crawl.stopping ≡ true)
run-aborted_iff_burnt_example =
    run-aborted_iff_burnt site (λ n. refl) (omega arith) seed tour final run-final

-- Under a crawl delay the second worker waits for the first.
abbrev slow : Crawl
slow = record new {
  robots = record { crawl_delay = some 500; allows = λ url. ok true };
  frontier = record {
    queue = (1 ∷ []) ∷ (2 ∷ []) ∷ [];
    unfinished = 2;
    seen = [];
    duplicates_dropped = 0;
  };
}

run_moves-one_sleeps_example :
    total asleep
      (run_moves site (pool_of site slow) (gets 0 ∷ gets 1 ∷ locks 0 ∷ locks 1 ∷ [])).tasks
    ≤ 1
run_moves-one_sleeps_example =
    run_moves-one_sleeps site slow (gets 0 ∷ gets 1 ∷ locks 0 ∷ locks 1 ∷ [])

run-moves_le_seen_example :
    made site (pool_of site (prepare site seed new).1) tour ≤ 4 * length final.crawl.frontier.seen
run-moves_le_seen_example = run-moves_le_seen site seed tour final run-final

-- One worker has taken a URL.
halfway : Pool
unfolding run text_eq has increment sum_values pages_total get task_done any decimal mark_key
halfway = run_moves site (pool_of site (prepare site seed new).1) (gets 0 ∷ [])

run-halfway : run site seed (gets 0 ∷ []) ≡ ok halfway
unfolding halfway
run-halfway = refl

halfway_runs : halfway.crashed ≡ none
unfolding halfway
halfway_runs = refl

run-joined_or_CanMove_example : (joined halfway.crawl.frontier ≡ true) ⊎ CanMove halfway
run-joined_or_CanMove_example =
    run-joined_or_CanMove site seed (gets 0 ∷ []) halfway run-halfway (omega arith) halfway_runs
