-- ===== src/Urls/Examples.antt =====
-- Some addresses and their request forms, and a crawl by the rules of src/url_crawler/urls.py.
use url_crawler.Base.{
  List, [], ◌∷◌, some, none, true, false, ◌≡◌, refl, codes, ok, is_space, lower, any, text_eq, has,
  Text, ◌>>=◌, decimal,
}
use url_crawler.Models.{Fetched, fetched, increment, pages_total, sum_values}
use url_crawler.Frontier.{mark_key, get, task_done}
use url_crawler.Crawler.Deps.{Deps}
use url_crawler.Crawler.State.{new, allow_all}
use url_crawler.Crawler.Workers.{Pool, Move, gets, returns, run_moves, pool_of}
use url_crawler.Crawler.Seed.{prepare, run}
use url_crawler.Urls.Parse.{Unicode}
use url_crawler.Urls.{
  normalize, resolve_href, canonical_key, prepare_seed, from_url, allows, rules,
  remove_dot_segments,
}
use url_crawler.Urls.Shape.{IsRequest, normalize-IsRequest}
use url_crawler.Urls.Seed.{prepare_seed-prepare_seed}
use url_crawler.Urls.Segments.{Cleaned, remove_dot_segments-Cleaned}
use url_crawler.Urls.OnHost.{FetchesOnHost, run-FetchesOnHost}

abbrev ascii : Unicode
ascii = record { lower = lower; isspace = is_space; netloc_ok = λ netloc. true }

plain :
    normalize ascii (codes " HTTP://me@Ex.org:80/a/./b/../c?x=1#top ")
    ≡ some (codes "http://ex.org/a/c?x=1")
unfolding normalize
plain = refl

ported : normalize ascii (codes "https://[::1]:8443") ≡ some (codes "https://[::1]:8443/")
unfolding normalize
ported = refl

mailed : normalize ascii (codes "mailto:a@b.c") ≡ none
unfolding normalize
mailed = refl

relative :
    resolve_href ascii (codes "../x?y#z") (codes "http://ex.org/a/b/c;p")
    ≡ ok (some (codes "http://ex.org/a/x?y"))
unfolding resolve_href
relative = refl

keyed :
    canonical_key ascii (codes "http://ex.org/%7euser/%2f?b=2&a=1&b=1")
    ≡ ok (codes "http://ex.org/~user/%2F?a=1&b=2&b=1")
unfolding canonical_key
keyed = refl

-- A page of two links on its host and one that leads elsewhere.
abbrev page : Fetched
page =
    fetched (record {
      url = [];
      status = 200;
      body = [];
      content_type = [];
      location = none;
      attempts = 1;
    })

abbrev site : Deps
site = record {
  urls = rules ascii;
  config = record {
    concurrency = 2;
    max_pages = some 10;
    respect_robots = false;
    max_seed_redirects = 5;
    failure_fuse = 2;
  };
  seed_guard = none;
  robots_loader = λ url. ok allow_all;
  extract = λ body url.
      ok (codes "http://ex.org/a/b" ∷ codes "http://else.org/" ∷ codes "http://ex.org/a/c" ∷ []);
  fetch = λ url. ok page;
  page_raises = λ n. none;
}

abbrev seed : Text
seed = codes "http://ex.org/a/"

abbrev tour : List Move
tour = gets 0 ∷ gets 1 ∷ returns 1 (ok page) ∷ []

final : Pool
unfolding pages_total sum_values get task_done run normalize resolve_href canonical_key from_url
    allows text_eq has any increment mark_key decimal
final = run_moves site (pool_of site (prepare site seed new).1) tour

run-final : run site seed tour ≡ ok final
unfolding final
run-final = refl

-- The two pages below the seed.
final-fetches :
    final.crawl.fetches
    ≡ codes "http://ex.org/a/c" ∷ codes "http://ex.org/a/b" ∷ codes "http://ex.org/a/" ∷ []
unfolding final
final-fetches = refl

run-FetchesOnHost_example : FetchesOnHost ascii site final.crawl
run-FetchesOnHost_example = run-FetchesOnHost ascii site seed tour final refl run-final

requested : IsRequest ascii (codes "http://ex.org/a/c?x=1")
requested =
    normalize-IsRequest ascii (codes " HTTP://me@Ex.org:80/a/./b/../c?x=1#top ")
      (codes "http://ex.org/a/c?x=1") plain

prepare_seed_again :
    (prepare_seed (codes "ex.org/a") >>= prepare_seed) ≡ prepare_seed (codes "ex.org/a")
prepare_seed_again = prepare_seed-prepare_seed (codes "ex.org/a")

remove_dot_segments-Cleaned_example : Cleaned (remove_dot_segments (codes "/a/./b/../c"))
remove_dot_segments-Cleaned_example = remove_dot_segments-Cleaned (codes "/a/./b/../c")
