-- ===== src/Api/Examples.antt =====
-- The API of src/url_crawler_service/api.py on a small database.
use url_crawler.Base.{
  ℕ, suc, [], ◌∷◌, ◌++◌, Option, none, some, true, false, ◌≡◌, refl, Result, ok, Text, codes,
  length, map, select, any, text_eq, is_space, lower,
}
use url_crawler.Config.Floats.{pos, seconds}
use url_crawler.Repository.Rows.{CrawlRow, PageRow, Db, first, running, update}
use url_crawler.Repository.{create, claim, get, insert_pages, request_cancel}
use url_crawler.Repository.Steps.{Reach, here, next, creates, claims, inserts, empty_db}
use url_crawler.Repository.Listing.{pages_after}
use url_crawler.Schemas.{
  CrawlCreate, StoredConfig, to_config, with_defaults, accepts, build_config, from_orm_row,
}
use url_crawler.Schemas.Built.{build_config-accepts}
use url_crawler.Urls.Parse.{Unicode}
use url_crawler.Api.{events, end}
use url_crawler.Api.Stream.{reports, events-reports}
use url_crawler.Api.Paging.{follow_pages, follow_pages-All}

abbrev ascii : Unicode
ascii = record { lower = lower; isspace = is_space; netloc_ok = λ netloc. true }

abbrev body : CrawlCreate
body = record {
  seed = codes "Ex.org/a";
  concurrency = pos 4;
  timeout = seconds 60;
  max_pages = none;
  max_bytes = pos 1000;
  respect_robots = true;
}

body-accepted : accepts body ≡ true
unfolding accepts
body-accepted = refl

build_config-accepts_example : build_config (to_config body) ≡ ok (with_defaults (to_config body))
build_config-accepts_example = build_config-accepts body body-accepted

abbrev dump : StoredConfig → Result Text
dump config = ok (codes "{}")

abbrev open_guard : Text → Result (Option Text)
open_guard seed = ok none

abbrev page : ℕ → PageRow
page seq = record {
  seq = seq;
  url = codes "https://ex.org/";
  status = some 200;
  error_kind = none;
  error_message = none;
  links = [];
  fetched_at = 7;
}

abbrev begun : Db
begun = (create 1 [] [] 5 empty_db).1

abbrev claimed : Db
claimed = (claim (codes "w") 6 (λ id. false) begun).1

abbrev written : Db
written = record claimed {
  pages = map (λ row. record { crawl_id = 1; row = row }) (page 2 ∷ page 1 ∷ page 3 ∷ []);
}

written-Reach : Reach 3 written
unfolding any insert_pages first select text_eq create claim update
written-Reach =
    next
      (next (next here (creates 1 [] [] 5 empty_db refl))
        (claims (codes "w") 6 (λ id. false) begun))
      (inserts 1 (codes "w") (page 2 ∷ page 1 ∷ page 3 ∷ []) claimed written refl)

abbrev row : CrawlRow
row = record {
  id = 1;
  seed = [];
  config = [];
  state = running;
  created_at = 5;
  started_at = some 6;
  finished_at = none;
  heartbeat_at = some 6;
  worker_id = some (codes "w");
  attempts = 1;
  cancel_requested = false;
  stats = none;
  error = none;
}

found : get 1 written ≡ some row
unfolding get claim create first select update
found = refl

follow_pages-All_example :
    follow_pages (suc (length (pages_after 1 0 written))) 1 0 2 written
    ≡ some (map from_orm_row (pages_after 1 0 written))
follow_pages-All_example = follow_pages-All 1 0 2 row written-Reach found refl

-- In two requests.
in_two : follow_pages 2 1 0 2 written ≡ some (map from_orm_row (pages_after 1 0 written))
unfolding follow_pages pages_after claim create first update
in_two = refl

abbrev cancelled : Db
cancelled = (request_cancel 1 6 begun).1

events_reported :
    events 1 ((begun ∷ begun ∷ []) ++ cancelled ∷ begun ∷ [])
    ≡ reports 1 ((begun ∷ begun ∷ []) ++ cancelled ∷ []) ++ end ∷ []
unfolding get request_cancel create first select update
events_reported =
    events-reports 1 (begun ∷ begun ∷ []) (begun ∷ []) cancelled (refl, (refl, tt)) refl
