-- ===== src/Repository/Examples.antt =====
-- A table with a queued crawl and two that run, of which one worker is gone
-- (src/url_crawler_service/repository.py).
use url_crawler.Base.{
  ℕ, [], ◌∷◌, Option, none, some, false, ◌≡◌, refl, Text, codes, ok, length, select, map, any,
  text_eq, arith,
}
use url_crawler.Repository.Rows.{
  CrawlState, queued, running, finished, CrawlRow, PageRow, Db, first,
}
use url_crawler.Repository.{
  is_expired, claim, heartbeat, finish, release, insert_pages, reap, create, get,
}
use url_crawler.Repository.Fencing.{stranger_changes_nothing}
use url_crawler.Repository.Steps.{here, next, creates, claims, empty_db}
use url_crawler.Repository.Sound.{AllSound}
use url_crawler.Repository.Lifecycle.{Reach-AllSound}
use url_crawler.Repository.Transitions.{Allowed, Moved, Step-Moved}
use url_crawler.Repository.Reaping.{settled, reap-settles, reap-reap}
use url_crawler.Repository.Pages.{insert_pages-insert_pages}
use url_crawler.Repository.Claiming.{Claims, claim-Claims}

abbrev row_of : ℕ → CrawlState → Option ℕ → Option Text → ℕ → CrawlRow
row_of id state at worker attempts = record {
  id = id;
  seed = codes "https://a.example/";
  config = codes "{}";
  state = state;
  created_at = id;
  started_at = at;
  finished_at = none;
  heartbeat_at = at;
  worker_id = worker;
  attempts = attempts;
  cancel_requested = false;
  stats = none;
  error = none;
}

abbrev page_one : PageRow
page_one = record {
  seq = 1;
  url = codes "https://a.example/";
  status = some 200;
  error_kind = none;
  error_message = none;
  links = [];
  fetched_at = 5;
}

abbrev table : Db
table = record {
  crawls =
      row_of 1 running (some 10) (some (codes "w1")) 1
      ∷ row_of 2 queued none none 0
      ∷ row_of 3 running (some 90) (some (codes "w3")) 3
      ∷ [];
  pages = record { crawl_id = 2; row = page_one } ∷ [];
}

stranger_changes_nothing_example :
    (heartbeat 1 (codes "w3") [] 100 table ≡ (none, table))
    × (finish 1 (codes "w3") finished [] none 100 table ≡ ok (false, table))
    × (release 1 (codes "w3") table ≡ (false, table))
    × (insert_pages 1 (codes "w3") (page_one ∷ []) table ≡ none)
unfolding any text_eq
stranger_changes_nothing_example =
    stranger_changes_nothing 1 (codes "w3") [] none finished 100 page_one [] table refl refl

reap-settles_example : reap 60 3 100 table ≡ (
  length (select (is_expired 60 100) table.crawls),
  record table { crawls = map (settled 60 3 100) table.crawls },
)
reap-settles_example = reap-settles 60 3 100 table

reap_again : (reap 60 3 100 (reap 60 3 100 table).1).0 ≡ 0
reap_again = reap-reap 60 3 100 table

claim-Claims_example :
    Claims (codes "w2") 100 (λ id. false) table (claim (codes "w2") 100 (λ id. false) table)
unfolding any
claim-Claims_example = claim-Claims (codes "w2") 100 (λ id. false) table (refl, (refl, (refl, tt)))

abbrev sent : Db
sent = record table {
  pages = record { crawl_id = 2; row = page_one } ∷ record { crawl_id = 1; row = page_one } ∷ [];
}

insert_pages_again : insert_pages 1 (codes "w1") (page_one ∷ []) sent ≡ some sent
unfolding insert_pages first select any text_eq
insert_pages_again = insert_pages-insert_pages 1 (codes "w1") (page_one ∷ []) table sent refl

Reach-AllSound_example :
    AllSound 3 (claim (codes "w1") 9 (λ id. false) (create 1 [] [] 5 empty_db).1).1
unfolding any
Reach-AllSound_example = Reach-AllSound (omega arith) (
    next (next here (creates 1 [] [] 5 empty_db refl))
      (claims (codes "w1") 9 (λ id. false) (create 1 [] [] 5 empty_db).1))

Step-Moved_example :
    Moved
      (Allowed {m = 3}
        (claims (codes "w2") 100 (λ id. false) (create 1 [] [] 5 empty_db).1)
        (create 1 [] [] 5 empty_db).0)
      1
      (claim (codes "w2") 100 (λ id. false) (create 1 [] [] 5 empty_db).1).1
unfolding create get first select any
Step-Moved_example =
    Step-Moved {m = 3} (omega arith) (next here (creates 1 [] [] 5 empty_db refl))
      (claims (codes "w2") 100 (λ id. false) (create 1 [] [] 5 empty_db).1) 1
      (create 1 [] [] 5 empty_db).0 refl
