-- ===== src/DbReporter/Examples.antt =====
-- Two pages, a batch that fails once, and the closing flush (src/url_crawler_service/reporter.py).
use url_crawler.Base.{List, [], ◌∷◌, ◌++◌, none, some, ◌≡◌, length, codes}
use url_crawler.Models.{PageResult}
use url_crawler.DbReporter.{opened, Event, reported, woken, closed, returned, failed, react_all}
use url_crawler.DbReporter.Delivery.{rows_of, react_all-delivers}

abbrev result : PageResult
result = record { url = codes "https://a.example/"; status = some 200; links = []; error = none }

abbrev events : List Event
events = reported result 1 ∷ woken ∷ reported result 2 ∷ failed ∷ closed ∷ returned ∷ []

pages_delivered :
    ((react_all 50 events opened).committed ++ (react_all 50 events opened).buffer
      ≡ rows_of 0 events)
    × ((react_all 50 events opened).pages_written ≡ length (react_all 50 events opened).committed)
pages_delivered = react_all-delivers 50 events
