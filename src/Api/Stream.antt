-- ===== src/Api/Stream.antt =====
-- What the event stream of src/url_crawler_service/api.py tells.
use url_crawler.Base.{
  ℕ, List, [], ◌∷◌, ◌++◌, Option, none, some, Bool, true, false, ◌≡◌, refl, arith, All,
  Option-cases, inl, inr,
}
use url_crawler.Repository.Rows.{CrawlRow, Db, is_terminal}
use url_crawler.Repository.{get}
use url_crawler.Schemas.{crawl_out}
use url_crawler.Api.{Event, stats, end, events}

-- The crawl is gone or has come to a terminal state.
abbrev pub over : Option CrawlRow → Bool
over none = true
over (some r) = is_terminal r.state

abbrev pub is_over : ℕ → Db → Bool
is_over id db = over (get id db)

-- Reads of a crawl that goes on, and the events that report them.
abbrev pub GoesOn : ℕ → List Db → Type 0
GoesOn id = All (λ db. is_over id db ≡ false)

abbrev report : Option CrawlRow → List Event
report none = []
report (some r) = stats (crawl_out r) ∷ []

unfoldable pub reports : ℕ → List Db → List Event
unfolding get
reports id [] = []
reports id (db ∷ later) = report (get id db) ++ reports id later

-- The stream reports each read up to the first at which the crawl is over, that one included, and
-- then says that it ends, whatever is written later.
pub events-reports :
    (id : ℕ) (before later : List Db) (last : Db)
    → GoesOn id before
    → is_over id last ≡ true
    → events id (before ++ last ∷ later) ≡ reports id (before ++ last ∷ []) ++ end ∷ []
unfolding events reports
events-reports id [] later last h e = elim (Option-cases (get id last)) [
  | inl q ↦ rw (events, reports, q) refl
  | inr (r, q) ↦ ground (arith, e, q)
]
events-reports id (db ∷ before) later last (h, hs) e =
    let rest = events-reports id before later last hs e in
    elim (Option-cases (get id db)) [
      | inl q ↦ ground (arith, h, q)
      | inr (r, q) ↦ ground (arith, h, q, rest)
    ]
