-- ===== src/Repository/Fencing.antt =====
-- What src/url_crawler_service/repository.py lets a worker do that does not own the crawl.
use url_crawler.Base.{
  ℕ, List, ◌∷◌, Option, none, Bool, true, false, ◌≡◌, refl, Text, ok, any, not, ap,
}
use url_crawler.Repository.Rows.{
  CrawlState, CrawlRow, PageRow, Db, is_terminal, is_running, update, returning, first,
}
use url_crawler.Repository.Statements.{update-none, returning-none, any-and, first-select}
use url_crawler.Repository.{
  owns, leases, releases, beat, closed_row, released, heartbeat, finish, release, insert_pages,
}

-- A statement that matches no row returns none and leaves the table.
no_match :
    (p : CrawlRow → Bool) (f : CrawlRow → CrawlRow) (db : Db)
    → any p db.crawls ≡ false
    → (first (returning p f db.crawls) ≡ none) × (record db { crawls = update p f db.crawls } ≡ db)
unfolding first
no_match p f db e = (
  rw (returning-none p f db.crawls e) refl,
  ap (λ rs. record db { crawls = rs }) (update-none p f db.crawls e),
)

-- A worker that no row of the crawl names can change nothing: its heartbeat learns that the lease is
-- gone, its final write and its release report that no row matched, a page batch raises
-- `LeaseLostError`, and the database stays as it was.
pub stranger_changes_nothing :
    (id : ℕ) (worker stats : Text) (error : Option Text) (state : CrawlState) (now : ℕ)
    (row : PageRow) (rows : List PageRow) (db : Db)
    → is_terminal state ≡ true
    → any (owns id worker) db.crawls ≡ false
    → (heartbeat id worker stats now db ≡ (none, db))
      × (finish id worker state stats error now db ≡ ok (false, db))
      × (release id worker db ≡ (false, db))
      × (insert_pages id worker (row ∷ rows) db ≡ none)
unfolding heartbeat finish release insert_pages
stranger_changes_nothing id worker stats error state now row rows db t e =
    let live = any-and (owns id worker) (λ r. is_running r.state) db.crawls e in
    let free = any-and (owns id worker) (λ r. not r.cancel_requested) db.crawls e in
    let beats = no_match (leases id worker) (beat stats now) db live in
    let closes = no_match (owns id worker) (closed_row state stats error now) db e in
    let frees = no_match (releases id worker) released db free in
    (
      rw (beats.0, beats.1) refl,
      rw (t, closes.0, closes.1) refl,
      rw (frees.0, frees.1) refl,
      rw (insert_pages, first-select (leases id worker) db.crawls live) refl,
    )
