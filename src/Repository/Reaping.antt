-- ===== src/Repository/Reaping.antt =====
-- What `reap` of src/url_crawler_service/repository.py does to each row.
use url_crawler.Base.{
  ℕ, ◌+◌, List, [], ◌∷◌, Bool, false, ◌&&◌, ◌≡◌, refl, arith, ltb, ap, if◌then◌else◌, select,
  length, map,
}
use url_crawler.Repository.Rows.{CrawlRow, Db, update, returning}
use url_crawler.Repository.{
  is_expired, abort_row, requeue_row, fail_row, settle_rows, reap_rows, reap,
}

-- The documented outcome for one row: a cancelled crawl is aborted, one with attempts left is queued
-- again, any other fails.
unfoldable pub settled : ℕ → ℕ → ℕ → CrawlRow → CrawlRow
settled lease max_attempts now r =
    if is_expired lease now r
    then if r.cancel_requested
      then abort_row now r
      else if ltb r.attempts max_attempts
      then requeue_row r
      else fail_row now r
    else r

module _ (lease max_attempts now : ℕ) where
  abbrev cancelled : CrawlRow → Bool
  cancelled r = is_expired lease now r && r.cancel_requested

  abbrev retried : CrawlRow → Bool
  retried r = is_expired lease now r && ltb r.attempts max_attempts

  -- The table after the first statement and after the second.
  abbrev aborts : List CrawlRow → List CrawlRow
  aborts rs = update cancelled (abort_row now) rs

  abbrev requeues : List CrawlRow → List CrawlRow
  requeues rs = update retried requeue_row (aborts rs)

  rows_settled :
      (rs : List CrawlRow)
      → update (is_expired lease now) (fail_row now) (requeues rs)
        ≡ map (settled lease max_attempts now) rs
  unfolding update settled
  rows_settled [] = refl
  rows_settled (r ∷ rs) = ground (arith, rows_settled rs)

  rows_counted :
      (rs : List CrawlRow)
      → length (returning cancelled (abort_row now) rs)
          + length (returning retried requeue_row (aborts rs))
          + length (returning (is_expired lease now) (fail_row now) (requeues rs))
        ≡ length (select (is_expired lease now) rs)
  unfolding update returning select
  rows_counted [] = omega arith
  rows_counted (r ∷ rs) = ground (arith, rows_counted rs)

  -- `reap` gives each crawl whose running lease has expired its documented outcome (aborted when a
  -- cancel was requested, queued again when attempts are left, failed otherwise), leaves every other
  -- row and every page, and returns how many leases had expired.
  pub reap-settles :
      (db : Db)
      → reap lease max_attempts now db ≡ (
        length (select (is_expired lease now) db.crawls),
        record db { crawls = map (settled lease max_attempts now) db.crawls },
      )
  unfolding reap reap_rows settle_rows
  reap-settles db = rw (rows_settled db.crawls) (
      ap (λ n. (n, record db { crawls = map (settled lease max_attempts now) db.crawls }))
        (omega (arith, rows_counted db.crawls)))

  settled_live : (r : CrawlRow) → is_expired lease now (settled lease max_attempts now r) ≡ false
  unfolding settled
  settled_live r = ground arith

  none_expired :
      (rs : List CrawlRow)
      → length (select (is_expired lease now) (map (settled lease max_attempts now) rs)) ≡ 0
  unfolding select
  none_expired [] = refl
  none_expired (r ∷ rs) = rw (settled_live r) (none_expired rs)

  -- A second `reap` at the same time finds no lease to settle.
  pub reap-reap : (db : Db) → (reap lease max_attempts now (reap lease max_attempts now db).1).0 ≡ 0
  reap-reap db =
      rw (reap-settles (reap lease max_attempts now db).1, reap-settles db) (none_expired db.crawls)
