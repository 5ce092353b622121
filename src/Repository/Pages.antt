-- ===== src/Repository/Pages.antt =====
-- That a page batch may be sent again (src/url_crawler_service/repository.py: insert_pages).
use url_crawler.Base.{
  ℕ, List, [], ◌∷◌, ◌++◌, none, some, true, ◌&&◌, ◌≡◌, refl, subst, arith, Text, ◌==◌, any, select,
  All, Bool-cases, Option-cases, inl, inr,
}
use url_crawler.Repository.Rows.{PageRow, Page, Db, first}
use url_crawler.Repository.{leases, insert_page, insert_rows, insert_pages}

module _ (id : ℕ) where
  -- The key of a row is in the table.
  abbrev Present : List Page → PageRow → Type 0
  Present pages row = any (λ page. page.crawl_id == id && page.row.seq == row.seq) pages ≡ true

  append-Present :
      (page : Page) (row : PageRow) (pages : List Page)
      → Present pages row
      → Present (pages ++ page ∷ []) row
  unfolding any
  append-Present page row [] h = ground (arith, h)
  append-Present page row (p ∷ pages) h = ground (arith, append-Present page row pages)

  last-Present :
      (row : PageRow) (pages : List Page)
      → Present (pages ++ record { crawl_id = id; row = row } ∷ []) row
  unfolding any
  last-Present row [] = ground arith
  last-Present row (p ∷ pages) = ground (arith, last-Present row pages)

  insert_page-Present : (row : PageRow) (pages : List Page) → Present (insert_page id row pages) row
  unfolding insert_page
  insert_page-Present row pages =
      elim (Bool-cases (any (λ page. page.crawl_id == id && page.row.seq == row.seq) pages)) [
        | inl e ↦ rw (insert_page, e) (rw e refl)
        | inr e ↦ rw (insert_page, e) (last-Present row pages)
      ]

  insert_page-keeps :
      (row other : PageRow) (pages : List Page)
      → Present pages other
      → Present (insert_page id row pages) other
  unfolding insert_page
  insert_page-keeps row other pages h =
      ground (arith, h, append-Present record { crawl_id = id; row = row } other pages)

  insert_rows-keeps :
      (rows : List PageRow) (other : PageRow) (pages : List Page)
      → Present pages other
      → Present (insert_rows id rows pages) other
  unfolding insert_rows
  insert_rows-keeps [] other pages h = h
  insert_rows-keeps (row ∷ rows) other pages h =
      insert_rows-keeps rows other (insert_page id row pages) (insert_page-keeps row other pages h)

  insert_rows-Present :
      (rows : List PageRow) (pages : List Page) → All (Present (insert_rows id rows pages)) rows
  unfolding insert_rows
  insert_rows-Present [] pages = tt
  insert_rows-Present (row ∷ rows) pages = (
    insert_rows-keeps rows row (insert_page id row pages) (insert_page-Present row pages),
    insert_rows-Present rows (insert_page id row pages),
  )

  insert_page-same :
      (row : PageRow) (pages : List Page) → Present pages row → insert_page id row pages ≡ pages
  unfolding insert_page
  insert_page-same row pages h = rw (insert_page, h) refl

  insert_rows-same :
      (rows : List PageRow) (pages : List Page)
      → All (Present pages) rows
      → insert_rows id rows pages ≡ pages
  unfolding insert_rows
  insert_rows-same [] pages h = refl
  insert_rows-same (row ∷ rows) pages (h, hs) =
      rw (insert_rows, insert_page-same row pages h) (insert_rows-same rows pages hs)

-- A batch that is sent again, because the acknowledgement of its commit was lost, is accepted again
-- and changes nothing.
pub insert_pages-insert_pages :
    (id : ℕ) (worker : Text) (rows : List PageRow) (db after : Db)
    → insert_pages id worker rows db ≡ some after
    → insert_pages id worker rows after ≡ some after
unfolding insert_pages
insert_pages-insert_pages id worker [] db after e = refl
insert_pages-insert_pages id worker (row ∷ rows) db after e =
    elim (Option-cases (first (select (leases id worker) db.crawls))) [
      | inl q ↦ ground (arith, q, e)
      | inr (r, q) ↦
          let pages = insert_rows id (row ∷ rows) db.pages in
          let written = record db { pages = pages } in
          let once : some written ≡ some after = rw (q, insert_pages) at e in
          let same =
            insert_rows-same id (row ∷ rows) pages (insert_rows-Present id (row ∷ rows) db.pages) in
          let twice : insert_pages id worker (row ∷ rows) written ≡ some written =
            rw (insert_pages, q, same) refl in
          subst
            (λ o. elim o [ none ↦ Unit | some d ↦ insert_pages id worker (row ∷ rows) d ≡ some d ])
            once twice
    ]
