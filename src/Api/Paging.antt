-- ===== src/Api/Paging.antt =====
-- Following `next_after` of src/url_crawler_service/api.py through the pages of a crawl.
use url_crawler.Base.{
  ℕ, zero, suc, ◌≤◌, List, [], ◌∷◌, ◌++◌, Option, none, some, true, false, ◌&&◌, ◌≡◌, refl, sym, ap,
  arith, map, select, take, drop, length, ltb, ◌==◌, take-append-drop, Bool-cases, inl, inr, ◌∙◌,
  subst,
}
use url_crawler.Repository.Rows.{Page, CrawlRow, Db, order_by}
use url_crawler.Repository.{get}
use url_crawler.Repository.Ordered.{
  by_key, Ascending, order_by-Ascending, select-order_by, select-Keyed,
}
use url_crawler.Repository.Paging.{
  above, last_key, above-last_key, above-above, above-first, first-le-last, last_key-some,
}
use url_crawler.Repository.Listing.{seq_of, pages_after, list_pages}
use url_crawler.Repository.PageKeys.{Unique, crawl-Keyed, Reach-Unique}
use url_crawler.Repository.Steps.{Reach}
use url_crawler.Schemas.{PageOut, PageList, from_orm_row}
use url_crawler.Api.{
  Answer, answered, http_error, crashed, within, last_seq, page_list, list_crawl_pages,
}

-- A client that asks for the pages after a number, and again while there is a `next_after`; `none` is
-- an error, or more requests than it makes.
abbrev prepend : List PageOut → Option (List PageOut) → Option (List PageOut)
prepend items none = none
prepend items (some more) = some (items ++ more)

abbrev and_then : List PageOut → Option ℕ → (ℕ → Option (List PageOut)) → Option (List PageOut)
and_then items none k = some items
and_then items (some next) k = prepend items (k next)

abbrev follow_answer : Answer PageList → (ℕ → Option (List PageOut)) → Option (List PageOut)
follow_answer (answered page) k = and_then page.items page.next_after k
follow_answer (http_error status detail) k = none
follow_answer (crashed e) k = none

unfoldable pub follow_pages : ℕ → ℕ → ℕ → ℕ → Db → Option (List PageOut)
unfolding list_crawl_pages
follow_pages zero id after limit db = none
follow_pages (suc n) id after limit db =
    follow_answer (list_crawl_pages id after limit db) (λ next. follow_pages n id next limit db)

last_seq-map : (pages : List Page) → last_seq (map from_orm_row pages) ≡ last_key seq_of pages
unfolding last_seq last_key
last_seq-map [] = refl
last_seq-map (page ∷ []) = refl
last_seq-map (page ∷ other ∷ pages) = last_seq-map (other ∷ pages)

length-out : (pages : List Page) → length (map from_orm_row pages) ≡ length pages
length-out [] = refl
length-out (page ∷ pages) = ap suc (length-out pages)

map-append :
    (xs ys : List Page) → map from_orm_row xs ++ map from_orm_row ys ≡ map from_orm_row (xs ++ ys)
map-append [] ys = refl
map-append (x ∷ xs) ys = ap (◌∷◌ (from_orm_row x)) (map-append xs ys)

take-short : (m : ℕ) (xs : List Page) → (length (take m xs) == m) ≡ false → take m xs ≡ xs
take-short zero xs h = ground (arith, h)
take-short (suc m) [] h = refl
take-short (suc m) (x ∷ xs) h = ap (◌∷◌ x) (take-short m xs (ground (arith, h)))

length-drop : (m : ℕ) (xs : List Page) → length (drop m xs) ≤ length xs
length-drop zero xs = omega arith
length-drop (suc m) [] = omega arith
length-drop (suc m) (x ∷ xs) = omega (arith, length-drop m xs)

module _ (id : ℕ) (db : Db) where
  -- The crawl's pages, in order.
  abbrev ordered : List Page
  ordered = order_by (by_key seq_of) (select (λ page. page.crawl_id == id) db.pages)

  select-both :
      (after : ℕ) (pages : List Page)
      → select (λ page. page.crawl_id == id && ltb after page.row.seq) pages
        ≡ above seq_of after (select (λ page. page.crawl_id == id) pages)
  unfolding select
  select-both after [] = refl
  select-both after (page ∷ pages) = ground (arith, select-both after pages)

  pages_after-above :
      (after : ℕ) → Unique db.pages → pages_after id after db ≡ above seq_of after ordered
  unfolding pages_after
  pages_after-above after u =
      let k = crawl-Keyed id db.pages u in
      ap (order_by (by_key seq_of)) (select-both after db.pages)
      ∙ sym (select-order_by seq_of _ (select (λ page. page.crawl_id == id) db.pages) k)

  pages_after-Ascending : (after : ℕ) → Unique db.pages → Ascending seq_of (pages_after id after db)
  unfolding pages_after
  pages_after-Ascending after u =
      let k = crawl-Keyed id db.pages u in
      subst (λ pages. Ascending seq_of (order_by (by_key seq_of) pages))
        (sym (select-both after db.pages))
        (order_by-Ascending seq_of _
          (select-Keyed seq_of _ (select (λ page. page.crawl_id == id) db.pages) k))

  -- The pages after the last of a batch are the rest.
  pages_after-last :
      (after m last : ℕ) (x : Page) (xs : List Page)
      → Unique db.pages
      → pages_after id after db ≡ x ∷ xs
      → last_key seq_of (x ∷ take m xs) ≡ some last
      → pages_after id last db ≡ drop m xs
  pages_after-last after m last x xs u e l =
      let up = subst (Ascending seq_of) e (pages_after-Ascending after u) in
      let split = sym (pages_after-above after u) ∙ e in
      let low = above-first seq_of after x ordered xs split in
      let high = first-le-last seq_of m last x xs up l in
      pages_after-above last u
      ∙ sym (above-above seq_of after last ordered (omega (arith, low, high)))
      ∙ ap (above seq_of last) split
      ∙ above-last_key seq_of m last x xs up l

  module _ (r : CrawlRow) (found : get id db ≡ some r) (m : ℕ)
      (small : within 500 (suc m) ≡ true) where
    list_crawl_pages-found :
        (after : ℕ) (pages : List Page)
        → pages_after id after db ≡ pages
        → list_crawl_pages id after (suc m) db
          ≡ answered (page_list (suc m) (map from_orm_row (take (suc m) pages)))
    unfolding list_crawl_pages list_pages
    list_crawl_pages-found after pages e = rw (list_crawl_pages, list_pages, small, found, e) refl

    follow_pages-from :
        (n after : ℕ) (pages : List Page)
        → Unique db.pages
        → pages_after id after db ≡ pages
        → length pages ≤ n
        → follow_pages (suc n) id after (suc m) db ≡ some (map from_orm_row pages)
    unfolding follow_pages last_seq
    follow_pages-from n after [] u e le =
        ap (λ a. follow_answer a (λ next. follow_pages n id next (suc m) db))
          (list_crawl_pages-found after [] e)
        ∙ ground arith
    follow_pages-from zero after (x ∷ xs) u e le = ground (arith, le)
    follow_pages-from (suc n) after (x ∷ xs) u e le =
        let k = λ (next : ℕ). follow_pages (suc n) id next (suc m) db in
        let answer = ap (λ a. follow_answer a k) (list_crawl_pages-found after (x ∷ xs) e) in
        let out = map from_orm_row (x ∷ take m xs) in
        elim (Bool-cases (length (take m xs) == m)) [
          | inr t ↦
              let stops : (length out == suc m) ≡ false =
                ground (arith, t, length-out (take m xs)) in
              answer ∙ rw (stops, take-short m xs t) refl
          | inl t ↦
              let goes : (length out == suc m) ≡ true = ground (arith, t, length-out (take m xs)) in
              let (last, l) = last_key-some seq_of x (take m xs) in
              let next : last_seq out ≡ some last = last_seq-map (x ∷ take m xs) ∙ l in
              let rest =
                follow_pages-from n last (drop m xs) u (pages_after-last after m last x xs u e l)
                  (omega (arith, le, length-drop m xs)) in
              answer
              ∙ rw (goes, next, rest)
                  (ap (λ pages. some (from_orm_row x ∷ pages))
                    (map-append (take m xs) (drop m xs)
                      ∙ ap (map from_orm_row) (take-append-drop m xs)))
        ]

-- In every database that the transactions lead to, a client that follows `next_after` from any
-- number on, with any page size that is allowed, gets each page of the crawl after that number once,
-- in order, in at most one request more than there are such pages.
pub follow_pages-All :
    {max_attempts : ℕ} {db : Db} (id after limit : ℕ) (r : CrawlRow)
    → Reach max_attempts db
    → get id db ≡ some r
    → within 500 limit ≡ true
    → follow_pages (suc (length (pages_after id after db))) id after limit db
      ≡ some (map from_orm_row (pages_after id after db))
follow_pages-All {db = db} id after zero r reach found small = ground (arith, small)
follow_pages-All {db = db} id after (suc m) r reach found small =
    let pages = pages_after id after db in
    follow_pages-from id db r found m small (length pages) after pages (Reach-Unique reach) refl
      (omega arith)
