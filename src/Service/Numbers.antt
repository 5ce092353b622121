-- ===== src/Service/Numbers.antt =====
-- The numbers of the rows that src/url_crawler_service/reporter.py makes of a crawl's pages.
use url_crawler.Base.{ℕ, ◌+◌, List, [], ◌∷◌, ◌++◌, ◌≡◌, refl, ap, ◌∙◌, arith, length}
use url_crawler.Models.{PageResult}
use url_crawler.DbReporter.{page_row}
use url_crawler.Service.{numbered}
use url_crawler.Service.Stored.{Numbered}

pub numbered-Numbered : (n : ℕ) (pages : List (PageResult × ℕ)) → Numbered n (numbered n pages)
unfolding numbered page_row
numbered-Numbered n [] = tt
numbered-Numbered n ((result, now) ∷ pages) = (refl, numbered-Numbered (n + 1) pages)

numbered-append :
    (n : ℕ) (result : PageResult) (now : ℕ) (pages : List (PageResult × ℕ))
    → numbered n (pages ++ (result, now) ∷ [])
      ≡ numbered n pages ++ page_row (n + length (numbered n pages) + 1) result now ∷ []
unfolding numbered
numbered-append n result now [] = ap (λ k. page_row k result now ∷ []) (omega arith)
numbered-append n result now ((r, t) ∷ pages) =
    ap (λ rows. page_row (n + 1) r t ∷ rows)
      (numbered-append (n + 1) result now pages
        ∙ ap (λ k. numbered (n + 1) pages ++ page_row k result now ∷ []) (omega arith))

-- The next page is numbered after all the others.
pub numbered-next :
    (result : PageResult) (now : ℕ) (pages : List (PageResult × ℕ))
    → numbered 0 (pages ++ (result, now) ∷ [])
      ≡ numbered 0 pages ++ page_row (length (numbered 0 pages) + 1) result now ∷ []
numbered-next result now pages =
    numbered-append 0 result now pages
    ∙ ap (λ k. numbered 0 pages ++ page_row k result now ∷ []) (omega arith)
