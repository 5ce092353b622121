-- ===== src/Parser/Examples.antt =====
-- The links of a page with a base (src/url_crawler/parser.py).
use url_crawler.Base.{[], ◌∷◌, none, some, true, ◌≡◌, refl, codes, ok, is_space, lower}
use url_crawler.Urls.Parse.{Unicode}
use url_crawler.Parser.{Tree, extract_links}
use url_crawler.Parser.Links.{LinksOf, extract_links-LinksOf}

abbrev ascii : Unicode
ascii = record { lower = lower; isspace = is_space; netloc_ok = λ netloc. true }

abbrev tree : Tree
tree = record {
  base_href = some (codes "/d/");
  hrefs = some (codes "a") ∷ none ∷ some (codes "mailto:b") ∷ some (codes "../d/a#c") ∷ [];
}

extracted : extract_links ascii tree (codes "http://a.org/x") ≡ ok (codes "http://a.org/d/a" ∷ [])
unfolding extract_links
extracted = refl

extract_links-LinksOf_example :
    LinksOf ascii tree (codes "http://a.org/x") (codes "http://a.org/d/a" ∷ [])
extract_links-LinksOf_example =
    extract_links-LinksOf ascii tree (codes "http://a.org/x") (codes "http://a.org/d/a" ∷ [])
      extracted
