-- ===== src/Parser.antt =====
-- src/url_crawler/parser.py, over the nodes that selectolax finds in a body.
mod Links
mod Examples
use url_crawler.Base.{
  List, [], ◌∷◌, Option, none, some, Bool, true, false, Text, has, if◌then◌else◌, Result, ok, raise,
  ◌>>=◌,
}
use url_crawler.Urls.Parse.{Unicode}
use url_crawler.Urls.{resolve_href}

-- What `_href` gives for the node of `base[href]`, if there is one, and for those of the link selector:
-- `none` where the attribute is absent or not decoded.
pub record Tree : Type 0 where
  pub base_href : Option Text
  pub hrefs : List (Option Text)

-- `dict.fromkeys`: the texts in the order in which each comes first.
unfoldable pub fromkeys : List Text → List Text → List Text
unfolding has
fromkeys seen [] = []
fromkeys seen (x ∷ xs) = elim (has x seen) [
  | true ↦ fromkeys seen xs
  | false ↦ x ∷ fromkeys (x ∷ seen) xs
]

abbrev pub or_base : Text → Option Text → Text
or_base base_url none = base_url
or_base base_url (some resolved) = resolved

abbrev pub kept_with : List Text → Option Text → List Text
kept_with links none = links
kept_with links (some url) = url ∷ links

module _ (u : Unicode) where
  -- `_effective_base`: an empty `href` counts as none.
  abbrev pub based_on : Text → Option Text → Result Text
  based_on base_url none = ok base_url
  based_on base_url (some []) = ok base_url
  based_on base_url (some (c ∷ href)) =
      resolve_href u (c ∷ href) base_url >>= λ resolved. ok (or_base base_url resolved)

  abbrev pub resolved_one : Text → Option Text → Result (Option Text)
  resolved_one base none = ok none
  resolved_one base (some href) = resolve_href u href base

  -- The URLs that the hrefs lead to; the first one that raises ends it.
  unfoldable pub resolve_all : Text → List (Option Text) → Result (List Text)
  unfolding resolve_href
  resolve_all base [] = ok []
  resolve_all base (href ∷ hrefs) =
      resolved_one base href >>= λ url. resolve_all base hrefs >>= λ urls. ok (kept_with urls url)

  unfoldable pub extract_links : Tree → Text → Result (List Text)
  unfolding resolve_all fromkeys
  extract_links tree base_url = based_on base_url tree.base_href >>= λ base.
      resolve_all base tree.hrefs >>= λ urls. ok (fromkeys [] urls)
