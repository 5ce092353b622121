-- ===== src/Urls/Order.antt =====
-- The order of the query's parameters in `_sorted_query` of src/url_crawler/urls.py.
use url_crawler.Base.{List, [], ◌∷◌, true, ◌≡◌, Text, if◌then◌else◌, text_eq}
use url_crawler.Urls.{text_leb, key_of}

abbrev pub Before : Text → List Text → Type 0
Before k [] = Unit {0}
Before k (pair ∷ pairs) = text_leb k (key_of pair) ≡ true

-- Each key is at most the next one.
abbrev pub InOrder : List Text → Type 0
InOrder [] = Unit {0}
InOrder (pair ∷ pairs) = Before (key_of pair) pairs × InOrder pairs

-- The pairs with a key, in the order given.
unfoldable pub with_key : Text → List Text → List Text
with_key k [] = []
with_key k (pair ∷ pairs) =
    if text_eq (key_of pair) k then pair ∷ with_key k pairs else with_key k pairs

-- The reordered pairs: by key, and with each key's pairs as they came.
abbrev pub Reordered : List Text → List Text → Type 0
Reordered ps sorted = InOrder sorted × ((k : Text) → with_key k sorted ≡ with_key k ps)
