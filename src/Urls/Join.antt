-- ===== src/Urls/Join.antt =====
-- `urllib.parse.urljoin` on a base with a scheme of `http` or `https` and a host part, as
-- src/url_crawler/urls.py passes it.
use url_crawler.Base.{
  List, [], ◌∷◌, ◌++◌, Bool, false, not, ◌&&◌, ◌||◌, Text, codes, text_eq, ◌==◌, if◌then◌else◌,
  has_char, split_on, join, Result, ok, ◌>>=◌,
}
use url_crawler.Urls.Parse.{Unicode, SplitResult, urlsplit_with, urlunsplit}

-- `_splitparams`: what follows the first `;` of the last segment.
unfoldable pub split_params : Text → Text × Text
unfolding has_char
split_params [] = ([], [])
split_params (c ∷ s) =
    let (path, params) = split_params s in
    if not (has_char b'/' (c ∷ s)) && c == b';' then ([], s) else (c ∷ path, params)

-- `"%s;%s"` where there are parameters.
abbrev pub with_params : Text → Text → Text
with_params path [] = path
with_params path (c ∷ s) = path ++ b';' ∷ c ∷ s

-- `del base_parts[-1]` unless it is empty.
unfoldable pub drop_file : List Text → List Text
drop_file [] = []
drop_file ([] ∷ []) = [] ∷ []
drop_file ((c ∷ s) ∷ []) = []
drop_file (w ∷ v ∷ ws) = w ∷ drop_file (v ∷ ws)

-- `segments[1:-1] = filter(None, segments[1:-1])`.
unfoldable pub filter_rest : List Text → List Text
filter_rest [] = []
filter_rest (w ∷ []) = w ∷ []
filter_rest (w ∷ v ∷ ws) =
    let rest = filter_rest (v ∷ ws) in if text_eq w [] then rest else w ∷ rest

abbrev pub filter_middle : List Text → List Text
filter_middle [] = []
filter_middle (w ∷ ws) = w ∷ filter_rest ws

-- `list.pop()` and `list.append(w)`, where an empty list pops to itself.
unfoldable pub pop : List Text → List Text
pop [] = []
pop (w ∷ []) = []
pop (w ∷ v ∷ ws) = w ∷ pop (v ∷ ws)

abbrev pub is_parent : Text → Bool
is_parent w = text_eq w (codes "..")

abbrev pub is_dot : Text → Bool
is_dot w = text_eq w (codes ".") || is_parent w

unfoldable pub resolve : List Text → List Text → List Text
unfolding pop text_eq
resolve [] out = out
resolve (w ∷ ws) out =
    resolve ws
      (if is_parent w then pop out else if text_eq w (codes ".") then out else out ++ w ∷ [])

unfoldable pub ends_in_dot : List Text → Bool
unfolding text_eq
ends_in_dot [] = false
ends_in_dot (w ∷ []) = is_dot w
ends_in_dot (w ∷ v ∷ ws) = ends_in_dot (v ∷ ws)

abbrev pub or_slash : Text → Text
or_slash [] = codes "/"
or_slash (c ∷ s) = c ∷ s

abbrev pub segments_of : Text → Text → List Text
segments_of base_path [] = filter_middle (drop_file (split_on b'/' base_path) ++ split_on b'/' [])
segments_of base_path (c ∷ s) =
    if c == b'/'
    then split_on b'/' (c ∷ s)
    else filter_middle (drop_file (split_on b'/' base_path) ++ split_on b'/' (c ∷ s))

unfoldable pub merge_paths : Text → Text → Text
unfolding resolve ends_in_dot drop_file filter_rest split_on join
merge_paths base_path path =
    let segments = segments_of base_path path in
    let resolved = resolve segments [] in
    or_slash (join b'/' (if ends_in_dot segments then resolved ++ [] ∷ [] else resolved))

abbrev pub or_else_text : Text → Text → Text
or_else_text [] d = d
or_else_text (c ∷ s) d = c ∷ s

-- A reference of the base's scheme.
abbrev pub joined : SplitResult → SplitResult → Text
joined b r =
    let (path, params) = split_params r.path in
    let (base_path, base_params) = split_params b.path in
    if not (text_eq r.netloc [])
    then urlunsplit (record r { path = with_params path params })
    else if text_eq path [] && text_eq params []
    then urlunsplit (record r {
      netloc = b.netloc;
      path = with_params base_path base_params;
      query = or_else_text r.query b.query;
    })
    else urlunsplit
        (record r { netloc = b.netloc; path = with_params (merge_paths base_path path) params })

abbrev pub join_parsed : Text → SplitResult → SplitResult → Text
join_parsed url b r = if text_eq r.scheme b.scheme then joined b r else url

unfoldable pub urljoin : Unicode → Text → Text → Result Text
unfolding urlsplit_with urlunsplit split_params merge_paths text_eq
urljoin u base [] = ok base
urljoin u base (c ∷ s) = urlsplit_with u [] base >>= λ b.
    urlsplit_with u b.scheme (c ∷ s) >>= λ r. ok (join_parsed (c ∷ s) b r)
