-- ===== src/Urls.antt =====
-- src/url_crawler/urls.py, over the model of `urllib.parse` in Urls/Parse, Urls/Join and Urls/Quote.
pub mod Parse
pub mod Join
pub mod Quote
pub mod Words
mod Segments
pub mod Shape
pub mod Form
mod Seed
mod Order
mod OnHost
mod Examples
use url_crawler.Base.{
  ℕ, zero, suc, ◌+◌, ◌-◌, ◌*◌, List, [], ◌∷◌, ◌++◌, Option, none, some, Bool, true, false, not,
  ◌&&◌, ◌||◌, Text, codes, text_eq, ltb, leb, ◌==◌, if◌then◌else◌, before, after_sep, has_char,
  split_on, join, any, length, lower, decimal, Result, ok, raise, value_error, ◌>>=◌, starts_with,
  is_digit,
}
use url_crawler.Crawler.Deps.{HostScope, UrlRules}
use Parse.{Unicode, SplitResult, urlsplit, urlunsplit, hostname, port, rooted}
use Join.{urljoin, is_dot, is_parent, or_slash}
use Quote.{is_unreserved, escape, quote}

abbrev pub max_url_length : ℕ
max_url_length = 2048

abbrev pub is_http : Text → Bool
is_http scheme = text_eq scheme (codes "http")

abbrev pub is_allowed : Text → Bool
is_allowed scheme = is_http scheme || text_eq scheme (codes "https")

-- `DEFAULT_PORTS[scheme]`.
abbrev pub default_port : Text → ℕ
default_port scheme = if is_http scheme then 80 else 443

-- `_CONTROL_CHARACTER.search`.
unfoldable pub has_control : Text → Bool
has_control s = any (λ c. ltb c 32 || c == 127) s

-- The loop of `_remove_dot_segments` over the segments, with the output so far.
abbrev pub pop_unless_root : Text → List Text → List Text
pop_unless_root w out = if is_parent w && ltb 1 (length out) then Join.pop out else out

unfoldable pub remove_from : List Text → List Text → List Text
unfolding text_eq Join.pop
remove_from out [] = out
remove_from out (w ∷ []) = if is_dot w then pop_unless_root w out ++ [] ∷ [] else out ++ w ∷ []
remove_from out (w ∷ v ∷ ws) =
    remove_from (if is_dot w then pop_unless_root w out else out ++ w ∷ []) (v ∷ ws)

unfoldable pub remove_dot_segments : Text → Text
unfolding remove_from split_on join
remove_dot_segments path = or_slash (join b'/' (remove_from [] (split_on b'/' path)))

abbrev pub consed : ℕ → Option Text → Option Text
consed c none = none
consed c (some s) = some (c ∷ s)

-- The text before the first `://`.
unfoldable pub before_slashes : Text → Option Text
unfolding starts_with
before_slashes [] = none
before_slashes (c ∷ s) =
    let rest = before_slashes s in
    if starts_with (codes "://") (c ∷ s) then some [] else consed c rest

-- The message leaves the scheme out.
unfoldable pub prepare_seed : Text → Result Text
unfolding before_slashes text_eq
prepare_seed url = elim (before_slashes url) [
  | none ↦ ok (codes "https://" ++ url)
  | some scheme ↦
      if is_allowed (lower scheme)
      then ok url
      else raise (value_error (codes "unsupported URL scheme"))
]

-- `str.strip`.
unfoldable pub lstrip_by : (ℕ → Bool) → Text → Text
lstrip_by p [] = []
lstrip_by p (c ∷ s) = if p c then lstrip_by p s else c ∷ s

abbrev pub kept : (ℕ → Bool) → ℕ → Text → Text
kept p c [] = if p c then [] else c ∷ []
kept p c (d ∷ s) = c ∷ d ∷ s

unfoldable pub rstrip_by : (ℕ → Bool) → Text → Text
rstrip_by p [] = []
rstrip_by p (c ∷ s) = kept p c (rstrip_by p s)

abbrev pub strip_by : (ℕ → Bool) → Text → Text
strip_by p s = rstrip_by p (lstrip_by p s)

-- The host part that is requested.
abbrev pub bracketed_host : Text → Text
bracketed_host host = if has_char b':' host then b'[' ∷ host ++ b']' ∷ [] else host

abbrev pub authority : Text → Text → Option ℕ → Text
authority scheme host none = bracketed_host host
authority scheme host (some n) =
    if n == default_port scheme
    then bracketed_host host
    else bracketed_host host ++ b':' ∷ decimal n

module _ (u : Unicode) where
  -- What `normalize` makes of the parts.
  unfoldable pub request_form : SplitResult → Option ℕ → Text
  unfolding urlunsplit remove_dot_segments has_char decimal
  request_form parts n =
      let scheme = lower parts.scheme in
      urlunsplit record {
        scheme = scheme;
        netloc = authority scheme (u.lower (hostname u parts)) n;
        path = remove_dot_segments (or_slash parts.path);
        query = parts.query;
        fragment = [];
      }

  abbrev pub if_short : Text → Option Text
  if_short url = if leb (length url) max_url_length then some url else none

  abbrev pub is_host : Text → Bool
  is_host host = not (text_eq host []) && not (any u.isspace host)

  abbrev pub crawlable : SplitResult → Bool
  crawlable parts = is_allowed (lower parts.scheme) && is_host (u.lower (hostname u parts))

  abbrev pub parts_and_port : Text → Result (SplitResult × Option ℕ)
  parts_and_port text = urlsplit u text >>= λ parts. port u parts >>= λ n. ok (parts, n)

  abbrev pub normal_form : Result (SplitResult × Option ℕ) → Option Text
  normal_form (raise e) = none
  normal_form (ok (parts, n)) = if crawlable parts then if_short (request_form parts n) else none

  unfoldable pub normalize : Text → Option Text
  unfolding lstrip_by rstrip_by has_control urlsplit port hostname request_form text_eq any
  normalize url =
      let text = strip_by u.isspace url in
      if has_control text then none else normal_form (parts_and_port text)

  -- A `ValueError` of `urljoin` is not caught.
  unfoldable pub resolve_href : Text → Text → Result (Option Text)
  unfolding urljoin normalize
  resolve_href href base = urljoin u base (strip_by u.isspace href) >>= λ url. ok (normalize url)

-- `%` and two hexadecimal digits: an unreserved character is written out, another in capitals.
abbrev pub is_hex : ℕ → Bool
is_hex c = is_digit c || leb b'A' c && leb c b'F' || leb b'a' c && leb c b'f'

abbrev pub hex_value : ℕ → ℕ
hex_value c = if is_digit c then c - b'0' else if leb b'a' c then c - b'a' + 10 else c - b'A' + 10

abbrev pub upper_code : ℕ → ℕ
upper_code c = if leb b'a' c && leb c b'z' then c - 32 else c

unfoldable pub fold_escape : ℕ → ℕ → Text
fold_escape h l =
    let character = hex_value h * 16 + hex_value l in
    if is_unreserved character then character ∷ [] else b'%' ∷ upper_code h ∷ upper_code l ∷ []

-- `_PERCENT_ESCAPE.sub(_fold_escape, text)`.
unfoldable pub fold_escapes : Text → Text
unfolding fold_escape
fold_escapes [] = []
fold_escapes (c ∷ []) = c ∷ []
fold_escapes (c ∷ h ∷ []) = c ∷ fold_escapes (h ∷ [])
fold_escapes (c ∷ h ∷ l ∷ s) = elim (c == b'%' && is_hex h && is_hex l) [
  | true ↦ fold_escape h l ++ fold_escapes s
  | false ↦ c ∷ fold_escapes (h ∷ l ∷ s)
]

abbrev pub path_safe : Text
path_safe = codes "/%:@!$&'()*+,;="

abbrev pub query_safe : Text
query_safe = codes "/%:@!$&'()*+,;=?"

unfoldable pub canonical_escapes : Text → Text → Result Text
unfolding fold_escapes quote
canonical_escapes text safe = quote safe (fold_escapes text)

-- The order of `sorted` on texts, and the stable sort by the part before `=`.
unfoldable pub text_leb : Text → Text → Bool
text_leb [] t = true
text_leb (c ∷ s) [] = false
text_leb (c ∷ s) (d ∷ t) = ltb c d || c == d && text_leb s t

abbrev pub key_of : Text → Text
key_of pair = before b'=' pair

unfoldable pub insert_pair : Text → List Text → List Text
unfolding text_leb before
insert_pair pair [] = pair ∷ []
insert_pair pair (other ∷ rest) =
    if text_leb (key_of pair) (key_of other)
    then pair ∷ other ∷ rest
    else other ∷ insert_pair pair rest

unfoldable pub sort_pairs : List Text → List Text
unfolding insert_pair
sort_pairs [] = []
sort_pairs (pair ∷ pairs) = insert_pair pair (sort_pairs pairs)

unfoldable pub sorted_query : Text → Text
unfolding sort_pairs split_on join
sorted_query query = join b'&' (sort_pairs (split_on b'&' query))

module _ (u : Unicode) where
  unfoldable pub canonical_key : Text → Result Text
  unfolding urlsplit canonical_escapes sorted_query urlunsplit
  canonical_key url = do
    parts ← urlsplit u url
    path ← canonical_escapes parts.path path_safe
    query ← canonical_escapes (sorted_query parts.query) query_safe
    ok (urlunsplit (record parts { path = path; query = query; fragment = [] }))

  -- `HostScope.from_url`.
  unfoldable pub from_url : Text → Result HostScope
  unfolding urlsplit hostname port
  from_url url = do
    parts ← urlsplit u url
    n ← port u parts
    ok record { host = u.lower (hostname u parts); port = n }

  abbrev pub same_port : Option ℕ → Option ℕ → Bool
  same_port none none = true
  same_port (some m) (some n) = m == n
  same_port _ _ = false

  -- `HostScope.allows`.
  abbrev pub in_scope : HostScope → Option Text → Result Bool
  in_scope scope none = ok false
  in_scope scope (some url) =
      from_url url >>= λ s. ok (text_eq s.host scope.host && same_port s.port scope.port)

  unfoldable pub allows : HostScope → Text → Result Bool
  unfolding normalize from_url text_eq
  allows scope url = in_scope scope (normalize u url)

  -- The functions that the crawler calls.
  abbrev pub rules : UrlRules
  rules = record {
    normalize = normalize u;
    resolve_href = resolve_href u;
    canonical_key = canonical_key;
    scope_of = from_url;
    scope_allows = allows;
  }
