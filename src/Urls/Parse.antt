-- ===== src/Urls/Parse.antt =====
-- `urllib.parse` as src/url_crawler/urls.py calls it: urlsplit, urlunsplit, urljoin and quote. What it
-- takes from Unicode's tables is a parameter.
use url_crawler.Base.{
  ℕ, [], ◌∷◌, ◌++◌, Option, none, some, Bool, true, false, not, ◌&&◌, ◌||◌, Text, codes, leb, ◌==◌,
  if◌then◌else◌, before, after_sep, has_char, is_digit, isdigit, digits_value, lower_code, Result,
  ok, raise, value_error, select, map, digits,
}

-- `str.lower`, `str.isspace` of a character, and whether `_checknetloc` and `_check_bracketed_netloc`
-- accept a host part.
pub record Unicode : Type 0 where
  pub lower : Text → Text
  pub isspace : ℕ → Bool
  pub netloc_ok : Text → Bool

pub record SplitResult : Type 0 where
  pub scheme : Text
  pub netloc : Text
  pub path : Text
  pub query : Text
  pub fragment : Text

-- `url.lstrip(_WHATWG_C0_CONTROL_OR_SPACE)`.
unfoldable pub lstrip_c0 : Text → Text
lstrip_c0 [] = []
lstrip_c0 (c ∷ s) = if leb c 32 then lstrip_c0 s else c ∷ s

abbrev pub is_unsafe : ℕ → Bool
is_unsafe c = c == 9 || c == 13 || c == 10

unfoldable pub remove_unsafe : Text → Text
unfolding select
remove_unsafe url = select (λ c. not (is_unsafe c)) url

abbrev pub is_alpha : ℕ → Bool
is_alpha c = leb b'A' c && leb c b'Z' || leb b'a' c && leb c b'z'

abbrev pub is_scheme_char : ℕ → Bool
is_scheme_char c = is_alpha c || is_digit c || c == b'+' || c == b'-' || c == b'.'

unfoldable pub scheme_chars : Text → Bool
scheme_chars [] = true
scheme_chars (c ∷ s) = is_scheme_char c && scheme_chars s

abbrev pub is_scheme : Text → Bool
is_scheme [] = false
is_scheme (c ∷ s) = is_alpha c && scheme_chars (c ∷ s)

-- The scheme and what follows it, or the default and the whole text.
abbrev pub scheme_found : Text → Text → Text → Option Text → Text × Text
scheme_found default url name none = (default, url)
scheme_found default url name (some rest) =
    if is_scheme name then (map lower_code name, rest) else (default, url)

unfoldable pub split_scheme : Text → Text → Text × Text
unfolding before after_sep scheme_chars
split_scheme default url = scheme_found default url (before b':' url) (after_sep b':' url)

abbrev pub ends_netloc : ℕ → Bool
ends_netloc c = c == b'/' || c == b'?' || c == b'#'

-- `_splitnetloc`.
unfoldable pub split_netloc : Text → Text × Text
split_netloc [] = ([], [])
split_netloc (c ∷ s) =
    let (netloc, rest) = split_netloc s in if ends_netloc c then ([], c ∷ s) else (c ∷ netloc, rest)

-- The host part, where the text has one, and what follows it.
abbrev pub netloc_of : Text → Text × Text
netloc_of [] = ([], [])
netloc_of (c ∷ []) = ([], c ∷ [])
netloc_of (c ∷ d ∷ s) = if c == b'/' && d == b'/' then split_netloc s else ([], c ∷ d ∷ s)

-- What stands after the first separator, or nothing.
abbrev pub or_empty : Option Text → Text
or_empty none = []
or_empty (some t) = t

module _ (u : Unicode) where
  abbrev pub is_netloc : Text → Bool
  is_netloc netloc =
      (has_char b'[' netloc && has_char b']' netloc
        || not (has_char b'[' netloc) && not (has_char b']' netloc))
      && u.netloc_ok netloc

  -- `urlsplit(url, scheme)`.
  abbrev pub split_rest : Text → Text × Text → SplitResult
  split_rest scheme (netloc, rest) =
      let url = before b'#' rest in
      record {
        scheme = scheme;
        netloc = netloc;
        path = before b'?' url;
        query = or_empty (after_sep b'?' url);
        fragment = or_empty (after_sep b'#' rest);
      }

  abbrev pub checked : SplitResult → Result SplitResult
  checked r = if is_netloc r.netloc then ok r else raise (value_error (codes "Invalid IPv6 URL"))

  abbrev pub split_found : Text × Text → Result SplitResult
  split_found (scheme, rest) = checked (split_rest scheme (netloc_of rest))

  unfoldable pub urlsplit_with : Text → Text → Result SplitResult
  unfolding lstrip_c0 remove_unsafe split_scheme split_netloc before after_sep has_char
  urlsplit_with scheme url = split_found (split_scheme scheme (remove_unsafe (lstrip_c0 url)))

  unfoldable pub urlsplit : Text → Result SplitResult
  unfolding urlsplit_with
  urlsplit url = urlsplit_with [] url

  -- `netloc.rpartition("@")[2]`.
  unfoldable pub after_last : ℕ → Text → Text
  unfolding has_char
  after_last sep [] = []
  after_last sep (c ∷ s) =
      let rest = after_last sep s in if has_char sep (c ∷ s) then rest else c ∷ s

  -- `_hostinfo`: the host as written, and the port's text.
  abbrev pub bracketed : Text → Option Text → Text × Text
  bracketed info none = (before b':' info, or_empty (after_sep b':' info))
  bracketed info (some rest) =
      (before b']' rest, or_empty (after_sep b':' (or_empty (after_sep b']' rest))))

  unfoldable pub hostinfo : Text → Text × Text
  unfolding after_last before after_sep
  hostinfo netloc = let info = after_last b'@' netloc in bracketed info (after_sep b'[' info)

  -- `.hostname`: the zone of a scoped address keeps its case. An absent host is the empty text.
  abbrev pub zoned : Text → Option Text → Text
  zoned host none = u.lower host
  zoned host (some zone) = u.lower (before b'%' host) ++ b'%' ∷ zone

  unfoldable pub hostname : SplitResult → Text
  unfolding hostinfo
  hostname r = let host = (hostinfo r.netloc).0 in zoned host (after_sep b'%' host)

  -- `.port`.
  abbrev pub port_in_range : ℕ → Result (Option ℕ)
  port_in_range n =
      if leb n 65535 then ok (some n) else raise (value_error (codes "Port out of range 0-65535"))

  abbrev pub port_of : Text → Result (Option ℕ)
  port_of [] = ok none
  port_of (c ∷ s) =
      if isdigit (c ∷ s)
      then port_in_range (digits_value 0 (c ∷ s))
      else raise (value_error (codes "Port could not be cast to integer value"))

  unfoldable pub port : SplitResult → Result (Option ℕ)
  unfolding hostinfo digits_value digits
  port r = port_of (hostinfo r.netloc).1

-- `urlunsplit` of a scheme, a host part that is there, a path, a query and a fragment.
abbrev pub led_by : ℕ → Text → Text
led_by c [] = []
led_by c (d ∷ s) = c ∷ d ∷ s

abbrev pub rooted : Text → Text
rooted [] = []
rooted (c ∷ s) = if c == b'/' then c ∷ s else b'/' ∷ c ∷ s

unfoldable pub urlunsplit : SplitResult → Text
urlunsplit r =
    r.scheme
    ++ b':' ∷ b'/' ∷ b'/' ∷ r.netloc
    ++ rooted r.path
    ++ led_by b'?' r.query
    ++ led_by b'#' r.fragment
