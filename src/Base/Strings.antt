-- ===== src/Base/Strings.antt =====
-- The methods of `str` that the sources call, on ASCII texts.
use Prim.Native.Nat.{ℕ, suc, ◌+◌, ◌-◌, ◌*◌}
use mathlib.Core.Bool.{Bool, true, false, ◌&&◌, ◌||◌}
use mathlib.Core.List.{[], ◌∷◌, map, List, ◌++◌}
use mathlib.Core.Option.{Option, none, some}
use url_crawler.Base.Tests.{Text, leb, ◌==◌, if◌then◌else◌}

-- `str.isspace` of one character.
abbrev pub is_space : ℕ → Bool
is_space c = leb 9 c && leb c 13 || leb 28 c && leb c 32

abbrev pub lower_code : ℕ → ℕ
lower_code c = if leb b'A' c && leb c b'Z' then c + 32 else c

abbrev pub lower : Text → Text
lower s = map lower_code s

unfoldable pub lstrip : Text → Text
lstrip [] = []
lstrip (c ∷ s) = if is_space c then lstrip s else c ∷ s

unfoldable pub rstrip : Text → Text
rstrip [] = []
rstrip (c ∷ s) =
    let rest = rstrip s in elim rest [ [] ↦ if is_space c then [] else c ∷ [] | d ∷ t ↦ c ∷ d ∷ t ]

abbrev pub strip : Text → Text
strip s = rstrip (lstrip s)

-- `s.split(sep, 1)[0]` for a separator of one character.
unfoldable pub before : ℕ → Text → Text
before sep [] = []
before sep (c ∷ s) = if c == sep then [] else c ∷ before sep s

abbrev pub is_digit : ℕ → Bool
is_digit c = leb b'0' c && leb c b'9'

-- `all(map(is_digit, s))`.
unfoldable pub digits : Text → Bool
digits [] = true
digits (c ∷ s) = is_digit c && digits s

-- `str.isdigit`, which is false of the empty text.
abbrev pub isdigit : Text → Bool
isdigit [] = false
isdigit (c ∷ s) = digits (c ∷ s)

-- The value of a text of digits, after those whose value is `acc`.
unfoldable pub digits_value : ℕ → Text → ℕ
digits_value acc [] = acc
digits_value acc (c ∷ s) = digits_value (acc * 10 + (c - b'0')) s

-- The digits of a numeral whose underscores stand between two of them; `seen` says whether the
-- character before is a digit.
unfoldable pub numeral : Bool → Text → Option Text
numeral seen [] = if seen then some [] else none
numeral seen (c ∷ s) =
    let grouped = numeral false s in
    let rest = numeral true s in
    if is_digit c
    then elim rest [ none ↦ none | some ds ↦ some (c ∷ ds) ]
    else if seen && c == b'_'
    then grouped
    else none

-- `sys.get_int_max_str_digits()`.
abbrev pub max_str_digits : ℕ
max_str_digits = 4300

abbrev count : Text → ℕ
count [] = 0
count (c ∷ s) = suc (count s)

abbrev number_of : Option Text → Option ℕ
number_of none = none
number_of (some ds) = if leb (count ds) max_str_digits then some (digits_value 0 ds) else none

abbrev or_zero : Option ℕ → Option ℕ
or_zero none = none
or_zero (some n) = some 0

abbrev signed : Text → Option ℕ
signed [] = none
signed (c ∷ s) =
    if c == b'-'
    then or_zero (number_of (numeral false s))
    else if c == b'+'
    then number_of (numeral false s)
    else number_of (numeral false (c ∷ s))

-- `max(int(s), 0)`, where `none` is the `ValueError`.
unfoldable pub clamped_int : Text → Option ℕ
unfolding numeral digits_value lstrip rstrip
clamped_int s = signed (strip s)

-- What follows the first separator, if there is one.
unfoldable pub after_sep : ℕ → Text → Option Text
after_sep sep [] = none
after_sep sep (c ∷ s) = if c == sep then some s else after_sep sep s

-- `s.startswith(p)`.
unfoldable pub starts_with : Text → Text → Bool
starts_with [] s = true
starts_with (c ∷ p) [] = false
starts_with (c ∷ p) (d ∷ s) = c == d && starts_with p s

-- `s.split(sep)` for a separator of one character, and its inverse `sep.join(words)`.
abbrev pub push : ℕ → List Text → List Text
push c [] = (c ∷ []) ∷ []
push c (w ∷ ws) = (c ∷ w) ∷ ws

unfoldable pub split_on : ℕ → Text → List Text
split_on sep [] = [] ∷ []
split_on sep (c ∷ s) = let rest = split_on sep s in if c == sep then [] ∷ rest else push c rest

unfoldable pub join : ℕ → List Text → Text
join sep [] = []
join sep (w ∷ []) = w
join sep (w ∷ v ∷ ws) = w ++ sep ∷ join sep (v ∷ ws)

-- `c in s` for one character.
unfoldable pub has_char : ℕ → Text → Bool
has_char c [] = false
has_char c (d ∷ s) = d == c || has_char c s
