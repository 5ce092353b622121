-- ===== src/Urls/Quote.antt =====
-- `urllib.parse.quote`, which src/url_crawler/urls.py calls with a set of safe characters.
use url_crawler.Base.{
  ℕ, ◌+◌, ◌/◌, ◌%◌, List, [], ◌∷◌, ◌++◌, Bool, ◌&&◌, ◌||◌, Text, codes, ltb, leb, ◌==◌,
  if◌then◌else◌, has_char, is_digit, Result, ok, raise, value_error, ◌>>=◌, ◌-◌,
}
use url_crawler.Urls.Parse.{is_alpha}

-- `UNRESERVED`, and the always safe characters of `quote`.
abbrev pub is_unreserved : ℕ → Bool
is_unreserved c = is_alpha c || is_digit c || c == b'-' || c == b'.' || c == b'_' || c == b'~'

abbrev pub hex_digit : ℕ → ℕ
hex_digit n = if ltb n 10 then b'0' + n else b'A' + (n - 10)

-- `"%{:02X}".format(b)` of a byte.
abbrev pub escape : ℕ → Text
escape b = b'%' ∷ hex_digit (b / 16) ∷ hex_digit (b % 16) ∷ []

-- The bytes of a character in UTF-8; a lone surrogate is a `UnicodeEncodeError`, a `ValueError`.
unfoldable pub utf8 : ℕ → Result (List ℕ)
utf8 c =
    if ltb c 128
    then ok (c ∷ [])
    else if ltb c 2048
    then ok ((192 + c / 64) ∷ (128 + c % 64) ∷ [])
    else if leb 55296 c && ltb c 57344
    then raise (value_error (codes "surrogates not allowed"))
    else if ltb c 65536
    then ok ((224 + c / 4096) ∷ (128 + c / 64 % 64) ∷ (128 + c % 64) ∷ [])
    else ok ((240 + c / 262144) ∷ (128 + c / 4096 % 64) ∷ (128 + c / 64 % 64) ∷ (128 + c % 64) ∷ [])

unfoldable pub quote_bytes : Text → List ℕ → Text
unfolding has_char
quote_bytes safe [] = []
quote_bytes safe (b ∷ bs) =
    (if ltb b 128 && (is_unreserved b || has_char b safe) then b ∷ [] else escape b)
    ++ quote_bytes safe bs

unfoldable pub quote : Text → Text → Result Text
unfolding utf8 quote_bytes
quote safe [] = ok []
quote safe (c ∷ s) = utf8 c >>= λ bs. quote safe s >>= λ rest. ok (quote_bytes safe bs ++ rest)
