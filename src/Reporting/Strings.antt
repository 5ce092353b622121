-- ===== src/Reporting/Strings.antt =====
-- That a text survives its way through the JSON output of src/url_crawler/reporting.py: a reader of JSON
-- strings, from RFC 8259, and the round trip.
use url_crawler.Base.{
  ℕ, zero, suc, ◌+◌, ◌*◌, ◌-◌, ◌/◌, ◌%◌, ◌<◌, [], ◌∷◌, ◌++◌, Option, none, some, false, ◌&&◌, Text,
  codes, append_assoc, ◌∙◌, ◌≡◌, refl, sym, ap, subst, arith, Bool-cases, inl, inr, ltb, leb, ◌==◌,
  if◌then◌else◌, ==_eq,
}
use url_crawler.Reporting.Json.{hex_digit, escape, escaped, quoted}

-- Between two characters, after a backslash, or before the last `suc k` of four hexadecimal digits.
pub data State : Type 0 where
  plain slash : State
  hex : ℕ → ℕ → State

pub data Reading : Type 0 where
  closes refused : Reading
  goes : State → Reading
  gives : ℕ → Reading

abbrev hex_value : ℕ → Option ℕ
hex_value c =
    if leb b'0' c && leb c b'9'
    then some (c - b'0')
    else if leb b'a' c && leb c b'f'
    then some (c - b'a' + 10)
    else none

abbrev hex_next : ℕ → ℕ → Option ℕ → Reading
hex_next k acc none = refused
hex_next zero acc (some v) = gives (acc * 16 + v)
hex_next (suc k) acc (some v) = goes (hex k (acc * 16 + v))

unfoldable read_char : State → ℕ → Reading
read_char plain c =
    if c == b'"'
    then closes
    else if c == b'\\'
    then goes slash
    else if ltb c 32
    then refused
    else gives c
read_char slash c =
    if c == b'"'
    then gives b'"'
    else if c == b'\\'
    then gives b'\\'
    else if c == b'/'
    then gives b'/'
    else if c == b'b'
    then gives 8
    else if c == b'f'
    then gives 12
    else if c == b'n'
    then gives 10
    else if c == b'r'
    then gives 13
    else if c == b't'
    then gives 9
    else if c == b'u'
    then goes (hex 3 0)
    else refused
read_char (hex k acc) c = hex_next k acc (hex_value c)

abbrev add : ℕ → Option (Text × Text) → Option (Text × Text)
add c none = none
add c (some (s, rest)) = some (c ∷ s, rest)

-- What follows an opening quote: the text up to the closing one, and the rest.
unfoldable pub read_string : State → Text → Option (Text × Text)
unfolding read_char
read_string state [] = none
read_string state (c ∷ s) = elim (read_char state c) [
  | closes ↦ some ([], s)
  | refused ↦ none
  | goes next ↦ read_string next s
  | gives d ↦ add d (read_string plain s)
]

hex_value-hex_digit : (n : ℕ) → n < 16 → hex_value (hex_digit n) ≡ some n
hex_value-hex_digit n h = ground (arith, h)

read_char_hex :
    (k acc n : ℕ) → n < 16 → read_char (hex k acc) (hex_digit n) ≡ hex_next k acc (some n)
unfolding read_char
read_char_hex k acc n h = ap (hex_next k acc) (hex_value-hex_digit n h)

read_hex :
    (k acc n : ℕ) (t : Text)
    → n < 16
    → read_string (hex (suc k) acc) (hex_digit n ∷ t) ≡ read_string (hex k (acc * 16 + n)) t
unfolding read_string
read_hex k acc n t h = rw (read_string, read_char_hex (suc k) acc n h) refl

read_hex_last :
    (acc n : ℕ) (t : Text)
    → n < 16
    → read_string (hex 0 acc) (hex_digit n ∷ t) ≡ add (acc * 16 + n) (read_string plain t)
unfolding read_string
read_hex_last acc n t h = rw (read_string, read_char_hex 0 acc n h) refl

read_control :
    (c : ℕ) (t : Text)
    → c < 32
    → read_string slash (codes "u00" ++ hex_digit (c / 16) ∷ hex_digit (c % 16) ∷ t)
      ≡ add c (read_string plain t)
unfolding read_string read_char
read_control c t h =
    read_hex 0 0 (c / 16) (hex_digit (c % 16) ∷ t) (omega (arith, h))
    ∙ read_hex_last (0 * 16 + c / 16) (c % 16) t (omega arith)
    ∙ ap (λ n. add n (read_string plain t)) (omega arith)

read_plain :
    (c : ℕ) (t : Text)
    → (c == b'"') ≡ false
    → (c == b'\\') ≡ false
    → ltb c 32 ≡ false
    → read_string plain (c ∷ t) ≡ add c (read_string plain t)
unfolding read_string read_char
read_plain c t e1 e2 e = rw (read_string, read_char, e1, e2, e) refl

read_string-escape :
    (c : ℕ) (t : Text) → read_string plain (escape c ++ t) ≡ add c (read_string plain t)
unfolding escape read_string read_char
read_string-escape c t = elim (Bool-cases (c == b'"')) [
  | inl e ↦ subst Reads (sym (==_eq c b'"' e)) refl
  | inr e1 ↦ elim (Bool-cases (c == b'\\')) [
    | inl e ↦ subst Reads (sym (==_eq c b'\\' e)) refl
    | inr e2 ↦ elim (Bool-cases (c == 10)) [
      | inl e ↦ subst Reads (sym (==_eq c 10 e)) refl
      | inr e3 ↦ elim (Bool-cases (c == 13)) [
        | inl e ↦ subst Reads (sym (==_eq c 13 e)) refl
        | inr e4 ↦ elim (Bool-cases (c == 9)) [
          | inl e ↦ subst Reads (sym (==_eq c 9 e)) refl
          | inr e5 ↦ elim (Bool-cases (c == 12)) [
            | inl e ↦ subst Reads (sym (==_eq c 12 e)) refl
            | inr e6 ↦ elim (Bool-cases (c == 8)) [
              | inl e ↦ subst Reads (sym (==_eq c 8 e)) refl
              | inr e7 ↦ elim (Bool-cases (ltb c 32)) [
                | inl e ↦
                    rw (escape, e1, e2, e3, e4, e5, e6, e7, e)
                      (read_control c t (ground (arith, e)))
                | inr e ↦ rw (escape, e1, e2, e3, e4, e5, e6, e7, e) (read_plain c t e1 e2 e)
              ]
            ]
          ]
        ]
      ]
    ]
  ]
]
  where
    Reads : ℕ → Type 0
    Reads c = read_string plain (escape c ++ t) ≡ add c (read_string plain t)

read_string-escaped :
    (s rest : Text) → read_string plain (escaped s ++ b'"' ∷ rest) ≡ some (s, rest)
unfolding escaped read_string read_char
read_string-escaped [] rest = refl
read_string-escaped (c ∷ s) rest =
    ap (read_string plain) (append_assoc (escape c) (escaped s) (b'"' ∷ rest))
    ∙ read_string-escape c (escaped s ++ b'"' ∷ rest)
    ∙ ap (add c) (read_string-escaped s rest)

-- A JSON string and what follows it.
abbrev pub read_quoted : Text → Option (Text × Text)
read_quoted [] = none
read_quoted (c ∷ s) = if c == b'"' then read_string plain s else none

-- Every text, of any characters, is read back from the JSON that is written for it, with exactly what
-- follows it as the rest: by RFC 8259's rules for strings, which refuse raw control characters.
pub read_quoted-quoted : (s rest : Text) → read_quoted (quoted s ++ rest) ≡ some (s, rest)
read_quoted-quoted s rest =
    ap (read_string plain) (append_assoc (escaped s) (b'"' ∷ []) rest) ∙ read_string-escaped s rest
