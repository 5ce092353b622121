-- ===== src/Reporting/Json.antt =====
-- `json.dumps(value, ensure_ascii=False)` on the values that the sources write.
use url_crawler.Base.{
  ℕ, ◌+◌, ◌-◌, ◌/◌, ◌%◌, [], ◌∷◌, ◌++◌, Text, codes, decimal, ltb, ◌==◌, if◌then◌else◌,
}

-- A finite float stands as its `repr`.
mutual
  pub data Json : Type 0 where
    null : Json
    number : ℕ → Json
    float : Text → Json
    string : Text → Json
    array : Items → Json
    object : Members → Json

  pub data Items : Type 0 where
    no_items : Items
    item : Json → Items → Items

  pub data Members : Type 0 where
    no_members : Members
    member : Text → Json → Members → Members

abbrev pub hex_digit : ℕ → ℕ
hex_digit n = if ltb n 10 then b'0' + n else b'a' + (n - 10)

-- The escape of one character.
unfoldable pub escape : ℕ → Text
escape c =
    if c == b'"'
    then codes "\\\""
    else if c == b'\\'
    then codes "\\\\"
    else if c == 10
    then codes "\\n"
    else if c == 13
    then codes "\\r"
    else if c == 9
    then codes "\\t"
    else if c == 12
    then codes "\\f"
    else if c == 8
    then codes "\\b"
    else if ltb c 32
    then codes "\\u00" ++ hex_digit (c / 16) ∷ hex_digit (c % 16) ∷ []
    else c ∷ []

unfoldable pub escaped : Text → Text
unfolding escape
escaped [] = []
escaped (c ∷ s) = escape c ++ escaped s

abbrev pub quoted : Text → Text
quoted s = b'"' ∷ (escaped s ++ b'"' ∷ [])

-- The separators ", " and ": ".
unfoldable mutual
  unfolding escaped

  pub dumps : Json → Text
  dumps null = codes "null"
  dumps (number n) = decimal n
  dumps (float text) = text
  dumps (string s) = quoted s
  dumps (array items) = b'[' ∷ (dump_items items ++ codes "]")
  dumps (object members) = b'{' ∷ (dump_members members ++ codes "}")

  pub dump_items : Items → Text
  dump_items no_items = []
  dump_items (item j more) = dumps j ++ dump_more more

  pub dump_more : Items → Text
  dump_more no_items = []
  dump_more (item j more) = codes ", " ++ (dumps j ++ dump_more more)

  pub dump_members : Members → Text
  dump_members no_members = []
  dump_members (member key j more) = quoted key ++ (codes ": " ++ (dumps j ++ dump_others more))

  pub dump_others : Members → Text
  dump_others no_members = []
  dump_others (member key j more) =
      codes ", " ++ (quoted key ++ (codes ": " ++ (dumps j ++ dump_others more)))
