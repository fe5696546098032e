-- ===== src/Json/Dumps.antt =====
-- `json.dumps` with compact separators, by its default in ASCII. A writer takes the bytes that follow.
-- The members of an object stand in the order that the caller gives them.
use ai_account_payable_invoi.Prelude.{
  ℕ, ◌+◌, ◌-◌, ◌/◌, ◌%◌, Bool, true, false, ◌&&◌, List, [], ◌∷◌, ◌++◌, leb, ltb, ◌==◌, nat_eq,
  if◌then◌else◌,
}
use ai_account_payable_invoi.Text.{Text, text}
use ai_account_payable_invoi.Json.{
  Json, null, boolean, number, string, array, object, Items, nil, cons, Members, end, member,
}

abbrev pub Bytes : Type 0
Bytes = List ℕ

-- The digit of a number below 16.
abbrev pub hex_digit : ℕ → ℕ
hex_digit d = if ltb d 10 then 48 + d else 87 + d

-- `\uXXXX`
unfoldable pub put_unit : ℕ → Bytes → Bytes
put_unit n rest =
    0x5c
    ∷ 0x75
    ∷ hex_digit (n / 4096)
    ∷ hex_digit (n / 256 % 16)
    ∷ hex_digit (n / 16 % 16)
    ∷ hex_digit (n % 16)
    ∷ rest

-- A code point outside of the printable ASCII characters; above the first plane it takes two units.
unfoldable pub put_escaped : ℕ → Bytes → Bytes
put_escaped c rest =
    if ltb c 0x10000
    then put_unit c rest
    else put_unit (0xd800 + (c - 0x10000) / 1024) (put_unit (0xdc00 + (c - 0x10000) % 1024) rest)

-- The letter of a short escape, or 0.
unfoldable pub short_escape : ℕ → ℕ
short_escape c =
    if c == 0x22
    then 0x22
    else if c == 0x5c
    then 0x5c
    else if c == 0x0a
    then 0x6e
    else if c == 0x0d
    then 0x72
    else if c == 0x09
    then 0x74
    else if c == 0x0c
    then 0x66
    else if c == 0x08
    then 0x62
    else 0

unfoldable pub put_char : ℕ → Bytes → Bytes
put_char c rest =
    if ltb 0 (short_escape c)
    then 0x5c ∷ short_escape c ∷ rest
    else if leb 0x20 c && leb c 0x7e
    then c ∷ rest
    else put_escaped c rest

-- The characters of a text, and the quote that ends it.
unfoldable pub put_chars : Text → Bytes → Bytes
put_chars [] rest = 0x22 ∷ rest
put_chars (c ∷ t) rest = put_char c (put_chars t rest)

abbrev put_bool : Bool → Bytes
put_bool true = text "true"
put_bool false = text "false"

unfoldable mutual
  pub put : Json → Bytes → Bytes
  put null rest = text "null" ++ rest
  put (boolean b) rest = put_bool b ++ rest
  put (number t) rest = t ++ rest
  put (string t) rest = 0x22 ∷ put_chars t rest
  put (array xs) rest = 0x5b ∷ put_items xs rest
  put (object ms) rest = 0x7b ∷ put_members ms rest

  pub put_items : Items → Bytes → Bytes
  put_items nil rest = 0x5d ∷ rest
  put_items (cons x xs) rest = put x (put_more xs rest)

  pub put_more : Items → Bytes → Bytes
  put_more nil rest = 0x5d ∷ rest
  put_more (cons x xs) rest = 0x2c ∷ put x (put_more xs rest)

  pub put_members : Members → Bytes → Bytes
  put_members end rest = 0x7d ∷ rest
  put_members (member k j ms) rest = 0x22 ∷ put_chars k (0x3a ∷ put j (put_others ms rest))

  pub put_others : Members → Bytes → Bytes
  put_others end rest = 0x7d ∷ rest
  put_others (member k j ms) rest = 0x2c ∷ 0x22 ∷ put_chars k (0x3a ∷ put j (put_others ms rest))

-- `json.dumps(value, separators=(",", ":")).encode("utf-8")`
unfoldable pub dumps : Json → Bytes
dumps j = put j []
