-- ===== src/Json/Characters.antt =====
-- What `json.dumps` writes for one character can be read back. `read_char` is what a reader of JSON does
-- with one character of a text.
use ai_account_payable_invoi.Prelude.{
  ℕ, ◌+◌, ◌-◌, ◌*◌, ◌/◌, ◌%◌, ◌≤◌, ◌<◌, ◌≡◌, refl, ap, ◌∙◌, ◌⊎◌, inl, inr, Bool, true, false, ◌&&◌,
  Bool-cases, Option, none, some, [], ◌∷◌, leb, ltb, ◌==◌, nat_eq, arith, if◌then◌else◌,
}
use ai_account_payable_invoi.Json.Dumps.{
  Bytes, hex_digit, put_unit, put_escaped, short_escape, put_char,
}

abbrev digit_value : ℕ → ℕ
digit_value b = if ltb b 58 then b - 48 else b - 87

digit_value-hex_digit : (d : ℕ) → d < 16 → digit_value (hex_digit d) ≡ d
digit_value-hex_digit d h = ground arith

-- Four digits.
read_unit : Bytes → Option (ℕ × Bytes)
read_unit (a ∷ b ∷ c ∷ d ∷ rest) =
    some (((digit_value a * 16 + digit_value b) * 16 + digit_value c) * 16 + digit_value d, rest)
read_unit _ = none

-- The low unit of a pair, after `\u` and its high unit.
read_low : ℕ → Option (ℕ × Bytes) → Option (ℕ × Bytes)
read_low high none = none
read_low high (some (low, rest)) = some (0x10000 + (high - 0xd800) * 1024 + (low - 0xdc00), rest)

read_second : ℕ → Bytes → Option (ℕ × Bytes)
unfolding read_low read_unit
read_second high (x ∷ y ∷ rest) = read_low high (read_unit rest)
read_second high _ = none

abbrev is_high : ℕ → Bool
is_high n = leb 0xd800 n && ltb n 0xdc00

read_first : Option (ℕ × Bytes) → Option (ℕ × Bytes)
unfolding read_second
read_first none = none
read_first (some (n, rest)) = if is_high n then read_second n rest else some (n, rest)

abbrev long_escape : ℕ → ℕ
long_escape e =
    if e == 0x6e
    then 0x0a
    else if e == 0x72
    then 0x0d
    else if e == 0x74
    then 0x09
    else if e == 0x66
    then 0x0c
    else if e == 0x62
    then 0x08
    else e

read_escape : Bytes → Option (ℕ × Bytes)
unfolding read_first read_unit
read_escape [] = none
read_escape (e ∷ rest) =
    if e == 0x75 then read_first (read_unit rest) else some (long_escape e, rest)

unfoldable pub read_char : Bytes → Option (ℕ × Bytes)
unfolding read_escape
read_char [] = none
read_char (b ∷ rest) = if b == 0x5c then read_escape rest else some (b, rest)

-- A code point of Unicode that is no half of a pair.
abbrev pub IsScalar : ℕ → Type 0
IsScalar c = (c < 0x110000) × ((c < 0xd800) ⊎ (0xe000 ≤ c))

read_unit-four :
    (n : ℕ) (rest : Bytes)
    → n < 0x10000
    → read_unit (
        hex_digit (n / 4096)
        ∷ hex_digit (n / 256 % 16)
        ∷ hex_digit (n / 16 % 16)
        ∷ hex_digit (n % 16)
        ∷ rest)
      ≡ some (n, rest)
unfolding read_unit
read_unit-four n rest h =
    let a = digit_value-hex_digit (n / 4096) (omega arith) in
    let b = digit_value-hex_digit (n / 256 % 16) (omega arith) in
    let c = digit_value-hex_digit (n / 16 % 16) (omega arith) in
    let d = digit_value-hex_digit (n % 16) (omega arith) in
    let sum : ((n / 4096 * 16 + n / 256 % 16) * 16 + n / 16 % 16) * 16 + n % 16 ≡ n = omega arith in
    rw (a, b, c, d) (ap (λ (k : ℕ). some (k, rest)) sum)

read_char-unit :
    (n : ℕ) (rest : Bytes) → n < 0x10000 → read_char (put_unit n rest) ≡ read_first (some (n, rest))
unfolding read_char put_unit read_escape
read_char-unit n rest h = ap read_first (read_unit-four n rest h)

read_second-unit :
    (high low : ℕ) (rest : Bytes)
    → low < 0x10000
    → read_second high (put_unit low rest)
      ≡ some (0x10000 + (high - 0xd800) * 1024 + (low - 0xdc00), rest)
unfolding read_second put_unit read_low
read_second-unit high low rest h = ap (read_low high) (read_unit-four low rest h)

read_char-escaped :
    (c : ℕ) (rest : Bytes) → IsScalar c → read_char (put_escaped c rest) ≡ some (c, rest)
unfolding put_escaped read_first
read_char-escaped c rest (below, apart) = elim (Bool-cases (ltb c 0x10000)) [
  | inl y ↦
      let small : c < 0x10000 = ground arith in
      let not_high : is_high c ≡ false = ground arith in
      rw y (read_char-unit c rest small ∙ rw not_high refl)
  | inr n ↦
      let v = c - 0x10000 in
      let large : 0x10000 ≤ c = ground arith in
      let high_small : 0xd800 + v / 1024 < 0x10000 = omega arith in
      let low_small : 0xdc00 + v % 1024 < 0x10000 = omega arith in
      let high : is_high (0xd800 + v / 1024) ≡ true = ground arith in
      let low = read_second-unit (0xd800 + v / 1024) (0xdc00 + v % 1024) rest low_small in
      let sum : 0x10000 + (0xd800 + v / 1024 - 0xd800) * 1024 + (0xdc00 + v % 1024 - 0xdc00) ≡ c =
        omega arith in
      rw n (
        read_char-unit (0xd800 + v / 1024) (put_unit (0xdc00 + v % 1024) rest) high_small
        ∙ rw (high, low, sum) refl)
]

short_escape-back :
    (c : ℕ)
    → ltb 0 (short_escape c) ≡ true
    → ((short_escape c == 0x75) ≡ false) × (long_escape (short_escape c) ≡ c)
unfolding short_escape
short_escape-back c h = ground arith

not_backslash : (c : ℕ) → ltb 0 (short_escape c) ≡ false → (c == 0x5c) ≡ false
unfolding short_escape
not_backslash c h = ground arith

-- A reader finds the character that was written, and what follows it.
pub read_char-put_char :
    (c : ℕ) (rest : Bytes) → IsScalar c → read_char (put_char c rest) ≡ some (c, rest)
unfolding put_char read_char read_escape
read_char-put_char c rest h = elim (Bool-cases (ltb 0 (short_escape c))) [
  | inl y ↦ let (not_u, back) = short_escape-back c y in rw (y, read_escape, not_u, back) refl
  | inr n ↦ elim (Bool-cases (leb 0x20 c && leb c 0x7e)) [
    | inl p ↦ let plain : (c == 0x5c) ≡ false = not_backslash c n in rw (n, p, plain) refl
    | inr o ↦ rw (n, o) (read_char-escaped c rest h)
  ]
]
