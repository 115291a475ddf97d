-- ===== src/Parser/Literal.antt =====
-- The literals of src/parser/primary.c and src/parser/unary.c. An integer token's text is decimal
-- digits, or 0x and hexadecimal digits; `strtoll` and `strtoull` are modelled on such texts.
use vnt.Base.{
  ℕ, ◌+◌, ◌-◌, ◌*◌, ◌^◌, Bool, false, ◌&&◌, ◌||◌, Option, none, some, List, [], ◌∷◌, ltb, leb, ◌==◌,
  if◌then◌else◌, length,
}
use vnt.Base.Int.{ℤ, pos}
use vnt.Lexer.Ctype.{isdigit, isxdigit}

unfoldable pub digit_value : ℕ → ℕ
digit_value c =
    if leb c b'9' then c - b'0' else if leb c b'F' then c - (b'A' - 10) else c - (b'a' - 10)

-- The value of the digits of a base, and what stands behind them.
unfoldable pub digits_value : (ℕ → Bool) → ℕ → ℕ → List ℕ → ℕ × List ℕ
unfolding digit_value
digits_value is_digit base acc [] = (acc, [])
digits_value is_digit base acc (c ∷ s) =
    let rest = digits_value is_digit base (acc * base + digit_value c) s in
    if is_digit c then rest else (acc, c ∷ s)

-- strtoull with base 16 behind 0x or 0X, and 10 else: the value of a text that is used up by it.
unfoldable pub text_value : List ℕ → Option ℕ
unfolding digits_value
text_value [] = none
text_value (a ∷ []) = if isdigit a then some (digit_value a) else none
text_value (a ∷ b ∷ s) =
    let hex = digits_value isxdigit 16 0 s in
    let dec = digits_value isdigit 10 0 (a ∷ b ∷ s) in
    if a == b'0' && (b == b'x' || b == b'X')
    then (if length s == 0 then none else if length hex.1 == 0 then some hex.0 else none)
    else if length dec.1 == 0
    then some dec.0
    else none

-- An integer literal: within 63 characters and the range of int64_t.
unfoldable pub integer_value : List ℕ → Option ℤ
integer_value text = if leb 64 (length text) then none else elim (text_value text) [
  | none ↦ none
  | some n ↦ if ltb n (2 ^ 63) then some (pos n) else none
]

-- The text behind a minus sign is the magnitude of INT64_MIN.
unfoldable pub is_min_magnitude : List ℕ → Bool
is_min_magnitude text =
    (ltb 0 (length text) && ltb (length text) 64)
    && elim (text_value text) [ none ↦ false | some n ↦ n == 2 ^ 63 ]

-- The escapes of a string literal; an unknown one keeps its backslash.
unfoldable pub decode_string : List ℕ → List ℕ
decode_string [] = []
decode_string (c ∷ []) = c ∷ []
decode_string (c ∷ e ∷ s) =
    let escaped = decode_string s in
    let plain = decode_string (e ∷ s) in
    if c == 92
    then (if e == b'n'
        then 10 ∷ escaped
        else if e == b'r'
        then 13 ∷ escaped
        else if e == b't'
        then 9 ∷ escaped
        else if e == 92
        then 92 ∷ escaped
        else if e == 34
        then 34 ∷ escaped
        else 92 ∷ e ∷ escaped)
    else c ∷ plain
