-- ===== src/Text/Decimal.antt =====
-- std::to_string(int) and std::stoi. Ten digits are enough for every int.
pub mod RoundTrip
use chat_app.Common.{
  ℕ, zero, suc, ◌+◌, ◌-◌, ◌*◌, ◌/◌, ◌%◌, ◌^◌, ◌≤◌, ◌<◌, Bool, true, false, ◌&&◌, ◌||◌, [], ◌∷◌,
  Option, none, some, ltb, leb, ◌==◌, if◌then◌else◌, ℤ, pos, negsuc, Outcome, ok, throw,
  invalid_argument, out_of_range,
}
use chat_app.Text.{Bytes}

-- The decimal digits of `n`, most significant first, in front of `out`.
abbrev pub digits : ℕ → ℕ → Bytes → Bytes
digits zero n out = out
digits (suc fuel) n out =
    let rest = digits fuel (n / 10) ((b'0' + n % 10) ∷ out) in
    if ltb n 10 then (b'0' + n) ∷ out else rest

abbrev pub max_digits : ℕ
max_digits = 10

unfoldable pub to_string : ℤ → Bytes
to_string (pos n) = digits max_digits n []
to_string (negsuc n) = b'-' ∷ digits max_digits (n + 1) []

abbrev pub is_space : ℕ → Bool
is_space c = c == 32 || leb 9 c && leb c 13

abbrev pub is_digit : ℕ → Bool
is_digit c = leb b'0' c && leb c b'9'

-- `strtol` in base 10 stops at the first byte that is no digit.
abbrev pub scan : ℕ → Bytes → ℕ
scan n [] = n
scan n (c ∷ s) = let rest = scan (n * 10 + (c - b'0')) s in if is_digit c then rest else n

-- The magnitude behind the sign; `none` where no digit stands.
abbrev pub magnitude : Bytes → Option ℕ
magnitude [] = none
magnitude (c ∷ s) = if is_digit c then some (scan 0 (c ∷ s)) else none

abbrev pub skip_spaces : Bytes → Bytes
skip_spaces [] = []
skip_spaces (c ∷ s) = if is_space c then skip_spaces s else c ∷ s

abbrev pub in_range : Bool → Option ℕ → Outcome ℤ
in_range minus none = throw (invalid_argument "stoi")
in_range true (some n) =
    if ltb (2 ^ 31) n
    then throw (out_of_range "stoi")
    else ok (if n == 0 then pos 0 else negsuc (n - 1))
in_range false (some n) = if ltb n (2 ^ 31) then ok (pos n) else throw (out_of_range "stoi")

abbrev pub signed : Bytes → Outcome ℤ
signed [] = throw (invalid_argument "stoi")
signed (c ∷ s) =
    if c == b'-'
    then in_range true (magnitude s)
    else if c == b'+'
    then in_range false (magnitude s)
    else in_range false (magnitude (c ∷ s))

unfoldable pub stoi : Bytes → Outcome ℤ
stoi s = signed (skip_spaces s)

-- The values of type int.
abbrev pub IsInt : ℤ → Type 0
IsInt (pos n) = n < 2 ^ 31
IsInt (negsuc n) = n < 2 ^ 31
