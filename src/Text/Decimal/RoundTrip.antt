-- ===== src/Text/Decimal/RoundTrip.antt =====
-- std::stoi reads back what std::to_string prints.
use native.Mathlib.Nat.{pow-suc}
use chat_app.Common.{
  ℕ, zero, suc, ◌+◌, ◌-◌, ◌*◌, ◌/◌, ◌%◌, ◌^◌, ◌≤◌, ◌<◌, ◌≡◌, ◌≢◌, refl, ◌∙◌, ap, true, false, [],
  ◌∷◌, some, arith, ltb, Bool-cases, inl, inr, ℤ, pos, negsuc, ok, All,
}
use chat_app.Text.{Bytes}
use chat_app.Text.Decimal.{digits, max_digits, to_string, scan, magnitude, in_range, stoi, IsInt}

scan_digit : (m d : ℕ) (out : Bytes) → d < 10 → scan m ((b'0' + d) ∷ out) ≡ scan (m * 10 + d) out
scan_digit m d out h = ground (
  arith,
  ap (λ (k : ℕ). scan k out) {x = m * 10 + (b'0' + d - b'0')} {y = m * 10 + d} (omega arith),
)

-- Reading the digits of `n` and then `out` is reading `out` after `n`.
scan-digits :
    (fuel n : ℕ) (out : Bytes) → n < 10 ^ fuel → 0 < fuel → scan 0 (digits fuel n out) ≡ scan n out
scan-digits zero n out h p = absurd (omega arith)
scan-digits (suc zero) n out h p = ground (arith, scan_digit 0 n out)
scan-digits (suc (suc fuel)) n out h p =
    let small = pow-suc 10 (suc fuel) in
    let ih =
      scan-digits (suc fuel) (n / 10) ((b'0' + n % 10) ∷ out) (omega (arith, small))
        (omega arith) in
    elim (Bool-cases (ltb n 10)) [
      | inl one ↦
          rw one (scan_digit 0 n out (ground arith) ∙ ap (λ (k : ℕ). scan k out) (omega arith))
      | inr more ↦ rw more (
          ih
          ∙ scan_digit (n / 10) (n % 10) out (omega arith)
          ∙ ap (λ (k : ℕ). scan k out) (omega arith))
    ]

-- Every byte of a number's print, before `out`, is a digit.
abbrev pub IsDigit : ℕ → Type 0
IsDigit c = (b'0' ≤ c) × (c ≤ b'9')

pub digits-IsDigit : (fuel n : ℕ) (out : Bytes) → All IsDigit out → All IsDigit (digits fuel n out)
digits-IsDigit zero n out h = h
digits-IsDigit (suc fuel) n out h =
    ground
      (arith, digits-IsDigit fuel (n / 10) ((b'0' + n % 10) ∷ out) ((omega arith, omega arith), h))

digits-ne-nil : (fuel n : ℕ) (out : Bytes) → out ≢ [] → digits fuel n out ≢ []
digits-ne-nil zero n out h = h
digits-ne-nil (suc fuel) n out h =
    ground (arith, digits-ne-nil fuel (n / 10) ((b'0' + n % 10) ∷ out))

max_digits-ne-nil : (n : ℕ) → digits max_digits n [] ≢ []
max_digits-ne-nil n = ground (arith, digits-ne-nil 9 (n / 10) ((b'0' + n % 10) ∷ []))

magnitude_of_digits : (b : Bytes) → b ≢ [] → All IsDigit b → magnitude b ≡ some (scan 0 b)
magnitude_of_digits [] h _ = absurd (h refl)
magnitude_of_digits (c ∷ s) h d = ground arith

stoi_of_digits : (b : Bytes) → b ≢ [] → All IsDigit b → stoi b ≡ in_range false (some (scan 0 b))
unfolding stoi
stoi_of_digits [] h _ = absurd (h refl)
stoi_of_digits (c ∷ s) h d = ground (arith, magnitude_of_digits (c ∷ s))

stoi_of_minus : (b : Bytes) → stoi (b'-' ∷ b) ≡ in_range true (magnitude b)
unfolding stoi
stoi_of_minus b = ground arith

-- std::stoi gives back every int that std::to_string has printed.
pub stoi-to_string : (z : ℤ) → IsInt z → stoi (to_string z) ≡ ok z
unfolding to_string
stoi-to_string (pos n) h =
    stoi_of_digits (digits max_digits n []) (max_digits-ne-nil n)
      (digits-IsDigit max_digits n [] tt)
    ∙ rw (scan-digits max_digits n [] (omega arith) (omega arith)) (ground arith)
stoi-to_string (negsuc n) h =
    stoi_of_minus (digits max_digits (n + 1) [])
    ∙ rw
        (
          magnitude_of_digits (digits max_digits (n + 1) []) (max_digits-ne-nil (n + 1))
              (digits-IsDigit max_digits (n + 1) [] tt),
          scan-digits max_digits (n + 1) [] (omega arith) (omega arith),
        )
        (ground arith)
