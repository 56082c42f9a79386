-- ===== src/Message/Numbers.antt =====
-- Printed numbers contain no split token, so a message made of them is read back.
use chat_app.Common.{◌+◌, ◌≡◌, [], ◌∷◌, arith, ℤ, pos, negsuc, All, sym, ◌∙◌, ok, ap}
use chat_app.Text.{Bytes}
use chat_app.Text.Decimal.{to_string, stoi, max_digits, IsInt}
use chat_app.Text.Decimal.RoundTrip.{IsDigit, digits-IsDigit, stoi-to_string}
use chat_app.Message.{separations}
use chat_app.Message.RoundTrip.{IsClean, separations_of_clean}

IsDigit-IsClean : (s : Bytes) → All IsDigit s → IsClean s
IsDigit-IsClean [] h = tt
IsDigit-IsClean (c ∷ s) h = (omega arith, IsDigit-IsClean s h.1)

to_string-IsClean : (z : ℤ) → IsClean (to_string z)
unfolding to_string
to_string-IsClean (pos n) = IsDigit-IsClean _ (digits-IsDigit max_digits n [] tt)
to_string-IsClean (negsuc n) =
    (omega arith, IsDigit-IsClean _ (digits-IsDigit max_digits (n + 1) [] tt))

pub separations-to_string : (z : ℤ) → separations (to_string z) ≡ 0
separations-to_string z = separations_of_clean (to_string z) (to_string-IsClean z)

-- Two ints with the same print are the same.
pub to_string_injective : (a b : ℤ) → IsInt a → IsInt b → to_string a ≡ to_string b → a ≡ b
to_string_injective a b ha hb e =
    let p : ok a ≡ ok b = sym (stoi-to_string a ha) ∙ (ap stoi e ∙ stoi-to_string b hb) in cc p
