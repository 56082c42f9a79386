-- ===== src/Text/Stream.antt =====
-- std::istringstream, as far as std::getline with a delimiter reads it.
use chat_app.Common.{ℕ, ◌≡◌, Bool, true, false, [], ◌∷◌, ◌++◌, arith, ◌==◌, if◌then◌else◌, All, ◌≢◌}
use chat_app.Text.{Bytes}

-- `good` is false once the end was met: then getline leaves its string as it is.
pub record Stream : Type 0 where
  pub rest : Bytes
  pub good : Bool

abbrev pub istringstream : Bytes → Stream
istringstream s = record { rest = s; good = true }

-- The bytes before the first delimiter, or all.
abbrev pub before : ℕ → Bytes → Bytes
before delim [] = []
before delim (c ∷ s) = if c == delim then [] else c ∷ before delim s

-- What stands behind the first delimiter; the stream stays good only if there is one.
abbrev pub past : ℕ → Bytes → Stream
past delim [] = record { rest = []; good = false }
past delim (c ∷ s) = if c == delim then record { rest = s; good = true } else past delim s

-- `std::getline(stream, str, delim)`: the stream and the string afterwards.
abbrev pub getline : ℕ → Stream → Bytes → Stream × Bytes
getline delim s str = if s.good then (past delim s.rest, before delim s.rest) else (s, str)

pub before-field :
    (delim : ℕ) (field s : Bytes)
    → All (λ c. c ≢ delim) field
    → before delim (field ++ delim ∷ s) ≡ field
before-field delim [] s h = ground arith
before-field delim (c ∷ field) s h = ground (arith, before-field delim field s h.1)

pub past-field :
    (delim : ℕ) (field s : Bytes)
    → All (λ c. c ≢ delim) field
    → past delim (field ++ delim ∷ s) ≡ record { rest = s; good = true }
past-field delim [] s h = ground arith
past-field delim (c ∷ field) s h = ground (arith, past-field delim field s h.1)
