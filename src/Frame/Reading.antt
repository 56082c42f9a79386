-- ===== src/Frame/Reading.antt =====
-- A message that one recv has put into a cleared frame, read out of it.
use chat_app.Common.{
  ℕ, zero, suc, ◌-◌, ◌≤◌, ◌<◌, ◌≡◌, ◌≢◌, refl, ap, ◌∙◌, [], ◌∷◌, ◌++◌, append-nil, arith, length,
  drop, replicate, All, ok, fault, bind, false, ◌==◌,
}
use chat_app.Text.{Bytes}
use chat_app.Message.{separations, ServerMessage, get_concatenated_msg, construct_from_string}
use chat_app.Message.RoundTrip.{tokens, construct-concatenated, separations-concatenated}
use chat_app.Resources.{max_len}
use chat_app.Frame.{MessageFrame, clear_msg, overlay, c_string}

-- No byte ends a C string.
abbrev pub HasNoZero : Bytes → Type 0
HasNoZero = All (λ c. c ≢ 0)

-- A message that the program can carry: one frame holds it, and it reads back as it was written.
pub record IsSendable (m : ServerMessage) : Type 0 where
  pub clean : tokens m ≡ 0
  pub plain : HasNoZero (get_concatenated_msg m)
  pub short : length (get_concatenated_msg m) < max_len

separations-le-length : (s : Bytes) → separations s ≤ length s
separations-le-length [] = omega arith
separations-le-length (b ∷ s) = ground (arith, separations-le-length s)

-- A message on the wire is not empty.
pub some_bytes : (m : ServerMessage) → (length (get_concatenated_msg m) == 0) ≡ false
some_bytes m =
    ground (arith, separations-concatenated m, separations-le-length (get_concatenated_msg m))

drop-replicate : (m k : ℕ) → m < k → drop m (replicate {A = ℕ} k 0) ≡ 0 ∷ replicate (k - m - 1) 0
drop-replicate zero zero h = absurd (omega arith)
drop-replicate zero (suc k) h =
    ap (λ (n : ℕ). 0 ∷ replicate n 0) {x = k} {y = suc k - 0 - 1} (omega arith)
drop-replicate (suc m) zero h = absurd (omega arith)
drop-replicate (suc m) (suc k) h =
    drop-replicate m k (omega arith)
    ∙ ap (λ (n : ℕ). 0 ∷ replicate n 0) {x = k - m - 1} {y = suc k - suc m - 1} (omega arith)

c_string-append : (text rest : Bytes) → HasNoZero text → c_string (text ++ 0 ∷ rest) ≡ ok text
c_string-append [] rest h = refl
c_string-append (c ∷ text) rest h = ground (arith, c_string-append text rest)

c_string_full : (text : Bytes) → HasNoZero text → c_string text ≡ fault
c_string_full [] h = refl
c_string_full (c ∷ text) h = ground (arith, c_string_full text)

-- A message whose text has no zero byte and is shorter than the frame comes out of a cleared frame
-- as it was written, if no field contains a split token.
pub construct-overlay :
    (f : MessageFrame) (m m' : ServerMessage)
    → tokens m' ≡ 0
    → HasNoZero (get_concatenated_msg m')
    → length (get_concatenated_msg m') < max_len
    → bind
        (c_string (overlay (get_concatenated_msg m') (clear_msg f)).msg)
        (construct_from_string m)
      ≡ ok m'
construct-overlay f m m' clean plain short =
    rw
      (
        drop-replicate (length (get_concatenated_msg m')) max_len short,
        c_string-append (get_concatenated_msg m') _ plain,
      )
      (construct-concatenated m m' ∙ rw clean)

drop_all : (n : ℕ) (xs : Bytes) → length xs ≤ n → drop n xs ≡ []
drop_all zero [] h = refl
drop_all zero (x ∷ xs) h = absurd (omega arith)
drop_all (suc n) [] h = refl
drop_all (suc n) (x ∷ xs) h = drop_all n xs (omega arith)

-- Bytes that fill the whole frame, with no zero byte among them, are read past its end.
pub c_string-overlay :
    (f : MessageFrame) (text : Bytes)
    → length f.msg ≡ max_len
    → length text ≡ max_len
    → HasNoZero text
    → c_string (overlay text f).msg ≡ fault
c_string-overlay f text size filled plain =
    rw (drop_all (length text) f.msg (omega arith), append-nil text) (c_string_full text plain)
