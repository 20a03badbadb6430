-- ===== src/Codec/Base64/RoundTrip.antt =====
-- Decoding what `b64encode` wrote gives the bytes back.
use mathlib.Core.Option
use containers_nix.Prelude.{
  ℕ, ◌+◌, ◌*◌, ◌/◌, ◌%◌, ◌<◌, ◌≡◌, refl, ap, ap₂, true, false, some, [], ◌∷◌, ◌==◌, All, arith,
}
use containers_nix.Codec.{Text, Bytes, AllBytes, is_space}
use containers_nix.Codec.Base64.{
  b64_char, b64encode, b64_value, Quad, q0, q1, q2, q3, take_value, move, a2b_base64, is_ascii,
  b64decode,
}

b64_value-b64_char : (v : ℕ) → v < 64 → b64_value (b64_char v) ≡ some v
unfolding b64_value b64_char
b64_value-b64_char v h = ground arith

b64_char_ne_pad : (v : ℕ) → v < 64 → (b64_char v == b'=') ≡ false
unfolding b64_char
b64_char_ne_pad v h = ground arith

pub b64_char-lt : (v : ℕ) → v < 64 → b64_char v < 128
unfolding b64_char
b64_char-lt v h = ground arith

move-b64_char : (q : Quad) (pads v : ℕ) → v < 64 → move q pads (b64_char v) ≡ take_value q v
unfolding move
move-b64_char q pads v h = rw (b64_char_ne_pad v h, b64_value-b64_char v h)

step_q0 : (v : ℕ) (cs : Text) → v < 64 → a2b_base64 q0 0 (b64_char v ∷ cs) ≡ a2b_base64 (q1 v) 0 cs
unfolding a2b_base64
step_q0 v cs h = rw (move-b64_char q0 0 v h, a2b_base64, take_value)

step_q1 :
    (left v : ℕ) (cs : Text)
    → v < 64
    → a2b_base64 (q1 left) 0 (b64_char v ∷ cs)
      ≡ Option.map (λ bs. (left * 4 + v / 16) ∷ bs) (a2b_base64 (q2 (v % 16)) 0 cs)
unfolding a2b_base64
step_q1 left v cs h = rw (move-b64_char (q1 left) 0 v h, a2b_base64, take_value)

step_q2 :
    (left v : ℕ) (cs : Text)
    → v < 64
    → a2b_base64 (q2 left) 0 (b64_char v ∷ cs)
      ≡ Option.map (λ bs. (left * 16 + v / 4) ∷ bs) (a2b_base64 (q3 (v % 4)) 0 cs)
unfolding a2b_base64
step_q2 left v cs h = rw (move-b64_char (q2 left) 0 v h, a2b_base64, take_value)

step_q3 :
    (left v : ℕ) (cs : Text)
    → v < 64
    → a2b_base64 (q3 left) 0 (b64_char v ∷ cs)
      ≡ Option.map (λ bs. (left * 64 + v) ∷ bs) (a2b_base64 q0 0 cs)
unfolding a2b_base64
step_q3 left v cs h = rw (move-b64_char (q3 left) 0 v h, a2b_base64, take_value)

two_pads : (left : ℕ) → a2b_base64 (q2 left) 0 (b'=' ∷ b'=' ∷ []) ≡ some []
unfolding a2b_base64
two_pads left = refl

one_pad : (left : ℕ) → a2b_base64 (q3 left) 0 (b'=' ∷ []) ≡ some []
unfolding a2b_base64
one_pad left = refl

cons_three :
    {a b c x y z : ℕ} (rest : Bytes)
    → x ≡ a
    → y ≡ b
    → z ≡ c
    → some (x ∷ y ∷ z ∷ rest) ≡ some (a ∷ b ∷ c ∷ rest)
cons_three rest p q r = cc

a2b_base64-b64encode : (bs : Bytes) → AllBytes bs → a2b_base64 q0 0 (b64encode bs) ≡ some bs
unfolding b64encode
a2b_base64-b64encode [] h = unfold a2b_base64 in refl
a2b_base64-b64encode (a ∷ []) h =
    rw (step_q0 (a / 4) _ (omega arith), step_q1 (a / 4) (a % 4 * 16) _ (omega arith), two_pads)
      (ap (λ x. some (x ∷ [])) (omega arith))
a2b_base64-b64encode (a ∷ b ∷ []) h =
    rw
      (
        step_q0 (a / 4) _ (omega arith),
        step_q1 (a / 4) (a % 4 * 16 + b / 16) _ (omega arith),
        step_q2 _ (b % 16 * 4) _ (omega arith),
        one_pad,
      )
      (ap₂ (λ x y. some (x ∷ y ∷ [])) (omega arith) (omega arith))
a2b_base64-b64encode (a ∷ b ∷ c ∷ rest) h =
    rw
      (
        step_q0 (a / 4) _ (omega arith),
        step_q1 (a / 4) (a % 4 * 16 + b / 16) _ (omega arith),
        step_q2 _ (b % 16 * 4 + c / 64) _ (omega arith),
        step_q3 _ (c % 64) _ (omega arith),
        a2b_base64-b64encode rest h.1.1.1,
      )
      (cons_three rest (omega arith) (omega arith) (omega arith))

-- What holds of the characters of the alphabet and of the padding holds of all that is written.
pub b64encode-All :
    (P : ℕ → Type 0) (char : (v : ℕ) → v < 64 → P (b64_char v))
    → P b'='
    → (bs : Bytes) → AllBytes bs
    → All P (b64encode bs)
unfolding b64encode
b64encode-All P char p [] h = tt
b64encode-All P char p (a ∷ []) h =
    (char (a / 4) (omega arith), (char (a % 4 * 16) (omega arith), (p, (p, tt))))
b64encode-All P char p (a ∷ b ∷ []) h = (
  char (a / 4) (omega arith),
  (char (a % 4 * 16 + b / 16) (omega arith), (char (b % 16 * 4) (omega arith), (p, tt))),
)
b64encode-All P char p (a ∷ b ∷ c ∷ rest) h = (
  char (a / 4) (omega arith),
  (
    char (a % 4 * 16 + b / 16) (omega arith),
    (
      char (b % 16 * 4 + c / 64) (omega arith),
      (char (c % 64) (omega arith), b64encode-All P char p rest h.1.1.1),
    ),
  ),
)

pub b64encode-ascii : (bs : Bytes) → AllBytes bs → All (λ c. c < 128) (b64encode bs)
b64encode-ascii = b64encode-All (λ c. c < 128) b64_char-lt (omega arith)

is_space-b64_char : (v : ℕ) → v < 64 → is_space (b64_char v) ≡ false
unfolding b64_char is_space
is_space-b64_char v h = ground arith

pub b64encode-printable : (bs : Bytes) → AllBytes bs → All (λ c. is_space c ≡ false) (b64encode bs)
b64encode-printable =
    b64encode-All (λ c. is_space c ≡ false) is_space-b64_char (unfold is_space in refl)

pub is_ascii_of_All : (s : Text) → All (λ c. c < 128) s → is_ascii s ≡ true
unfolding is_ascii
is_ascii_of_All [] h = refl
is_ascii_of_All (c ∷ cs) h = ground (arith, is_ascii_of_All cs h.1)

pub b64decode-b64encode : (bs : Bytes) → AllBytes bs → b64decode (b64encode bs) ≡ some bs
unfolding b64decode
b64decode-b64encode bs h = rw (is_ascii_of_All _ (b64encode-ascii bs h)) (a2b_base64-b64encode bs h)
