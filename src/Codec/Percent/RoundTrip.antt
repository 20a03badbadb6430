-- ===== src/Codec/Percent/RoundTrip.antt =====
-- `unquote` undoes `quote` on ASCII text.
use containers_nix.Prelude.{
  ℕ, ◌/◌, ◌%◌, ◌<◌, ◌≡◌, refl, sym, ap, ◌∙◌, inl, inr, true, false, some, List, [], ◌∷◌, ◌++◌, ◌==◌,
  All, Bool-cases, lt→ltb, arith,
}
use mathlib.Core.List.{append_assoc, append-nil}
use containers_nix.Codec.{Text, Bytes, is_between}
use containers_nix.Codec.Percent.{
  is_safe, hex_upper, quote, hex_value, unquote_bytes, utf8_decode, unquote_from, unquote,
}

abbrev pub Ascii : List ℕ → Type 0
Ascii = All (λ c. c < 128)

hex_value-hex_upper : (n : ℕ) → n < 16 → hex_value (hex_upper n) ≡ some n
unfolding hex_value hex_upper is_between
hex_value-hex_upper n h = ground arith

hex_upper-lt : (n : ℕ) → n < 16 → hex_upper n < 128
unfolding hex_upper
hex_upper-lt n h = ground arith

safe_ne_percent : (c : ℕ) → is_safe c ≡ true → (c == b'%') ≡ false
unfolding is_safe is_between
safe_ne_percent c h = ground arith

unquote_escape :
    (c : ℕ) (cs : Text)
    → c < 128
    → unquote_bytes 0 (b'%' ∷ hex_upper (c / 16) ∷ hex_upper (c % 16) ∷ cs) ≡ c ∷ unquote_bytes 0 cs
unfolding unquote_bytes
unquote_escape c cs h =
    rw
      (
        hex_value-hex_upper (c / 16) (omega arith),
        hex_value-hex_upper (c % 16) (omega arith),
        unquote_bytes,
      )
      (ap (λ x. x ∷ unquote_bytes 0 cs) (omega arith))

unquote_safe :
    (c : ℕ) (cs : Text) → is_safe c ≡ true → unquote_bytes 0 (c ∷ cs) ≡ c ∷ unquote_bytes 0 cs
unfolding unquote_bytes
unquote_safe c cs h = rw (safe_ne_percent c h, unquote_bytes)

unquote_bytes-quote : (s : Text) → Ascii s → unquote_bytes 0 (quote s) ≡ s
unfolding quote
unquote_bytes-quote [] h = unfold unquote_bytes in refl
unquote_bytes-quote (c ∷ cs) h = elim (Bool-cases (is_safe c)) [
  | inl e ↦ rw (e, quote) (unquote_safe c (quote cs) e ∙ ap (◌∷◌ c) (unquote_bytes-quote cs h.1))
  | inr e ↦
      rw (e, quote) (unquote_escape c (quote cs) h.0 ∙ ap (◌∷◌ c) (unquote_bytes-quote cs h.1))
]

pub quote-All : (s : Text) → Ascii s → Ascii (quote s)
unfolding quote
quote-All [] h = tt
quote-All (c ∷ cs) h = elim (Bool-cases (is_safe c)) [
  | inl e ↦ rw (e, quote) (h.0, quote-All cs h.1)
  | inr e ↦
      rw (e, quote)
        (
          omega arith,
          (hex_upper-lt _ (omega arith), (hex_upper-lt _ (omega arith), quote-All cs h.1)),
        )
]

pub utf8_decode-Ascii : (s : Bytes) → Ascii s → utf8_decode 0 s ≡ s
unfolding utf8_decode
utf8_decode-Ascii [] h = refl
utf8_decode-Ascii (b ∷ bs) h =
    rw (lt→ltb b 128 h.0, utf8_decode) (ap (◌∷◌ b) (utf8_decode-Ascii bs h.1))

pub unquote_from-Ascii :
    (run s : Text) → Ascii s → unquote_from run s ≡ utf8_decode 0 (unquote_bytes 0 (run ++ s))
unfolding unquote_from
unquote_from-Ascii run [] h = ap (λ r. utf8_decode 0 (unquote_bytes 0 r)) (sym (append-nil run))
unquote_from-Ascii run (c ∷ cs) h =
    rw (lt→ltb c 128 h.0, unquote_from)
      (unquote_from-Ascii (run ++ c ∷ []) cs h.1
        ∙ ap (λ r. utf8_decode 0 (unquote_bytes 0 r)) (append_assoc run (c ∷ []) cs))

pub unquote-quote : (s : Text) → Ascii s → unquote (quote s) ≡ s
unfolding unquote
unquote-quote s h =
    unquote_from-Ascii [] (quote s) (quote-All s h)
    ∙ ap (utf8_decode 0) (unquote_bytes-quote s h)
    ∙ utf8_decode-Ascii s h
