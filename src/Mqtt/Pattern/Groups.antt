-- ===== src/Mqtt/Pattern/Groups.antt =====
-- What the groups of a match are, and that they rebuild the text.
use containers_nix.Prelude.{
  ◌≡◌, refl, sym, ap, ◌∙◌, inl, inr, Bool, false, Option, none, some, List, [], ◌∷◌, ◌++◌, ◌==◌,
  arith, Bool-cases, Option-cases, ==_iff,
}
use containers_nix.Codec.{Text}
use containers_nix.Mqtt.Pattern.{
  lit, some_of, any_of, Pattern, strip_prefix, span, at_end, prepend, capture, groups, Fits,
  span-join, span-All,
}

-- The text that a pattern and its groups make up.
abbrev pub filled : Pattern → List Text → Text
filled [] gs = []
filled (lit l ∷ ps) gs = l ++ filled ps gs
filled (some_of p ∷ ps) [] = []
filled (some_of p ∷ ps) (g ∷ gs) = g ++ filled ps gs
filled (any_of p ∷ ps) [] = []
filled (any_of p ∷ ps) (g ∷ gs) = g ++ filled ps gs

abbrev pub ends_with_newline : Text → Bool
ends_with_newline [] = false
ends_with_newline (c ∷ []) = c == 10
ends_with_newline (c ∷ d ∷ s) = ends_with_newline (d ∷ s)

capture-some :
    (k : Text → Option (List Text)) (g s : Text) (gs : List Text)
    → capture k (g, s) ≡ some gs
    → (r : List Text) × (k s ≡ some r) × (gs ≡ g ∷ r)
unfolding capture
capture-some k [] s gs h = cc
capture-some k (c ∷ g) s gs h = elim (Option-cases (k s)) [
  | inl e ↦ absurd (ground (arith, h, e))
  | inr (r, e) ↦ (r, e, ground (arith, h, e))
]

capture-ne :
    (k : Text → Option (List Text)) (g s : Text) (gs : List Text)
    → capture k (g, s) ≡ some gs
    → g ≡ []
    → ⊥
unfolding capture
capture-ne k [] s gs h e = cc
capture-ne k (c ∷ g) s gs h e = cc

prepend-some :
    (g : Text) (o : Option (List Text)) (gs : List Text)
    → prepend g o ≡ some gs
    → (r : List Text) × (o ≡ some r) × (gs ≡ g ∷ r)
prepend-some g none gs h = cc
prepend-some g (some r) gs h = (r, refl, ground (arith, h))

pub groups-Fits : (ps : Pattern) (s : Text) (gs : List Text) → groups ps s ≡ some gs → Fits ps gs
unfolding groups at_end
groups-Fits [] s [] h = tt
groups-Fits [] s (g ∷ gs) h = ground arith
groups-Fits (lit l ∷ ps) s gs h = elim (Option-cases (strip_prefix l s)) [
  | inl e ↦ absurd (ground (arith, h, e))
  | inr (r, e) ↦ groups-Fits ps r gs (rw (e, groups) at h)
]
groups-Fits (some_of p ∷ ps) s gs h =
    let (r, e, d) = capture-some (groups ps) (span p s).0 (span p s).1 gs h in
    rw d (
      (capture-ne (groups ps) (span p s).0 (span p s).1 gs h, span-All p s),
      groups-Fits ps (span p s).1 r e,
    )
groups-Fits (any_of p ∷ ps) s gs h =
    let (r, e, d) = prepend-some (span p s).0 (groups ps (span p s).1) gs h in
    rw d (span-All p s, groups-Fits ps (span p s).1 r e)

strip_prefix-some : (l s r : Text) → strip_prefix l s ≡ some r → s ≡ l ++ r
unfolding strip_prefix
strip_prefix-some [] s r h = ground (arith, h)
strip_prefix-some (c ∷ l) [] r h = cc
strip_prefix-some (c ∷ l) (d ∷ s) r h = elim (Bool-cases (c == d)) [
  | inl e ↦
      let k : strip_prefix l s ≡ some r = rw (e, strip_prefix) at h in
      let same : c ≡ d = (==_iff c d).0 e in ground (arith, strip_prefix-some l s r k, same)
  | inr e ↦ absurd (ground (arith, h, e))
]

ends_with_newline-append :
    (a b : Text) → ends_with_newline (a ++ b) ≡ false → ends_with_newline b ≡ false
ends_with_newline-append [] b h = h
ends_with_newline-append (c ∷ []) [] h = refl
ends_with_newline-append (c ∷ []) (d ∷ b) h = h
ends_with_newline-append (c ∷ d ∷ a) b h = ends_with_newline-append (d ∷ a) b h

pub groups-filled :
    (ps : Pattern) (s : Text) (gs : List Text)
    → groups ps s ≡ some gs
    → ends_with_newline s ≡ false
    → filled ps gs ≡ s
unfolding groups at_end
groups-filled [] [] gs h n = refl
groups-filled [] (c ∷ []) gs h n = ground (arith, h, n)
groups-filled [] (c ∷ d ∷ s) gs h n = cc
groups-filled (lit l ∷ ps) s gs h n = elim (Option-cases (strip_prefix l s)) [
  | inl e ↦ absurd (ground (arith, h, e))
  | inr (r, e) ↦
      let whole = strip_prefix-some l s r e in
      ap (λ t. l ++ t)
        (groups-filled ps r gs (rw (e, groups) at h) (ends_with_newline-append l r (rw whole at n)))
      ∙ sym whole
]
groups-filled (some_of p ∷ ps) s gs h n =
    let (r, e, d) = capture-some (groups ps) (span p s).0 (span p s).1 gs h in
    let ends = ends_with_newline-append (span p s).0 (span p s).1 (rw (span-join p s) n) in
    rw d (ap (λ t. (span p s).0 ++ t) (groups-filled ps (span p s).1 r e ends) ∙ span-join p s)
groups-filled (any_of p ∷ ps) s gs h n =
    let (r, e, d) = prepend-some (span p s).0 (groups ps (span p s).1) gs h in
    let ends = ends_with_newline-append (span p s).0 (span p s).1 (rw (span-join p s) n) in
    rw d (ap (λ t. (span p s).0 ++ t) (groups-filled ps (span p s).1 r e ends) ∙ span-join p s)
