-- ===== src/Mqtt/Pattern.antt =====
-- The regular expressions of `mqtt/topics.py` and `mqtt/auth.py`: literal text, `[class]+` and
-- `[class]*` groups, matched greedily and anchored at both ends.
pub mod Groups
use containers_nix.Prelude.{
  ℕ, ◌≡◌, refl, sym, ap, ◌∙◌, ◌≢◌, ◌⊎◌, inl, inr, Bool, true, false, not, Option, none, some, List,
  [], ◌∷◌, ◌++◌, ◌==◌, All, arith, if◌then◌else◌, Bool-cases, Option-cases, ==_iff,
}
use containers_nix.Codec.{Text}

pub data Piece : Type 0 where
  lit : Text → Piece
  some_of : (ℕ → Bool) → Piece
  any_of : (ℕ → Bool) → Piece

abbrev pub Pattern : Type 0
Pattern = List Piece

unfoldable pub strip_prefix : Text → Text → Option Text
strip_prefix [] s = some s
strip_prefix (c ∷ p) [] = none
strip_prefix (c ∷ p) (d ∷ s) = elim (c == d) [ true ↦ strip_prefix p s | false ↦ none ]

-- The longest prefix whose characters pass the test, and what follows it.
unfoldable pub span : (ℕ → Bool) → Text → Text × Text
span p [] = ([], [])
span p (c ∷ cs) = elim (p c) [ true ↦ (c ∷ (span p cs).0, (span p cs).1) | false ↦ ([], c ∷ cs) ]

-- `$` stands at the end, or before a newline that ends the text.
unfoldable pub at_end : Text → Bool
at_end [] = true
at_end (c ∷ []) = c == 10
at_end (c ∷ d ∷ s) = false

abbrev pub prepend : Text → Option (List Text) → Option (List Text)
prepend g none = none
prepend g (some gs) = some (g ∷ gs)

-- A group takes one character at least.
unfoldable pub capture : (Text → Option (List Text)) → Text × Text → Option (List Text)
capture rest ([], s) = none
capture rest (c ∷ g, s) = prepend (c ∷ g) (rest s)

-- `pattern.match(text)`: the groups.
unfoldable pub groups : Pattern → Text → Option (List Text)
unfolding strip_prefix span at_end capture
groups [] s = if at_end s then some [] else none
groups (lit l ∷ ps) s = elim (strip_prefix l s) [ none ↦ none | some r ↦ groups ps r ]
groups (some_of p ∷ ps) s = capture (groups ps) (span p s)
groups (any_of p ∷ ps) s = prepend (span p s).0 (groups ps (span p s).1)

abbrev pub Passes : (ℕ → Bool) → Text → Type 0
Passes p g = (g ≢ []) × All (λ c. p c ≡ true) g

-- The groups that a match of the pattern can give.
abbrev pub Fits : Pattern → List Text → Type 0
Fits [] [] = Unit
Fits [] (g ∷ gs) = ⊥
Fits (lit l ∷ ps) gs = Fits ps gs
Fits (some_of p ∷ ps) [] = ⊥
Fits (some_of p ∷ ps) (g ∷ gs) = Passes p g × Fits ps gs
Fits (any_of p ∷ ps) [] = ⊥
Fits (any_of p ∷ ps) (g ∷ gs) = All (λ c. p c ≡ true) g × Fits ps gs

-- A group followed by this ends where this begins.
abbrev pub stops : (ℕ → Bool) → Text → Bool
stops p [] = true
stops p (c ∷ s) = not (p c)

span-append :
    (p : ℕ → Bool) (g s : Text)
    → All (λ c. p c ≡ true) g
    → stops p s ≡ true
    → span p (g ++ s) ≡ (g, s)
unfolding span
span-append p [] [] h k = refl
span-append p [] (c ∷ s) h k = elim (Bool-cases (p c)) [
  | inl e ↦ absurd (ground (arith, k, e))
  | inr e ↦ rw (e, span)
]
span-append p (c ∷ g) s h k = rw (h.0, span) (ground (arith, span-append p g s h.1 k))

pub groups-some_of :
    (p : ℕ → Bool) (ps : Pattern) (g s : Text)
    → Passes p g
    → stops p s ≡ true
    → groups (some_of p ∷ ps) (g ++ s) ≡ prepend g (groups ps s)
unfolding groups
groups-some_of p ps [] s h k = absurd (h.0 refl)
groups-some_of p ps (c ∷ g) s h k = rw (span-append p (c ∷ g) s h.1 k, capture)

pub groups-any_of :
    (p : ℕ → Bool) (ps : Pattern) (g s : Text)
    → All (λ c. p c ≡ true) g
    → stops p s ≡ true
    → groups (any_of p ∷ ps) (g ++ s) ≡ prepend g (groups ps s)
unfolding groups
groups-any_of p ps g s h k = rw (span-append p g s h k)

pub span-join : (p : ℕ → Bool) (s : Text) → (span p s).0 ++ (span p s).1 ≡ s
unfolding span
span-join p [] = refl
span-join p (c ∷ s) = elim (Bool-cases (p c)) [
  | inl e ↦ rw (e, span) (ap (◌∷◌ c) (span-join p s))
  | inr e ↦ rw (e, span)
]

pub span-All : (p : ℕ → Bool) (s : Text) → All (λ c. p c ≡ true) (span p s).0
unfolding span
span-All p [] = tt
span-All p (c ∷ s) = elim (Bool-cases (p c)) [
  | inl e ↦ rw (e, span) (e, span-All p s)
  | inr e ↦ rw (e, span) tt
]
