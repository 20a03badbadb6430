-- ===== src/Paths/Runs.antt =====
-- A name of `sanitize_filename` of `utils/paths.py` that is not shortened has no `..` in it.
use containers_nix.Prelude.{
  ℕ, zero, suc, ◌≤◌, ◌≡◌, refl, inl, inr, Bool, true, false, ◌&&◌, ◌||◌, not, [], ◌∷◌, ◌++◌, ◌==◌,
  ltb, length, map, select, arith, Bool-cases,
}
use containers_nix.Codec.{Text}
use containers_nix.Paths.{
  is_control, is_edge, replace_unsafe, dots, dot_runs, is_empty, lstrip_edges, rstrip_edges,
  shorten, cleaned, or_fallback, sanitize_filename,
}

-- Whether two full stops follow each other.
unfoldable pub has_run : Text → Bool
has_run [] = false
has_run (c ∷ []) = false
has_run (c ∷ d ∷ s) = (c == b'.' && d == b'.') || has_run (d ∷ s)

plain-has_run :
    (c : ℕ) (s : Text) → (c == b'.') ≡ false → has_run s ≡ false → has_run (c ∷ s) ≡ false
unfolding has_run
plain-has_run c [] h k = refl
plain-has_run c (d ∷ s) h k = rw (h, k)

dots-has_run :
    (n c : ℕ) (s : Text)
    → (c == b'.') ≡ false
    → has_run (c ∷ s) ≡ false
    → has_run (dots n ++ c ∷ s) ≡ false
unfolding has_run
dots-has_run zero c s h k = k
dots-has_run (suc zero) c s h k = rw (h, k)
dots-has_run (suc (suc n)) c s h k = k

dot_runs-has_run : (n : ℕ) (s : Text) → has_run (dot_runs n s) ≡ false
unfolding dot_runs has_run
dot_runs-has_run zero [] = refl
dot_runs-has_run (suc zero) [] = refl
dot_runs-has_run (suc (suc n)) [] = refl
dot_runs-has_run n (c ∷ s) = elim (Bool-cases (c == b'.')) [
  | inl y ↦ rw y (dot_runs-has_run (suc n) s)
  | inr e ↦ rw e (
      dots-has_run n c (dot_runs zero s) e
        (plain-has_run c (dot_runs zero s) e (dot_runs-has_run zero s)))
]

or_false : (x y : Bool) → (x || y) ≡ false → (x ≡ false) × (y ≡ false)
or_false true y h = cc
or_false false y h = (refl, h)

rest-has_run : (c : ℕ) (s : Text) → has_run (c ∷ s) ≡ false → has_run s ≡ false
unfolding has_run
rest-has_run c [] h = refl
rest-has_run c (d ∷ s) h = (or_false (c == b'.' && d == b'.') (has_run (d ∷ s)) h).1

lstrip_edges-has_run : (s : Text) → has_run s ≡ false → has_run (lstrip_edges s) ≡ false
unfolding lstrip_edges
lstrip_edges-has_run [] h = h
lstrip_edges-has_run (c ∷ s) h = elim (Bool-cases (is_edge c)) [
  | inl y ↦ rw y (lstrip_edges-has_run s (rest-has_run c s h))
  | inr n ↦ rw n h
]

-- A text before which a character is put.
rstrip_edges-after :
    (c : ℕ) (s : Text) → has_run (c ∷ s) ≡ false → has_run (c ∷ rstrip_edges s) ≡ false
unfolding rstrip_edges has_run
rstrip_edges-after c [] h = refl
rstrip_edges-after c (d ∷ s) h =
    let (a, b) = or_false (c == b'.' && d == b'.') (has_run (d ∷ s)) h in
    elim (Bool-cases (is_empty (rstrip_edges s) && is_edge d)) [
      | inl y ↦ rw y refl
      | inr n ↦ rw (n, a) (rstrip_edges-after d s b)
    ]

rstrip_edges-has_run : (s : Text) → has_run s ≡ false → has_run (rstrip_edges s) ≡ false
unfolding rstrip_edges has_run
rstrip_edges-has_run [] h = refl
rstrip_edges-has_run (c ∷ s) h = elim (Bool-cases (is_empty (rstrip_edges s) && is_edge c)) [
  | inl y ↦ rw y refl
  | inr n ↦ rw n (rstrip_edges-after c s h)
]

cleaned-has_run : (name : Text) → has_run (cleaned name) ≡ false
unfolding cleaned
cleaned-has_run name =
    let replaced = map replace_unsafe (select (λ c. not (is_control c)) name) in
    rstrip_edges-has_run (lstrip_edges (dot_runs zero replaced))
      (lstrip_edges-has_run (dot_runs zero replaced) (dot_runs-has_run zero replaced))

or_fallback-has_run :
    (fallback name : Text)
    → has_run fallback ≡ false
    → has_run name ≡ false
    → has_run (or_fallback fallback name) ≡ false
or_fallback-has_run fallback [] h k = h
or_fallback-has_run fallback (c ∷ s) h k = k

-- A label whose cleaned form is not longer than the length asked for becomes a name with no two full
-- stops in a row, if the fallback has none.
pub sanitize_filename-has_run :
    (fallback : Text) (max_length : ℕ) (name : Text)
    → has_run fallback ≡ false
    → length (cleaned name) ≤ max_length
    → has_run (sanitize_filename fallback max_length name) ≡ false
unfolding sanitize_filename shorten
sanitize_filename-has_run fallback m name h k = elim (Bool-cases (is_empty (cleaned name))) [
  | inl y ↦ rw (y, sanitize_filename) h
  | inr n ↦
      let fits : ltb m (length (cleaned name)) ≡ false = ground (arith, k) in
      rw (n, fits, sanitize_filename)
        (or_fallback-has_run fallback (cleaned name) h (cleaned-has_run name))
]
