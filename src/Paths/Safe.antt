-- ===== src/Paths/Safe.antt =====
-- What `sanitize_filename` of `utils/paths.py` gives can stand as one component of a path.
use containers_nix.Prelude.{
  ℕ, zero, suc, ◌-◌, ◌≤◌, ◌≡◌, ◌≢◌, ◌⊎◌, refl, inl, inr, Bool, true, false, ◌&&◌, ◌||◌, not, [],
  ◌∷◌, ◌==◌, ltb, leb, length, take, map, select, reverse, All, All-append, All-reverse,
  length-append, arith, Bool-cases,
}
use containers_nix.Codec.{Text}
use containers_nix.Mqtt.Pattern.{span}
use containers_nix.Paths.{
  is_control, is_unsafe, is_edge, replace_unsafe, dots, dot_runs, is_empty, lstrip_edges,
  rstrip_edges, strip_edges, not_all_dots, split_at_dot, splitext, stem_and_extension, joined,
  shorten, cleaned, or_fallback, sanitize_filename, not_dot,
}

-- A character that is neither a control character nor one of the unsafe ones.
abbrev pub is_allowed : ℕ → Bool
is_allowed c = not (is_control c) && not (is_unsafe c)

abbrev Allowed : ℕ → Type 0
Allowed c = is_allowed c ≡ true

-- Whether a text starts with a space, a full stop or a dash.
abbrev pub starts_with_edge : Text → Bool
starts_with_edge [] = false
starts_with_edge (c ∷ s) = is_edge c

module _ (P : ℕ → Type 0) where
  All-lstrip_edges : (s : Text) → All P s → All P (lstrip_edges s)
  unfolding lstrip_edges
  All-lstrip_edges [] h = tt
  All-lstrip_edges (c ∷ s) h = elim (Bool-cases (is_edge c)) [
    | inl y ↦ rw y (All-lstrip_edges s h.1)
    | inr n ↦ rw n h
  ]

  All-rstrip_edges : (s : Text) → All P s → All P (rstrip_edges s)
  unfolding rstrip_edges
  All-rstrip_edges [] h = tt
  All-rstrip_edges (c ∷ s) h = elim (Bool-cases (is_empty (rstrip_edges s) && is_edge c)) [
    | inl y ↦ rw y tt
    | inr n ↦ rw n (h.0, All-rstrip_edges s h.1)
  ]

  All-strip_edges : (s : Text) → All P s → All P (strip_edges s)
  All-strip_edges s h = All-rstrip_edges (lstrip_edges s) (All-lstrip_edges s h)

  All-take : (n : ℕ) (s : Text) → All P s → All P (take n s)
  All-take zero s h = tt
  All-take (suc n) [] h = tt
  All-take (suc n) (c ∷ s) h = (h.0, All-take n s h.1)

  All-span : (p : ℕ → Bool) (s : Text) → All P s → All P (span p s).0 × All P (span p s).1
  unfolding span
  All-span p [] h = (tt, tt)
  All-span p (c ∷ s) h = elim (Bool-cases (p c)) [
    | inl y ↦ rw (y, span) ((h.0, (All-span p s h.1).0), (All-span p s h.1).1)
    | inr n ↦ rw (n, span) (tt, h)
  ]

  All-dots : P b'.' → P b'-' → (n : ℕ) → All P (dots n)
  All-dots d m zero = tt
  All-dots d m (suc zero) = (d, tt)
  All-dots d m (suc (suc n)) = (m, tt)

  All-dot_runs : P b'.' → P b'-' → (n : ℕ) (s : Text) → All P s → All P (dot_runs n s)
  unfolding dot_runs
  All-dot_runs d m n [] h = All-dots d m n
  All-dot_runs d m n (c ∷ s) h = elim (Bool-cases (c == b'.')) [
    | inl y ↦ rw y (All-dot_runs d m (suc n) s h.1)
    | inr e ↦ rw e (
        All-append P (dots n) (c ∷ dot_runs zero s) (All-dots d m n)
          (h.0, All-dot_runs d m zero s h.1))
  ]

  All-split_at_dot :
      (name : Text) (cut : Text × Text)
      → All P name
      → All P cut.0
      → All P cut.1
      → All P (split_at_dot name cut).0 × All P (split_at_dot name cut).1
  All-split_at_dot name (after, []) h a b = (h, tt)
  All-split_at_dot name (after, d ∷ before) h a b = elim (Bool-cases (not_all_dots before)) [
    | inl y ↦ rw y (All-reverse P before b.1, (b.0, All-reverse P after a))
    | inr n ↦ rw n (h, tt)
  ]

  All-splitext : (name : Text) → All P name → All P (splitext name).0 × All P (splitext name).1
  unfolding splitext
  All-splitext name h =
      let (a, b) = All-span not_dot (reverse name) (All-reverse P name h) in
      All-split_at_dot name _ h a b

  All-joined :
      (m : ℕ) (name : Text) (parts : Text × Text)
      → All P name
      → All P parts.0
      → All P parts.1
      → All P (joined m (stem_and_extension m name parts))
  All-joined m name (stem, extension) h a b =
      elim (Bool-cases (ltb 12 (length extension) || leb m (length extension))) [
        | inl y ↦ rw y (All-append P (take (m - 0) name) [] (All-take (m - 0) name h) tt)
        | inr n ↦
            rw n (All-append P (take (m - length extension) stem) extension (All-take _ stem a) b)
      ]

length-lstrip_edges : (s : Text) → length (lstrip_edges s) ≤ length s
unfolding lstrip_edges
length-lstrip_edges [] = omega arith
length-lstrip_edges (c ∷ s) = elim (Bool-cases (is_edge c)) [
  | inl y ↦ rw y (omega (arith, length-lstrip_edges s))
  | inr n ↦ rw n (omega arith)
]

length-rstrip_edges : (s : Text) → length (rstrip_edges s) ≤ length s
unfolding rstrip_edges
length-rstrip_edges [] = omega arith
length-rstrip_edges (c ∷ s) = elim (Bool-cases (is_empty (rstrip_edges s) && is_edge c)) [
  | inl y ↦ rw y (omega arith)
  | inr n ↦ rw n (omega (arith, length-rstrip_edges s))
]

length-strip_edges : (s : Text) → length (strip_edges s) ≤ length s
length-strip_edges s = omega (arith, length-rstrip_edges (lstrip_edges s), length-lstrip_edges s)

length-take : (n : ℕ) (s : Text) → length (take n s) ≤ n
length-take zero s = omega arith
length-take (suc n) [] = omega arith
length-take (suc n) (c ∷ s) = omega (arith, length-take n s)

starts-rstrip_edges :
    (s : Text) → starts_with_edge s ≡ false → starts_with_edge (rstrip_edges s) ≡ false
unfolding rstrip_edges
starts-rstrip_edges [] h = refl
starts-rstrip_edges (c ∷ s) h = elim (Bool-cases (is_empty (rstrip_edges s) && is_edge c)) [
  | inl y ↦ rw y refl
  | inr n ↦ rw n h
]

starts-lstrip_edges : (s : Text) → starts_with_edge (lstrip_edges s) ≡ false
unfolding lstrip_edges
starts-lstrip_edges [] = refl
starts-lstrip_edges (c ∷ s) = elim (Bool-cases (is_edge c)) [
  | inl y ↦ rw y (starts-lstrip_edges s)
  | inr n ↦ rw n n
]

starts-strip_edges : (s : Text) → starts_with_edge (strip_edges s) ≡ false
starts-strip_edges s = starts-rstrip_edges (lstrip_edges s) (starts-lstrip_edges s)

length-joined :
    (m : ℕ) (name : Text) (parts : Text × Text)
    → length (joined m (stem_and_extension m name parts)) ≤ m
length-joined m name (stem, extension) =
    elim (Bool-cases (ltb 12 (length extension) || leb m (length extension))) [
      | inl y ↦ rw y (omega (arith, length-append (take (m - 0) name) [], length-take (m - 0) name))
      | inr n ↦ rw n (
          ground (
            arith,
            n,
            length-append (take (m - length extension) stem) extension,
            length-take (m - length extension) stem,
          ))
    ]

dash-Allowed : Allowed b'-'
unfolding is_control is_unsafe
dash-Allowed = refl

dot-Allowed : Allowed b'.'
unfolding is_control is_unsafe
dot-Allowed = refl

replace_unsafe-Allowed : (c : ℕ) → not (is_control c) ≡ true → Allowed (replace_unsafe c)
unfolding replace_unsafe
replace_unsafe-Allowed c h = elim (Bool-cases (is_unsafe c)) [
  | inl y ↦ rw (y, replace_unsafe) dash-Allowed
  | inr n ↦ rw (n, replace_unsafe) (rw (h, n) refl)
]

replaced-Allowed :
    (s : Text) → All Allowed (map replace_unsafe (select (λ c. not (is_control c)) s))
replaced-Allowed [] = tt
replaced-Allowed (c ∷ s) = elim (Bool-cases (not (is_control c))) [
  | inl y ↦ rw (y, select) (replace_unsafe-Allowed c y, replaced-Allowed s)
  | inr n ↦ rw (n, select) (replaced-Allowed s)
]

cleaned-Allowed : (name : Text) → All Allowed (cleaned name)
unfolding cleaned
cleaned-Allowed name =
    All-strip_edges Allowed _
      (All-dot_runs Allowed dot-Allowed dash-Allowed zero _ (replaced-Allowed name))

starts-cleaned : (name : Text) → starts_with_edge (cleaned name) ≡ false
unfolding cleaned
starts-cleaned name =
    starts-strip_edges (dot_runs zero (map replace_unsafe (select (λ c. not (is_control c)) name)))

-- A name that is made from a label.
abbrev pub IsSafe : ℕ → Text → Type 0
IsSafe max_length name =
    (All (λ c. is_allowed c ≡ true) name)
    × (length name ≤ max_length)
    × (starts_with_edge name ≡ false)

shorten-IsSafe :
    (max_length : ℕ) (name : Text)
    → All Allowed name
    → starts_with_edge name ≡ false
    → IsSafe max_length (shorten max_length name)
unfolding shorten
shorten-IsSafe m name h k = elim (Bool-cases (ltb m (length name))) [
  | inl y ↦
      let parts = joined m (stem_and_extension m name (splitext name)) in
      rw (y, shorten)
        (
          All-strip_edges Allowed parts (
              All-joined Allowed m name (splitext name) h (All-splitext Allowed name h).0
                (All-splitext Allowed name h).1),
          omega (arith, length-strip_edges parts, length-joined m name (splitext name)),
          starts-strip_edges parts,
        )
  | inr n ↦ rw (n, shorten) (h, ground (arith, n), k)
]

or_fallback-IsSafe :
    (fallback : Text) (m : ℕ) (name : Text)
    → IsSafe m name
    → fallback ≢ []
    → (or_fallback fallback name ≢ [])
      × ((or_fallback fallback name ≡ fallback) ⊎ IsSafe m (or_fallback fallback name))
or_fallback-IsSafe fallback m [] h k = (k, inl refl)
or_fallback-IsSafe fallback m (c ∷ s) h k = ((λ e. cc), inr h)

-- A label becomes a name that is not empty: the fallback, or a name of at most the length asked for
-- with no control character, no separator and none of the other unsafe characters, which starts with
-- no full stop, no dash and no space; for any label and length, if the fallback is not empty.
pub sanitize_filename-IsSafe :
    (fallback : Text) (max_length : ℕ) (name : Text)
    → fallback ≢ []
    → (sanitize_filename fallback max_length name ≢ [])
      × ((sanitize_filename fallback max_length name ≡ fallback)
          ⊎ IsSafe max_length (sanitize_filename fallback max_length name))
unfolding sanitize_filename
sanitize_filename-IsSafe fallback m name k = elim (Bool-cases (is_empty (cleaned name))) [
  | inl y ↦ rw (y, sanitize_filename) (k, inl refl)
  | inr n ↦
      rw (n, sanitize_filename)
        (or_fallback-IsSafe fallback m (shorten m (cleaned name))
          (shorten-IsSafe m (cleaned name) (cleaned-Allowed name) (starts-cleaned name)) k)
]
