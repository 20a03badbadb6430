-- ===== src/Redact/Walker/Everywhere.antt =====
-- A property of every object in a value, the objects that a text encodes included, for the bodies that
-- `http/redact/walker.py` walks.
use containers_nix.Prelude.{
  ℕ, zero, suc, ◌≡◌, refl, inl, inr, ◌⊎◌, Bool, true, false, ◌&&◌, Option, none, some, [], ◌∷◌,
  String, str_eq, arith, Bool-cases, eq_iff, ◌==◌, ==_iff,
}
use containers_nix.Codec.{Text}
use containers_nix.Value.{Value, str, obj, arr, Fields, field, end, Items, cons, nil, field_of}
use containers_nix.Value.Equal.{same, same_fields, same_items, text_eq}
use containers_nix.Redact.Walker.{opened}

abbrev pub AllFields {ℓ} : (Value → Type ℓ) → Fields → Type ℓ
AllFields P end = Unit
AllFields P (field k v rest) = P v × AllFields P rest

abbrev pub AllItems {ℓ} : (Value → Type ℓ) → Items → Type ℓ
AllItems P nil = Unit
AllItems P (cons v rest) = P v × AllItems P rest

pub and_true : (x y : Bool) → (x && y) ≡ true → (x ≡ true) × (y ≡ true)
and_true true y h = (refl, h)
and_true false y h = cc

-- Equal objects have equal values at a key, or none.
pub same_fields-field_of :
    (k : String) (a b : Fields)
    → same_fields a b ≡ true
    → ((field_of k a ≡ none) × (field_of k b ≡ none))
      ⊎ ((v w : Value) × (field_of k a ≡ some v) × (field_of k b ≡ some w) × (same v w ≡ true))
unfolding same_fields field_of
same_fields-field_of k end end h = inl (refl, refl)
same_fields-field_of k end (field j w b) h = cc
same_fields-field_of k (field i v a) end h = cc
same_fields-field_of k (field i v a) (field j w b) h =
    let (names, rest) = and_true (str_eq i j && same v w) (same_fields a b) h in
    let (name, value) = and_true (str_eq i j) (same v w) names in
    let e : i ≡ j = (eq_iff i j).0 name in
    elim (Bool-cases (str_eq j k)) [
      | inl y ↦ inr (v, w, rw (e, y), rw y, value)
      | inr n ↦ rw (e, n) (same_fields-field_of k a b rest)
    ]

pub text_eq_sound : (s t : Text) → text_eq s t ≡ true → s ≡ t
unfolding text_eq
text_eq_sound [] [] h = refl
text_eq_sound [] (d ∷ t) h = cc
text_eq_sound (c ∷ s) [] h = cc
text_eq_sound (c ∷ s) (d ∷ t) h =
    let (e, rest) = and_true (c == d) (text_eq s t) h in
    ground (arith, (==_iff c d).0 e, text_eq_sound s t rest)

module _ {ℓ} (loads : Text → Option Value) (P : Fields → Type ℓ) where
  -- `P` holds of every object down to this depth, those that a text encodes included.
  abbrev pub Everywhere : ℕ → Value → Type ℓ
  Everywhere zero v = Unit
  Everywhere (suc n) (obj fs) = P fs × AllFields (Everywhere n) fs
  Everywhere (suc n) (arr xs) = AllItems (Everywhere n) xs
  Everywhere (suc n) (str s) = (v : Value) → opened loads s ≡ some v → Everywhere n v
  Everywhere (suc n) v = Unit

  module _ (carries : (a b : Fields) → same_fields a b ≡ true → P a → P b) where
    same-Everywhere_items :
        (n : ℕ)
        → ((a b : Value) → same a b ≡ true → Everywhere n a → Everywhere n b)
        → (xs ys : Items) → same_items xs ys ≡ true
        → AllItems (Everywhere n) xs
        → AllItems (Everywhere n) ys
    unfolding same_items
    same-Everywhere_items n go nil nil h c = tt
    same-Everywhere_items n go nil (cons w ys) h c = cc
    same-Everywhere_items n go (cons v xs) nil h c = tt
    same-Everywhere_items n go (cons v xs) (cons w ys) h c =
        let (e, rest) = and_true (same v w) (same_items xs ys) h in
        (go v w e c.0, same-Everywhere_items n go xs ys rest c.1)

    same-Everywhere_fields :
        (n : ℕ)
        → ((a b : Value) → same a b ≡ true → Everywhere n a → Everywhere n b)
        → (xs ys : Fields) → same_fields xs ys ≡ true
        → AllFields (Everywhere n) xs
        → AllFields (Everywhere n) ys
    unfolding same_fields
    same-Everywhere_fields n go end end h c = tt
    same-Everywhere_fields n go end (field j w ys) h c = cc
    same-Everywhere_fields n go (field i v xs) end h c = tt
    same-Everywhere_fields n go (field i v xs) (field j w ys) h c =
        let (names, rest) = and_true (str_eq i j && same v w) (same_fields xs ys) h in
        (
          go v w (and_true (str_eq i j) (same v w) names).1 c.0,
          same-Everywhere_fields n go xs ys rest c.1,
        )

    -- It holds of equal values alike.
    pub same-Everywhere : (n : ℕ) (a b : Value) → same a b ≡ true → Everywhere n a → Everywhere n b
    unfolding same
    same-Everywhere zero a b h c = tt
    same-Everywhere (suc n) (obj a) (obj b) h c =
        (carries a b h c.0, same-Everywhere_fields n (same-Everywhere n) a b h c.1)
    same-Everywhere (suc n) (arr a) (arr b) h c =
        same-Everywhere_items n (same-Everywhere n) a b h c
    same-Everywhere (suc n) (str s) (str t) h c = rw (← text_eq_sound s t h) c
    same-Everywhere (suc n) v (obj b) h c = absurd (ground arith)
    same-Everywhere (suc n) v (arr b) h c = absurd (ground arith)
    same-Everywhere (suc n) v (str t) h c = absurd (ground arith)
    same-Everywhere (suc n) v w h c = tt
