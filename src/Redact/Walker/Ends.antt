-- ===== src/Redact/Walker/Ends.antt =====
-- The walk of `http/redact/walker.py` ends.
use containers_nix.Prelude.{
  ℕ, zero, suc, ◌+◌, ◌≤◌, ◌≡◌, refl, ap, inl, inr, Bool, true, false, ◌&&◌, Option, none, some,
  List, [], ◌∷◌, ◌++◌, String, str_eq, arith, if◌then◌else◌, Bool-cases, Option-cases, length,
}
use containers_nix.Prelude.Dict.{one_of}
use containers_nix.Codec.{Text, lstrip}
use containers_nix.Value.{
  Value, null, bool, int, float, str, bytes, obj, arr, Fields, field, end, Items, cons, nil,
  with_field,
}
use containers_nix.Value.Equal.{same}
use containers_nix.Redact.Model.{Step, Out, Ours, Policy, index, key}
use containers_nix.Redact.Rules.{match_rce, match_ota_shape}
use containers_nix.Redact.Walker.{
  Kept, drop, keep, Walked, Visit, walk_items, then_items, Cleaned, walk_fields, then_fields,
  rewrite_object, object_left, walk_dict, opened, opens, reencoded, walk_json_string, list_left,
  walk,
}
use containers_nix.Redact.Walker.Patched.{OursAll, rewrite_object-keeps}
use containers_nix.Redact.Walker.Everywhere.{AllFields, AllItems}
use containers_nix.Redact.Walker.Whole.{container-some, if-some}

-- How much there is in a value.
unfoldable mutual
  pub weight : Value → ℕ
  weight (str s) = suc (length s)
  weight (obj fs) = suc (weight_fields fs)
  weight (arr xs) = suc (weight_items xs)
  weight v = 1

  pub weight_fields : Fields → ℕ
  weight_fields end = 0
  weight_fields (field k v fs) = weight v + weight_fields fs

  pub weight_items : Items → ℕ
  weight_items nil = 0
  weight_items (cons v xs) = weight v + weight_items xs

-- A visit that has fuel enough for this value.
abbrev pub Ends : Visit → Value → Type 0
Ends visit v = (p : List Step) (o : Out) → (r : Kept × Out) × (visit v p o ≡ some r)

module _ (visit : Visit) where
  then_items-Ends :
      (got : Kept) (r : Option (Items × Out))
      → ((x : Items × Out) × (r ≡ some x))
      → (x : Items × Out) × (then_items got r ≡ some x)
  then_items-Ends got none (x, e) = cc
  then_items-Ends got (some (ys, out)) h = (_, refl)

  walk_items-Ends :
      (path : List Step) (i : ℕ) (xs : Items) (out : Out)
      → AllItems (Ends visit) xs
      → (x : Items × Out) × (walk_items visit path i xs out ≡ some x)
  unfolding walk_items
  walk_items-Ends path i nil out h = (_, refl)
  walk_items-Ends path i (cons v vs) out h =
      let ((got, next), e) = h.0 (path ++ index i ∷ []) out in
      rw (e, walk_items)
        (then_items-Ends got (walk_items visit path (i + 1) vs next)
          (walk_items-Ends path (i + 1) vs next h.1))

  then_fields-Ends :
      (k : String) (got : Kept) (r : Option (Cleaned × Out))
      → ((x : Cleaned × Out) × (r ≡ some x))
      → (x : Cleaned × Out) × (then_fields k got r ≡ some x)
  then_fields-Ends k got none (x, e) = cc
  then_fields-Ends k got (some (ys, out)) h = (_, refl)

  walk_fields-Ends :
      (path : List Step) (seen : List String) (fs : Fields) (out : Out)
      → AllFields (Ends visit) fs
      → (x : Cleaned × Out) × (walk_fields visit path seen fs out ≡ some x)
  unfolding walk_fields
  walk_fields-Ends path seen end out h = (_, refl)
  walk_fields-Ends path seen (field k v rest) out h = elim (Bool-cases (one_of k seen)) [
    | inl y ↦ rw (y, walk_fields) (walk_fields-Ends path seen rest out h.1)
    | inr n ↦
        let ((got, next), e) = h.0 (path ++ key k ∷ []) out in
        rw (n, e, walk_fields)
          (then_fields-Ends k got (walk_fields visit path (k ∷ seen) rest next)
            (walk_fields-Ends path (k ∷ seen) rest next h.1))
  ]

  object_left-Ends :
      (l : Bool) (r : Option (Cleaned × Out))
      → ((x : Cleaned × Out) × (r ≡ some x))
      → (x : Kept × Out) × (object_left l r ≡ some x)
  object_left-Ends l none (x, e) = cc
  object_left-Ends l (some (c, out)) h = elim (Bool-cases (c.tainted && l)) [
    | inl y ↦ (
      (drop, out),
      ap (λ (b : Bool). if b then some (drop, out) else some (keep (obj c.cleaned), out)) y,
    )
    | inr n ↦ (
      (keep (obj c.cleaned), out),
      ap (λ (b : Bool). if b then some (drop, out) else some (keep (obj c.cleaned), out)) n,
    )
  ]

  walk_dict-Ends :
      (node : Fields) (path : List Step) (policy : Policy) (l : Bool) (out : Out)
      → ((o : Out) → AllFields (Ends visit) (rewrite_object node path policy o).0)
      → (x : Kept × Out) × (walk_dict visit node path policy l out ≡ some x)
  unfolding walk_dict
  walk_dict-Ends node path policy l out h = elim (Bool-cases (match_rce node path policy out).0) [
    | inl y ↦ rw (y, walk_dict) (_, refl)
    | inr n ↦
        let out1 = (match_rce node path policy out).1 in
        elim (Bool-cases (match_ota_shape node path policy out1).0) [
          | inl y ↦ rw (n, y, walk_dict) (_, refl)
          | inr m ↦
              let out2 = (match_ota_shape node path policy out1).1 in
              rw (n, m, walk_dict)
                (object_left-Ends l _
                  (walk_fields-Ends path [] _ (rewrite_object node path policy out2).1 (h out2)))
        ]
  ]

with_field-All :
    (P : Value → Type 0) (k : String) (v : Value) (fs : Fields)
    → P v
    → AllFields P fs
    → AllFields P (with_field k v fs)
unfolding with_field
with_field-All P k v end p h = (p, tt)
with_field-All P k v (field j w fs) p h = elim (Bool-cases (str_eq j k)) [
  | inl y ↦ rw (y, with_field) (p, h.1)
  | inr n ↦ rw (n, with_field) (h.0, with_field-All P k v fs p h.1)
]

-- A visit ends for every value that is no heavier than this.
abbrev EndsUpTo : ℕ → ℕ → Visit → Type 0
EndsUpTo K n visit = (v : Value) → weight v + K ≤ n → Ends visit v

fields-Ends :
    (K n : ℕ) (visit : Visit)
    → EndsUpTo K n visit
    → (fs : Fields) → weight_fields fs + K ≤ n
    → AllFields (Ends visit) fs
unfolding weight_fields
fields-Ends K n visit ends end h = tt
fields-Ends K n visit ends (field k v fs) h =
    (ends v (omega (arith, h)), fields-Ends K n visit ends fs (omega (arith, h)))

items-Ends :
    (K n : ℕ) (visit : Visit)
    → EndsUpTo K n visit
    → (xs : Items) → weight_items xs + K ≤ n
    → AllItems (Ends visit) xs
unfolding weight_items
items-Ends K n visit ends nil h = tt
items-Ends K n visit ends (cons v xs) h =
    (ends v (omega (arith, h)), items-Ends K n visit ends xs (omega (arith, h)))

weight-pos : (v : Value) → 1 ≤ weight v
unfolding weight
weight-pos (str s) = omega arith
weight-pos (obj fs) = omega arith
weight-pos (arr xs) = omega arith
weight-pos v = omega arith

list_left-Ends :
    (r : Option (Items × Out))
    → ((x : Items × Out) × (r ≡ some x))
    → (x : Kept × Out) × (list_left r ≡ some x)
list_left-Ends none (x, e) = cc
list_left-Ends (some (xs, out)) h = (_, refl)

module _ (loads : Text → Option Value) (dumps : Value → Text)
    (shrinks : (s : Text) (v : Value) → loads s ≡ some v → weight v ≤ length s) where
  opened-shrinks : (s : Text) (v : Value) → opened loads s ≡ some v → weight v ≤ length s
  unfolding opened
  opened-shrinks s v h = shrinks s v (container-some (loads s) v (if-some (opens (lstrip s)) _ v h))

  reencoded-Ends :
      (s : Text) (inner : Value) (r : Walked)
      → ((x : Kept × Out) × (r ≡ some x))
      → (x : Kept × Out) × (reencoded loads dumps s inner r ≡ some x)
  reencoded-Ends s inner none (x, e) = cc
  reencoded-Ends s inner (some (drop, out)) h = (_, refl)
  reencoded-Ends s inner (some (keep got, out)) h = elim (Bool-cases (same got inner)) [
    | inl y ↦ rw y (_, refl)
    | inr n ↦ rw n (_, refl)
  ]

  string-Ends :
      (visit : Visit) (s : Text)
      → ((v : Value) → opened loads s ≡ some v → Ends visit v)
      → (p : List Step) (o : Out)
      → (x : Kept × Out) × (walk_json_string loads dumps visit s p o ≡ some x)
  unfolding walk_json_string
  string-Ends visit s ends p o = elim (Option-cases (opened loads s)) [
    | inl e ↦ rw (e, walk_json_string) (_, refl)
    | inr (v, e) ↦ rw (e, walk_json_string) (reencoded-Ends s v (visit v p o) (ends v e p o))
  ]

  module _ (policy : Policy) (K : ℕ)
      (ours : (device : Ours)
        → policy.device ≡ some device
        → OursAll
            (λ k v. (n : ℕ) → K ≤ n → Ends (walk loads dumps n policy false) v)
            policy
            device) where
    -- The walk of a value has a result, if it is given as much fuel as there is in the value, and as
    -- what the rules write needs; if no text encodes a value with more in it than the text is long.
    pub walk-Ends :
        (n : ℕ) (l : Bool) (v : Value) → weight v + K ≤ n → Ends (walk loads dumps n policy l) v
    unfolding walk weight
    walk-Ends zero l v h p o = absurd (omega (arith, h, weight-pos v))
    walk-Ends (suc n) l (obj fs) h p o =
        let visit = walk loads dumps n policy false in
        walk_dict-Ends visit fs p policy l o λ out.
          rewrite_object-keeps (λ k v. (m : ℕ) → K ≤ m → Ends (walk loads dumps m policy false) v)
            (AllFields (Ends visit))
            (λ k v gs q. with_field-All (Ends visit) k v gs (q n (omega (arith, h)))) policy ours fs
            p out (fields-Ends K n visit (walk-Ends n false) fs (omega (arith, h)))
    walk-Ends (suc n) l (arr xs) h p o =
        let visit = walk loads dumps n policy true in
        list_left-Ends _ (
          walk_items-Ends visit p 0 xs o
            (items-Ends K n visit (walk-Ends n true) xs (omega (arith, h))))
    walk-Ends (suc n) l (str s) h p o =
        string-Ends (walk loads dumps n policy false) s
          (λ v e. walk-Ends n false v (omega (arith, h, opened-shrinks s v e))) p o
    walk-Ends (suc n) l null h p o = (_, refl)
    walk-Ends (suc n) l (bool b) h p o = (_, refl)
    walk-Ends (suc n) l (int b) h p o = (_, refl)
    walk-Ends (suc n) l (float b) h p o = (_, refl)
    walk-Ends (suc n) l (bytes b) h p o = (_, refl)
