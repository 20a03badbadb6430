-- ===== src/Redact/Walker/Whole.antt =====
-- A property of objects that every object has which the walk of `http/redact/walker.py` keeps.
use containers_nix.Prelude.{
  ℕ, zero, suc, ◌≡◌, sym, ◌∙◌, inl, inr, ◌⊎◌, Bool, true, false, Option, none, some, List, [],
  arith, if◌then◌else◌, Bool-cases, Option-cases,
}
use mathlib.Core.Option.{some-injective}
use containers_nix.Codec.{Text, lstrip}
use containers_nix.Value.{Value, null, bool, int, float, str, bytes, obj, arr, Fields, Items}
use containers_nix.Value.Equal.{same, same_fields}
use containers_nix.Redact.Model.{Step, Out, Policy}
use containers_nix.Redact.Walker.{
  drop, keep, Walked, Visit, Cleaned, walk_fields, rewrite_object, walk_dict, opened, opens,
  is_container, walk_json_string, list_left, walk,
}
use containers_nix.Redact.Walker.Everywhere.{Everywhere, same-Everywhere}
use containers_nix.Redact.Walker.Safe.{Gives, walk_fields-All, walk_items-All}

-- Each object that is kept is what the loop leaves of a rewritten object, and has the property.
abbrev pub Objects {ℓ} : (Fields → Type ℓ) → Policy → Visit → Bool → Type ℓ
Objects P policy visit l =
    (node : Fields) (path : List Step) (out : Out) (w : Value) (last : Out)
    → walk_dict visit node path policy l out ≡ some (keep w, last)
    → (o : Out) × (o' : Out) × (c : Cleaned) × (walk_fields visit path []
          (rewrite_object node path policy o).0 o'
        ≡ some (c, last))
      × (w ≡ obj c.cleaned)
      × P c.cleaned

pub kept :
    (a w : Value) (o last : Out) → ◌≡◌ {A = Walked} (some (keep a, o)) (some (keep w, last)) → w ≡ a
kept a w o last h = ground (arith, h)

pub container-some : (r : Option Value) (w : Value) → is_container r ≡ some w → r ≡ some w
container-some none w h = h
container-some (some (obj fs)) w h = h
container-some (some (arr xs)) w h = h
container-some (some v) w h = cc

pub if-some :
    (b : Bool) (r : Option Value) (w : Value) → (if b then r else none) ≡ some w → r ≡ some w
if-some true r w h = h
if-some false r w h = cc

module _ (loads : Text → Option Value) (dumps : Value → Text) where
  -- A text that is kept was no container, or is what its container came to.
  pub string-keep :
      (visit : Visit) (s : Text) (path : List Step) (out : Out) (w : Value) (last : Out)
      → walk_json_string loads dumps visit s path out ≡ some (keep w, last)
      → ((opened loads s ≡ none) × (w ≡ str s))
        ⊎ ((inner : Value) × (got : Value) × (next : Out) × (opened loads s ≡ some inner)
            × (visit inner path out ≡ some (keep got, next))
            × (((same got inner ≡ true) × (w ≡ str s)) ⊎ (w ≡ str (dumps got))))
  unfolding walk_json_string
  string-keep visit s path out w last h = elim (Option-cases (opened loads s)) [
    | inl e ↦ inl (e, kept (str s) w out last (rw (e, walk_json_string) at h))
    | inr (inner, e) ↦ elim (Option-cases (visit inner path out)) [
      | inl d ↦
          let no : ◌≡◌ {A = Walked} none (some (keep w, last)) = rw (e, d, walk_json_string) at h in
          cc
      | inr ((drop, o), d) ↦
          let no : ◌≡◌ {A = Walked} (some (drop, o)) (some (keep w, last)) =
            rw (e, d, walk_json_string) at h in
          cc
      | inr ((keep got, o), d) ↦ elim (Bool-cases (same got inner)) [
        | inl b ↦ inr (
          inner,
          got,
          o,
          e,
          d,
          inl (b, kept (str s) w o last (rw (e, d, b, walk_json_string) at h)),
        )
        | inr b ↦ inr (
          inner,
          got,
          o,
          e,
          d,
          inr (kept (str (dumps got)) w o last (rw (e, d, b, walk_json_string) at h)),
        )
      ]
    ]
  ]

  pub list-keep :
      (r : Option (Items × Out)) (w : Value) (last : Out)
      → list_left r ≡ some (keep w, last)
      → (xs : Items) × (r ≡ some (xs, last)) × (w ≡ arr xs)
  list-keep none w last h = cc
  list-keep (some (xs, out)) w last h = (xs, ground (arith, h), kept (arr xs) w out last h)

  -- What `json.dumps` writes, `json.loads` reads as the same value, where it reads it.
  module _ {ℓ} (P : Fields → Type ℓ) (policy : Policy)
      (carries : (a b : Fields) → same_fields a b ≡ true → P a → P b)
      (reads_back : (v w : Value) → loads (dumps v) ≡ some w → w ≡ v)
      (objects : (n : ℕ) (l : Bool) → Objects P policy (walk loads dumps n policy false) l) where
    opened-dumps : (v w : Value) → opened loads (dumps v) ≡ some w → w ≡ v
    unfolding opened
    opened-dumps v w h =
        reads_back v w
          (container-some (loads (dumps v)) w (if-some (opens (lstrip (dumps v))) _ w h))

    string-Everywhere :
        (m : ℕ) (visit : Visit)
        → Gives (Everywhere loads P m) visit
        → (s : Text) (path : List Step) (out : Out) (w : Value) (last : Out)
        → walk_json_string loads dumps visit s path out ≡ some (keep w, last)
        → Everywhere loads P (suc m) w
    string-Everywhere m visit gives s path out w last h =
        elim (string-keep visit s path out w last h) [
          | inl (e, d) ↦ rw d (λ v q. absurd (ground (arith, e, q)))
          | inr (inner, got, o, e, d, inl (b, q)) ↦ rw q (λ v r.
              let same_value : inner ≡ v = some-injective inner v (sym e ∙ r) in
              rw (← same_value)
                (same-Everywhere loads P carries m got inner b (gives inner path out got o d)))
          | inr (inner, got, o, e, d, inr q) ↦
              rw q (λ v r. rw (opened-dumps got v r) (gives inner path out got o d))
        ]

    pub walk-Everywhere :
        (m n : ℕ) (l : Bool) (v : Value) (p : List Step) (o : Out) (w : Value) (next : Out)
        → walk loads dumps n policy l v p o ≡ some (keep w, next)
        → Everywhere loads P m w
    unfolding walk
    walk-Everywhere zero n l v p o w next h = tt
    walk-Everywhere (suc m) zero l v p o w next h = cc
    walk-Everywhere (suc m) (suc n) l (obj fs) p o w next h =
        let (o1, o2, c, r, made, free) = objects n l fs p o w next h in
        rw made (
          free,
          walk_fields-All (Everywhere loads P m) (walk loads dumps n policy false)
              (walk-Everywhere m n false) p [] _ o2 c next r,
        )
    walk-Everywhere (suc m) (suc n) l (arr xs) p o w next h =
        let (ys, r, e) = list-keep _ w next h in
        rw e (
          walk_items-All (Everywhere loads P m) (walk loads dumps n policy true)
            (walk-Everywhere m n true) p 0 xs o ys next r)
    walk-Everywhere (suc m) (suc n) l (str s) p o w next h =
        string-Everywhere m (walk loads dumps n policy false) (walk-Everywhere m n false) s p o w
          next h
    walk-Everywhere (suc m) (suc n) l null p o w next h = rw (kept null w o next h) tt
    walk-Everywhere (suc m) (suc n) l (bool b) p o w next h = rw (kept (bool b) w o next h) tt
    walk-Everywhere (suc m) (suc n) l (int z) p o w next h = rw (kept (int z) w o next h) tt
    walk-Everywhere (suc m) (suc n) l (float z) p o w next h = rw (kept (float z) w o next h) tt
    walk-Everywhere (suc m) (suc n) l (bytes b) p o w next h = rw (kept (bytes b) w o next h) tt
