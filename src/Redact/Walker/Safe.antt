-- ===== src/Redact/Walker/Safe.antt =====
-- What a step of the walk of `http/redact/walker.py` keeps.
use containers_nix.Prelude.{
  ℕ, ◌+◌, ◌≡◌, sym, ap, subst, ◌∙◌, inl, inr, Bool, true, false, ◌&&◌, Option, none, some, List, [],
  ◌∷◌, ◌++◌, String, arith, if◌then◌else◌, Bool-cases, Option-cases,
}
use mathlib.Core.Option.{some-injective}
use containers_nix.Prelude.Dict.{one_of}
use containers_nix.Value.{Value, obj, Fields, field, end, Items, cons, nil}
use containers_nix.Redact.Model.{Step, key, index, Out, Policy}
use containers_nix.Redact.Rules.{run_cmd_of, match_rce, match_ota_shape}
use containers_nix.Redact.Walker.{
  Kept, drop, keep, Walked, Visit, add_item, then_items, walk_items, Cleaned, add_field,
  walk_fields, rewrite_object, object_left, walk_dict,
}
use containers_nix.Redact.Walker.Everywhere.{AllFields, AllItems}
use containers_nix.Redact.Walker.Loop.{then_fields-some}

-- A walk keeps only values with this property.
abbrev pub Gives {ℓ} : (Value → Type ℓ) → Visit → Type ℓ
Gives P visit =
    (v : Value) (p : List Step) (o : Out) (w : Value) (next : Out)
    → visit v p o ≡ some (keep w, next)
    → P w

module _ {ℓ} (P : Value → Type ℓ) (visit : Visit) (gives : Gives P visit) where
  add_item-All :
      (v : Value) (p : List Step) (o : Out) (got : Kept) (next : Out) (xs : Items)
      → visit v p o ≡ some (got, next)
      → AllItems P xs
      → AllItems P (add_item got xs)
  add_item-All v p o drop next xs e h = h
  add_item-All v p o (keep w) next xs e h = (gives v p o w next e, h)

  add_field-All :
      (k : String) (v : Value) (p : List Step) (o : Out) (got : Kept) (next : Out) (c : Cleaned)
      → visit v p o ≡ some (got, next)
      → AllFields P c.cleaned
      → AllFields P (add_field k got c).cleaned
  add_field-All k v p o drop next c e h = h
  add_field-All k v p o (keep w) next c e h = (gives v p o w next e, h)

  pub walk_fields-All :
      (path : List Step) (seen : List String) (fs : Fields) (out : Out) (c : Cleaned) (last : Out)
      → walk_fields visit path seen fs out ≡ some (c, last)
      → AllFields P c.cleaned
  unfolding walk_fields
  walk_fields-All path seen end out c last h =
      subst (AllFields P) (ap (λ (x : Cleaned × Out). x.0.cleaned) (some-injective _ _ h)) tt
  walk_fields-All path seen (field i v rest) out c last h = elim (Bool-cases (one_of i seen)) [
    | inl old ↦ walk_fields-All path seen rest out c last (rw (old, walk_fields) at h)
    | inr new ↦ elim (Option-cases (visit v (path ++ key i ∷ []) out)) [
      | inl e ↦
          let no : ◌≡◌ {A = Option (Cleaned × Out)} none (some (c, last)) =
            rw (new, e, walk_fields) at h in
          cc
      | inr ((got, next), e) ↦
          let (d, r, made) =
            then_fields-some i got (walk_fields visit path (i ∷ seen) rest next) c last
              (rw (new, e, walk_fields) at h) in
          subst (λ (x : Cleaned). AllFields P x.cleaned) made
            (add_field-All i v (path ++ key i ∷ []) out got next d e
              (walk_fields-All path (i ∷ seen) rest next d last r))
    ]
  ]

  then_items-some :
      (got : Kept) (r : Option (Items × Out)) (xs : Items) (last : Out)
      → then_items got r ≡ some (xs, last)
      → (ys : Items) × (r ≡ some (ys, last)) × (add_item got ys ≡ xs)
  then_items-some got none xs last h = cc
  then_items-some got (some (ys, out)) xs last h = (ys, ground (arith, h), ground (arith, h))

  pub walk_items-All :
      (path : List Step) (i : ℕ) (vs : Items) (out : Out) (xs : Items) (last : Out)
      → walk_items visit path i vs out ≡ some (xs, last)
      → AllItems P xs
  unfolding walk_items
  walk_items-All path i nil out xs last h =
      subst (AllItems P) (ap (λ (x : Items × Out). x.0) (some-injective _ _ h)) tt
  walk_items-All path i (cons v vs) out xs last h =
      elim (Option-cases (visit v (path ++ index i ∷ []) out)) [
        | inl e ↦
            let no : ◌≡◌ {A = Option (Items × Out)} none (some (xs, last)) =
              rw (e, walk_items) at h in
            cc
        | inr ((got, next), e) ↦
            let (ys, r, made) =
              then_items-some got (walk_items visit path (i + 1) vs next) xs last
                (rw (e, walk_items) at h) in
            subst (AllItems P) made (
              add_item-All v (path ++ index i ∷ []) out got next ys e
                (walk_items-All path (i + 1) vs next ys last r))
      ]

object_left-keep :
    (l : Bool) (r : Option (Cleaned × Out)) (w : Value) (last : Out)
    → object_left l r ≡ some (keep w, last)
    → (c : Cleaned) × (r ≡ some (c, last)) × (w ≡ obj c.cleaned)
object_left-keep l none w last h = cc
object_left-keep l (some (c, out)) w last h = elim (Bool-cases (c.tainted && l)) [
  | inl y ↦
      let no : ◌≡◌ {A = Walked} (some (drop, out)) (some (keep w, last)) =
        ap (λ (b : Bool). if b then some (drop, out) else some (keep (obj c.cleaned), out)) (sym y)
        ∙ h in
      cc
  | inr n ↦
      let kept : ◌≡◌ {A = Walked} (some (keep (obj c.cleaned), out)) (some (keep w, last)) =
        ap (λ (b : Bool). if b then some (drop, out) else some (keep (obj c.cleaned), out)) (sym n)
        ∙ h in
      (c, ground (arith, kept), ground (arith, kept))
]

pub match_rce-none :
    (node : Fields) (path : List Step) (policy : Policy) (out : Out)
    → policy.block_rce ≡ true
    → (match_rce node path policy out).0 ≡ false
    → run_cmd_of node ≡ none
unfolding match_rce
match_rce-none node path policy out b h = elim (Option-cases (run_cmd_of node)) [
  | inl e ↦ e
  | inr (cmd, e) ↦ absurd (ground (arith, b, h, e))
]

-- An object that is kept was no command, and is what the loop leaves of the rewritten object.
pub walk_dict-keep :
    (visit : Visit) (node : Fields) (path : List Step) (policy : Policy) (l : Bool) (out : Out)
    (w : Value) (last : Out)
    → walk_dict visit node path policy l out ≡ some (keep w, last)
    → ((match_rce node path policy out).0 ≡ false)
      × ((o : Out) × (o' : Out) × (c : Cleaned) × (walk_fields visit path []
              (rewrite_object node path policy o).0
              o'
            ≡ some (c, last))
          × (w ≡ obj c.cleaned))
unfolding walk_dict
walk_dict-keep visit node path policy l out w last h =
    elim (Bool-cases (match_rce node path policy out).0) [
      | inl y ↦
          let no : ◌≡◌ {A = Walked} (some (drop, (match_rce node path policy out).1))
              (some (keep w, last)) =
            rw (y, walk_dict) at h in
          cc
      | inr n ↦
          let out1 = (match_rce node path policy out).1 in
          elim (Bool-cases (match_ota_shape node path policy out1).0) [
            | inl y ↦
                let no : ◌≡◌ {A = Walked} (some (drop, (match_ota_shape node path policy out1).1))
                    (some (keep w, last)) =
                  rw (n, y, walk_dict) at h in
                cc
            | inr m ↦
                let out2 = (match_ota_shape node path policy out1).1 in
                let (c, r, made) = object_left-keep l _ w last (rw (n, m, walk_dict) at h) in
                (n, (out2, (rewrite_object node path policy out2).1, c, r, made))
          ]
    ]
