-- ===== src/Redact/Walker/Loop.antt =====
-- What the loop over an object's fields in `http/redact/walker.py` leaves.
use containers_nix.Prelude.{
  ◌≡◌, sym, ap, subst, inl, inr, Bool, true, false, Option, none, some, List, [], ◌∷◌, ◌++◌, String,
  str_eq, arith, Bool-cases, Option-cases, eq_iff,
}
use mathlib.Core.Option.{some-injective}
use containers_nix.Prelude.Dict.{one_of}
use containers_nix.Value.{Value, Fields, field, end, field_of}
use containers_nix.Redact.Model.{Step, key, Out}
use containers_nix.Redact.Walker.{
  Kept, drop, keep, Visit, Cleaned, add_field, then_fields, walk_fields,
}

pub not_true : (b : Bool) → b ≡ false → b ≡ true → ⊥
not_true b h k = cc

abbrev pub From : Visit → String → Fields → Value → Type 0
From visit k fs w =
    (v : Value) × (p : List Step) × (o : Out) × (next : Out) × (field_of k fs ≡ some v)
    × (visit v p o ≡ some (keep w, next))

From-skip :
    (visit : Visit) (k i : String) (v : Value) (fs : Fields) (w : Value)
    → str_eq i k ≡ false
    → From visit k fs w
    → From visit k (field i v fs) w
unfolding field_of
From-skip visit k i v fs w n (x, p, o, next, e, got) = (x, p, o, next, rw n e, got)

pub then_fields-some :
    (k : String) (got : Kept) (r : Option (Cleaned × Out)) (c : Cleaned) (last : Out)
    → then_fields k got r ≡ some (c, last)
    → (d : Cleaned) × (r ≡ some (d, last)) × (add_field k got d ≡ c)
then_fields-some k got none c last h = cc
then_fields-some k got (some (d, out)) c last h = (d, ground (arith, h), ground (arith, h))

-- The head of the loop, with what is left of it.
left-field_of :
    (k i : String) (visit : Visit) (path : List Step) (seen : List String) (v : Value)
    (rest : Fields) (out : Out) (got : Kept) (next : Out) (d : Cleaned) (last : Out) (w : Value)
    → one_of i seen ≡ false
    → visit v (path ++ key i ∷ []) out ≡ some (got, next)
    → (field_of k d.cleaned ≡ some w → (one_of k (i ∷ seen) ≡ false) × From visit k rest w)
    → field_of k (add_field i got d).cleaned ≡ some w
    → (one_of k seen ≡ false) × From visit k (field i v rest) w
unfolding field_of one_of
left-field_of k i visit path seen v rest out drop next d last w new e go q =
    let (fresh, from) = go q in
    (ground (arith, fresh), From-skip visit k i v rest w (ground (arith, fresh)) from)
left-field_of k i visit path seen v rest out (keep u) next d last w new e go q =
    elim (Bool-cases (str_eq i k)) [
      | inl y ↦
          let same_key = (eq_iff i k).0 y in
          let same_value : u ≡ w = some-injective u w (rw y at q) in
          (rw (← same_key) new, (v, path ++ key i ∷ [], out, next, rw y, rw (← same_value) e))
      | inr n ↦
          let (fresh, from) = go (rw n at q) in
          (ground (arith, fresh), From-skip visit k i v rest w n from)
    ]

-- A field that is left was there, under a key that had not come before, and is what its visit gave.
pub walk_fields-field_of :
    (k : String) (visit : Visit) (path : List Step) (seen : List String) (fs : Fields) (out : Out)
    (c : Cleaned) (last : Out) (w : Value)
    → walk_fields visit path seen fs out ≡ some (c, last)
    → field_of k c.cleaned ≡ some w
    → (one_of k seen ≡ false) × From visit k fs w
unfolding walk_fields field_of one_of
walk_fields-field_of k visit path seen end out c last w h q =
    let empty : end ≡ c.cleaned = ap (λ (x : Cleaned × Out). x.0.cleaned) (some-injective _ _ h) in
    let none_there : ◌≡◌ {A = Option Value} none (some w) =
      subst (λ x. field_of k x ≡ some w) (sym empty) q in
    cc
walk_fields-field_of k visit path seen (field i v rest) out c last w h q =
    elim (Bool-cases (one_of i seen)) [
      | inl old ↦
          let (fresh, from) =
            walk_fields-field_of k visit path seen rest out c last w (rw (old, walk_fields) at h)
              q in
          elim (Bool-cases (str_eq i k)) [
            | inl y ↦ absurd (not_true (one_of i seen) (rw ((eq_iff i k).0 y) fresh) old)
            | inr n ↦ (fresh, From-skip visit k i v rest w n from)
          ]
      | inr new ↦ elim (Option-cases (visit v (path ++ key i ∷ []) out)) [
        | inl e ↦
            let no : ◌≡◌ {A = Option (Cleaned × Out)} none (some (c, last)) =
              rw (new, e, walk_fields) at h in
            cc
        | inr ((got, next), e) ↦
            let (d, r, made) =
              then_fields-some i got (walk_fields visit path (i ∷ seen) rest next) c last
                (rw (new, e, walk_fields) at h) in
            left-field_of k i visit path seen v rest out got next d last w new e
              (walk_fields-field_of k visit path (i ∷ seen) rest next d last w r) (rw made q)
      ]
    ]
