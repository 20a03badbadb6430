-- ===== src/Redact/Walker/Shell.antt =====
-- The walk of `http/redact/walker.py` as a whole, with the rule against shell commands on.
use containers_nix.Prelude.{
  ℕ, zero, suc, ◌≡◌, refl, sym, ◌∙◌, inl, inr, Bool, true, false, Option, none, some, List, [],
  String, str_eq, arith, Option-cases,
}
use containers_nix.Prelude.Dict.{one_of}
use containers_nix.Codec.{Text}
use containers_nix.Value.{Value, null, bool, int, float, str, bytes, obj, arr, Fields, field_of}
use containers_nix.Value.Equal.{same, same_fields}
use containers_nix.Redact.Model.{Step, Out, Ours, Policy}
use containers_nix.Redact.Rules.{run_cmd_of, fields_of}
use containers_nix.Redact.Walker.{keep, Visit, rewrite_object, walk_dict, walk}
use containers_nix.Redact.Walker.Patched.{field_of-with_field, OursAll, rewrite_object-keeps}
use containers_nix.Redact.Walker.Everywhere.{Everywhere, same_fields-field_of}
use containers_nix.Redact.Walker.Loop.{walk_fields-field_of}
use containers_nix.Redact.Walker.Safe.{walk_dict-keep, match_rce-none}
use containers_nix.Redact.Walker.Whole.{Objects, kept, string-keep, list-keep, walk-Everywhere}

-- What is looked up inside `user_cmd`.
abbrev pub inner_cmd : Value → Option Value
inner_cmd v = elim (fields_of (some v)) [ none ↦ none | some cmd ↦ field_of "run_cmd" cmd ]

inner-same : (v w : Value) → same v w ≡ true → inner_cmd v ≡ none → inner_cmd w ≡ none
unfolding same
inner-same (obj a) (obj b) h r = elim (same_fields-field_of "run_cmd" a b h) [
  | inl (_, e) ↦ e
  | inr (x, y, d, e, q) ↦ absurd (ground (arith, r, d))
]
inner-same v (obj b) h r = ground arith
inner-same v w h r = refl

run_cmd_of-same :
    (a b : Fields) → same_fields a b ≡ true → run_cmd_of a ≡ none → run_cmd_of b ≡ none
unfolding run_cmd_of
run_cmd_of-same a b h r = elim (same_fields-field_of "user_cmd" a b h) [
  | inl (_, e) ↦ rw (e, run_cmd_of)
  | inr (v, w, d, e, q) ↦ rw (e, run_cmd_of) (inner-same v w q (rw (d, run_cmd_of) at r))
]

-- The rules write neither of the two keys of a command.
abbrev Harmless : String → Value → Type 0
Harmless k v = (str_eq k "user_cmd" ≡ false) × (str_eq k "run_cmd" ≡ false)

harmless : (policy : Policy) (device : Ours) → OursAll Harmless policy device
harmless policy device = record {
  servers = (refl, refl);
  no_servers = (refl, refl);
  no_dns = (refl, refl);
  host = (refl, refl);
  product_key = (refl, refl);
  device_name = (refl, refl);
  device_secret = (refl, refl);
  instance_id = (refl, refl);
  capabilities = (refl, refl);
  oci = (refl, refl);
  capacity = λ v e. (refl, refl);
  cloud_product = λ v e. (refl, refl);
  id = (refl, refl);
  timezone = (refl, refl);
  locale = (refl, refl);
}

rewrite_object-cmd :
    (node : Fields) (path : List Step) (policy : Policy) (out : Out)
    → (field_of "user_cmd" (rewrite_object node path policy out).0 ≡ field_of "user_cmd" node)
      × (field_of "run_cmd" (rewrite_object node path policy out).0 ≡ field_of "run_cmd" node)
rewrite_object-cmd node path policy out =
    rewrite_object-keeps Harmless
      (λ fs.
        (field_of "user_cmd" fs ≡ field_of "user_cmd" node)
        × (field_of "run_cmd" fs ≡ field_of "run_cmd" node))
      (λ k v fs q p. (
        field_of-with_field "user_cmd" k v fs ∙ rw q.0 p.0,
        field_of-with_field "run_cmd" k v fs ∙ rw q.1 p.1,
      ))
      policy (λ device _. harmless policy device) node path out (refl, refl)

module _ (loads : Text → Option Value) (dumps : Value → Text) (policy : Policy)
    (blocks : policy.block_rce ≡ true) where
  -- What the inner object of a `user_cmd` has no `run_cmd` in, the walk leaves so.
  dict-inner :
      (visit : Visit) (node : Fields) (path : List Step) (l : Bool) (out : Out) (w : Value)
      (last : Out)
      → walk_dict visit node path policy l out ≡ some (keep w, last)
      → field_of "run_cmd" node ≡ none
      → inner_cmd w ≡ none
  unfolding one_of
  dict-inner visit node path l out w last h absent =
      let (_, (o, o', c, r, made)) = walk_dict-keep visit node path policy l out w last h in
      rw made (elim (Option-cases (field_of "run_cmd" c.cleaned)) [
        | inl e ↦ e
        | inr (u, e) ↦
            let (_, (v, p, q, next, found, _)) =
              walk_fields-field_of "run_cmd" visit path [] _ o' c last u r e in
            let gone = (rewrite_object-cmd node path policy o).1 ∙ absent in
            absurd (ground (arith, found, gone))
      ])

  -- An object that is no command when it stands under `user_cmd` is none after the walk.
  walk-inner :
      (n : ℕ) (l : Bool) (v : Value) (p : List Step) (o : Out) (w : Value) (next : Out)
      → walk loads dumps n policy l v p o ≡ some (keep w, next)
      → inner_cmd v ≡ none
      → inner_cmd w ≡ none
  unfolding walk
  walk-inner zero l v p o w next h a = cc
  walk-inner (suc n) l (obj fs) p o w next h a =
      dict-inner (walk loads dumps n policy false) fs p l o w next h a
  walk-inner (suc n) l (arr xs) p o w next h a =
      let (ys, _, e) = list-keep loads dumps _ w next h in rw e
  walk-inner (suc n) l (str s) p o w next h a =
      elim (string-keep loads dumps (walk loads dumps n policy false) s p o w next h) [
        | inl (_, e) ↦ rw e
        | inr (inner, got, _, _, _, inl (_, e)) ↦ rw e
        | inr (inner, got, _, _, _, inr e) ↦ rw e
      ]
  walk-inner (suc n) l null p o w next h a = rw (kept null w o next h)
  walk-inner (suc n) l (bool b) p o w next h a = rw (kept (bool b) w o next h)
  walk-inner (suc n) l (int z) p o w next h a = rw (kept (int z) w o next h)
  walk-inner (suc n) l (float z) p o w next h a = rw (kept (float z) w o next h)
  walk-inner (suc n) l (bytes b) p o w next h a = rw (kept (bytes b) w o next h)

  -- The object that is left is no command.
  dict-run_cmd :
      (n : ℕ) (l : Bool)
      → Objects (λ fs. run_cmd_of fs ≡ none) policy (walk loads dumps n policy false) l
  unfolding run_cmd_of one_of
  dict-run_cmd n l node path out w last h =
      let (quiet, (o, o', c, r, made)) = walk_dict-keep _ node path policy l out w last h in
      let free = match_rce-none node path policy out blocks quiet in
      (
        o,
        o',
        c,
        r,
        made,
        elim (Option-cases (field_of "user_cmd" c.cleaned)) [
          | inl e ↦ rw (e, run_cmd_of)
          | inr (u, e) ↦
              let (_, (v, p, q, next, found, got)) =
                walk_fields-field_of "user_cmd" _ path [] _ o' c last u r e in
              let before : field_of "user_cmd" node ≡ some v =
                sym (rewrite_object-cmd node path policy o).0 ∙ found in
              rw (e, run_cmd_of)
                (walk-inner n false v p q u next got (rw (before, run_cmd_of) at free))
        ],
      )

  -- No object down to this depth, those that a text encodes included, has a `user_cmd` with a `run_cmd`.
  abbrev pub NoCommand : ℕ → Value → Type 0
  NoCommand = Everywhere loads (λ fs. run_cmd_of fs ≡ none)

  -- With the rule against shell commands on, whatever a walk keeps has no object, at any depth and
  -- in whatever texts that encode one in another, whose `user_cmd` has a `run_cmd`; for any fuel,
  -- path and records, in a list or not, if what `json.dumps` writes is read back as it was.
  pub walk-NoCommand :
      ((v w : Value) → loads (dumps v) ≡ some w → w ≡ v)
      → (m n : ℕ) (l : Bool) (v : Value) (p : List Step) (o : Out) (w : Value) (next : Out)
      → walk loads dumps n policy l v p o ≡ some (keep w, next)
      → NoCommand m w
  walk-NoCommand reads_back =
      walk-Everywhere loads dumps (λ fs. run_cmd_of fs ≡ none) policy run_cmd_of-same reads_back
        dict-run_cmd
