-- ===== src/Redact/Walker/Ours.antt =====
-- Wherever the walk of `http/redact/walker.py` leaves an address, it is ours.
use containers_nix.Prelude.{
  ℕ, zero, suc, ◌≡◌, refl, sym, ap, ◌∙◌, inl, inr, Bool, true, false, Option, none, some, List, [],
  String, arith,
}
use mathlib.Core.Option.{some-injective}
use containers_nix.Codec.{Text}
use containers_nix.Value.{Value, str, arr, Fields, cons, nil}
use containers_nix.Value.Equal.{same, same_fields, same_items}
use containers_nix.Redact.Model.{Step, Out, Ours, Policy}
use containers_nix.Redact.Walker.{
  keep, Visit, walk_items, Cleaned, walk_fields, opened, walk_json_string, walk,
}
use containers_nix.Redact.Walker.Everywhere.{
  Everywhere, same_fields-field_of, text_eq_sound, and_true,
}
use containers_nix.Redact.Walker.Loop.{walk_fields-field_of}
use containers_nix.Redact.Walker.Safe.{walk_dict-keep}
use containers_nix.Redact.Walker.Whole.{Objects, kept, string-keep, walk-Everywhere}
use containers_nix.Redact.Walker.Address.{Only, Addressed, rewrite_object-Addressed}

-- A value that the walk of a field keeps as it is, if at all.
abbrev Fixed : Visit → Value → Type 0
Fixed visit v =
    (p : List Step) (o : Out) (u : Value) (next : Out) → visit v p o ≡ some (keep u, next) → u ≡ v

-- A value that equals no other.
abbrev Rigid : Value → Type 0
Rigid v = (w : Value) → same v w ≡ true → w ≡ v

str-Rigid : (s : Text) → Rigid (str s)
unfolding same
str-Rigid s (str t) h = ap str (sym (text_eq_sound s t h))
str-Rigid s w h = absurd (ground arith)

nil-Rigid : Rigid (arr nil)
unfolding same same_items
nil-Rigid (arr nil) h = refl
nil-Rigid (arr (cons v xs)) h = cc
nil-Rigid w h = absurd (ground arith)

one-Rigid : (s : Text) → Rigid (arr (cons (str s) nil))
unfolding same same_items
one-Rigid s (arr nil) h = cc
one-Rigid s (arr (cons v nil)) h =
    ap (λ x. arr (cons x nil)) (str-Rigid s v (and_true (same (str s) v) true h).0)
one-Rigid s (arr (cons v (cons w xs))) h =
    absurd (ground (arith, (and_true (same (str s) v) false h).1))
one-Rigid s w h = absurd (ground arith)

Only-same :
    (k : String) (v : Value)
    → Rigid v
    → (a b : Fields) → same_fields a b ≡ true
    → Only k v a
    → Only k v b
Only-same k v rigid a b h only u e = elim (same_fields-field_of k a b h) [
  | inl (_, d) ↦ absurd (ground (arith, d, e))
  | inr (x, y, d, q, s) ↦
      let same_value : x ≡ v = only x d in
      let here : y ≡ u = some-injective y u (sym q ∙ e) in rigid u (rw (← same_value, ← here) s)
]

Only-cleaned :
    (k : String) (v : Value) (visit : Visit)
    → Fixed visit v
    → (path : List Step) (patched : Fields) (o : Out) (c : Cleaned) (last : Out)
    → walk_fields visit path [] patched o ≡ some (c, last)
    → Only k v patched
    → Only k v c.cleaned
Only-cleaned k v visit fixed path patched o c last r only u e =
    let (_, (x, p, q, next, found, got)) =
      walk_fields-field_of k visit path [] patched o c last u r e in
    let same_value : x ≡ v = only x found in fixed p q u next (rw (← same_value) got)

module _ (loads : Text → Option Value) (dumps : Value → Text) (policy : Policy) where
  plain-Fixed :
      (s : Text)
      → opened loads s ≡ none
      → (n : ℕ) (l : Bool) → Fixed (walk loads dumps n policy l) (str s)
  unfolding walk
  plain-Fixed s plain zero l p o u next h = cc
  plain-Fixed s plain (suc n) l p o u next h =
      elim (string-keep loads dumps (walk loads dumps n policy false) s p o u next h) [
        | inl (_, e) ↦ e
        | inr (_, _, _, e, _, _) ↦ absurd (ground (arith, plain, e))
      ]

  nil-Fixed : (n : ℕ) (l : Bool) → Fixed (walk loads dumps n policy l) (arr nil)
  unfolding walk walk_items
  nil-Fixed zero l p o u next h = cc
  nil-Fixed (suc n) l p o u next h = kept (arr nil) u o next h

  one-Fixed :
      (s : Text)
      → opened loads s ≡ none
      → (n : ℕ) (l : Bool) → Fixed (walk loads dumps n policy l) (arr (cons (str s) nil))
  unfolding walk walk_items walk_json_string
  one-Fixed s plain zero l p o u next h = cc
  one-Fixed s plain (suc zero) l p o u next h = cc
  one-Fixed s plain (suc (suc n)) l p o u next h =
      kept (arr (cons (str s) nil)) u o next (rw (plain, walk, walk_items, walk_json_string) at h)

  module _ (device : Ours) (known : policy.device ≡ some device)
      (plain_url : opened loads policy.api_url ≡ none)
      (plain_host : opened loads device.mqtt_host ≡ none) where
    Addressed-same :
        (a b : Fields)
        → same_fields a b ≡ true
        → Addressed policy device known a
        → Addressed policy device known b
    Addressed-same a b h p = (
      Only-same "apiServers" (arr (cons (str policy.api_url) nil)) (one-Rigid policy.api_url) a b h
          p.0,
      Only-same "ipServers" (arr nil) nil-Rigid a b h p.1,
      Only-same "dns" (str []) (str-Rigid []) a b h p.2,
      Only-same "mqttHost" (str device.mqtt_host) (str-Rigid device.mqtt_host) a b h p.3,
    )

    dict-Addressed :
        (n : ℕ) (l : Bool)
        → Objects (Addressed policy device known) policy (walk loads dumps n policy false) l
    unfolding opened
    dict-Addressed n l node path out w last h =
        let visit = walk loads dumps n policy false in
        let (_, (o, o', c, r, made)) = walk_dict-keep visit node path policy l out w last h in
        let (servers, ips, dns, host) = rewrite_object-Addressed policy device known node path o in
        (
          o,
          o',
          c,
          r,
          made,
          (
            Only-cleaned "apiServers" (arr (cons (str policy.api_url) nil)) visit
                (one-Fixed policy.api_url plain_url n false) path _ o' c last r servers,
            Only-cleaned "ipServers" (arr nil) visit (nil-Fixed n false) path _ o' c last r ips,
            Only-cleaned "dns" (str []) visit (plain-Fixed [] refl n false) path _ o' c last r dns,
            Only-cleaned "mqttHost" (str device.mqtt_host) visit
                (plain-Fixed device.mqtt_host plain_host n false) path _ o' c last r host,
          ),
        )

    -- For a known device, whatever a walk keeps has, in every object at any depth and in whatever
    -- texts that encode one in another, no `apiServers` but our address, no `ipServers` but the empty
    -- list, no `dns` but the empty text and no `mqttHost` but ours; whichever rules are switched off,
    -- for any fuel, path and records, if our two addresses are no texts that encode an object or a
    -- list, and what `json.dumps` writes is read back as it was.
    pub walk-Addressed :
        ((v w : Value) → loads (dumps v) ≡ some w → w ≡ v)
        → (m n : ℕ) (l : Bool) (v : Value) (p : List Step) (o : Out) (w : Value) (next : Out)
        → walk loads dumps n policy l v p o ≡ some (keep w, next)
        → Everywhere loads (Addressed policy device known) m w
    walk-Addressed reads_back =
        walk-Everywhere loads dumps (Addressed policy device known) policy Addressed-same reads_back
          dict-Addressed
