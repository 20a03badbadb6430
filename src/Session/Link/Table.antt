-- ===== src/Session/Link/Table.antt =====
-- The tables that the plugin of `mqtt/auth.py` looks devices and sessions up in.
use containers_nix.Prelude.{
  ℕ, ◌≡◌, refl, sym, ap, ◌∙◌, inl, inr, ◌&&◌, none, some, List, [], ◌∷◌, ◌==◌, map, if◌then◌else◌,
  arith, Bool-cases, Option-cases, ==_iff,
}
use mathlib.Core.Option.{some-injective}
use containers_nix.Codec.{Text}
use containers_nix.Value.Equal.{text_eq}
use containers_nix.Session.{Device, Plugin, by_mqtt_name, change, live_of, set_live, pop_live}
use containers_nix.Session.Link.{by_id, link, Keyed}

-- How a change of one device shows among all.
module _ (f : Device → Device) (keeps : (d : Device) → (f d).petkit_id ≡ d.petkit_id) where
  pub by_id-change :
      (i j : ℕ) (ds : List Device)
      → by_id i (change j f ds)
        ≡ (if j == i then (elim (by_id i ds) [ none ↦ none | some d ↦ some (f d) ]) else by_id i ds)
  unfolding by_id change
  by_id-change i j [] = ground arith
  by_id-change i j (d ∷ ds) = ground (arith, keeps d, by_id-change i j ds)

  pub by_id-map :
      (i : ℕ) (ds : List Device)
      → by_id i (map f ds) ≡ (elim (by_id i ds) [ none ↦ none | some d ↦ some (f d) ])
  unfolding by_id
  by_id-map i [] = refl
  by_id-map i (d ∷ ds) = ground (arith, keeps d, by_id-map i ds)

pub live_of-set_live :
    (i j s : ℕ) (l : List (ℕ × ℕ))
    → live_of i (set_live j s l) ≡ (if j == i then some s else live_of i l)
unfolding live_of set_live
live_of-set_live i j s [] = ground arith
live_of-set_live i j s ((k, r) ∷ l) = ground (arith, live_of-set_live i j s l)

pub live_of-pop_live :
    (i j : ℕ) (l : List (ℕ × ℕ)) → live_of i (pop_live j l) ≡ (if j == i then none else live_of i l)
unfolding live_of pop_live
live_of-pop_live i j [] = ground arith
live_of-pop_live i j ((k, r) ∷ l) = ground (arith, live_of-pop_live i j l)

-- A device that is found by its name is found by its id.
pub by_mqtt_name-by_id :
    (pk dn : Text) (ds : List Device) (d : Device)
    → Keyed ds
    → by_mqtt_name pk dn ds ≡ some d
    → by_id d.petkit_id ds ≡ some d
unfolding by_mqtt_name by_id
by_mqtt_name-by_id pk dn [] d u h = cc
by_mqtt_name-by_id pk dn (e ∷ ds) d u h =
    elim (Bool-cases (text_eq e.mqtt_product_key pk && text_eq e.mqtt_device_name dn)) [
      | inl y ↦
          let same : e ≡ d = some-injective e d (rw (y, by_mqtt_name) at h) in
          ground (arith, ap (λ (x : Device). x.petkit_id) same, same)
      | inr n ↦
          let k = by_mqtt_name-by_id pk dn ds d u.1 (rw (n, by_mqtt_name) at h) in
          elim (Bool-cases (e.petkit_id == d.petkit_id)) [
            | inl q ↦
                let same = (==_iff e.petkit_id d.petkit_id).0 q in
                let no : none ≡ some d = sym (rw same at (u.0)) ∙ k in cc
            | inr q ↦ rw q k
          ]
    ]

-- A change that keeps every id keeps them apart.
pub Keyed-map :
    (f : Device → Device)
    → ((d : Device) → (f d).petkit_id ≡ d.petkit_id)
    → (ds : List Device) → Keyed ds
    → Keyed (map f ds)
Keyed-map f keeps [] u = tt
Keyed-map f keeps (d ∷ ds) u =
    (rw (keeps d, by_id-map f keeps d.petkit_id ds, u.0), Keyed-map f keeps ds u.1)

pub change-map :
    (j : ℕ) (f : Device → Device) (ds : List Device)
    → change j f ds ≡ map (λ d. if d.petkit_id == j then f d else d) ds
unfolding change
change-map j f [] = refl
change-map j f (d ∷ ds) = ap (λ r. (if d.petkit_id == j then f d else d) ∷ r) (change-map j f ds)

-- A change of one device that leaves its flag alone does not show in the table of links.
pub link-change :
    (f : Device → Device) (j i : ℕ) (st : Plugin)
    → ((d : Device) → (f d).petkit_id ≡ d.petkit_id)
    → ((d : Device) → (f d).mqtt_connected ≡ d.mqtt_connected)
    → link (record st { registry = change j f st.registry }) i ≡ link st i
unfolding link
link-change f j i st keeps same = elim (Option-cases (by_id i st.registry)) [
  | inl e ↦ ground (arith, by_id-change f keeps i j st.registry, e)
  | inr (d, e) ↦ ground (arith, by_id-change f keeps i j st.registry, e, same d)
]
