-- ===== src/Events/Sessions/Placed.antt =====
-- Where the rows stand: the ids of the cards and of their lines, and what each step of the passes
-- adds to them.
use mathlib.Core.Option.{some-injective}
use mathlib.Core.List.{Perm, perm_middle, append_assoc, append-nil, map-append, perm_append_comm}
use mathlib.Core.List.Perm
use containers_nix.Prelude.{
  ℕ, zero, suc, ◌≡◌, refl, sym, ap, ◌∙◌, inl, inr, String, str_eq, Bool, true, false, none, some,
  List, [], ◌∷◌, ◌++◌, map, select, get_elem?, set, Bool-cases, Option-cases, subst,
}
use containers_nix.Events.Sessions.Rows.{
  Event, Line, Session, truthy, attach, session_from_visit, line_of, has_kind,
}
use containers_nix.Events.Sessions.Cards.{
  Groups, add_to, groups_from, pick, split_last, head_of, attach_all, any_row, episode_card, ids,
}
use containers_nix.Events.Codes.{anchor_codes, has_type}
use containers_nix.Events.Codes.Base.{kind_toilet}

abbrev pub line_ids : List Line → List ℕ
line_ids = map (λ l. l.id)

abbrev pub card_ids : Session → List ℕ
card_ids s = s.id ∷ line_ids s.sub_events

abbrev pub placed : List Session → List ℕ
placed [] = []
placed (s ∷ ss) = card_ids s ++ placed ss

pub placed-append : (ss ts : List Session) → placed (ss ++ ts) ≡ placed ss ++ placed ts
placed-append [] ts = refl
placed-append (s ∷ ss) ts =
    ap (◌++◌ (card_ids s)) (placed-append ss ts)
    ∙ sym (append_assoc (card_ids s) (placed ss) (placed ts))

pub placed-snoc :
    (ss : List Session) (s : Session) → Perm (placed (ss ++ s ∷ [])) (card_ids s ++ placed ss)
placed-snoc ss s =
    rw (placed-append ss (s ∷ []), append-nil (card_ids s))
      (perm_append_comm (placed ss) (card_ids s))

card_ids-attach : (s : Session) (e : Event) → card_ids (attach s e) ≡ card_ids s ++ e.id ∷ []
unfolding attach
card_ids-attach s e = ap (◌∷◌ s.id) (map-append (λ l. l.id) s.sub_events (line_of e ∷ []))

attach_head :
    (s : Session) (e : Event) (rest : List ℕ)
    → Perm (card_ids (attach s e) ++ rest) (e.id ∷ (card_ids s ++ rest))
attach_head s e rest =
    subst (λ xs. Perm xs (e.id ∷ (card_ids s ++ rest)))
      (sym
        (ap (λ xs. xs ++ rest) (card_ids-attach s e) ∙ append_assoc (card_ids s) (e.id ∷ []) rest))
      (perm_middle (card_ids s) rest)

pub placed-set_attach :
    (ss : List Session) (i : ℕ) (s : Session) (e : Event)
    → get_elem? ss i ≡ some s
    → Perm (placed (set ss i (attach s e))) (e.id ∷ placed ss)
placed-set_attach [] i s e h = cc
placed-set_attach (t ∷ ss) zero s e h =
    subst (λ u. Perm (card_ids (attach u e) ++ placed ss) (e.id ∷ (card_ids t ++ placed ss)))
      (some-injective t s h) (attach_head t e (placed ss))
placed-set_attach (t ∷ ss) (suc i) s e h =
    Perm.trans (Perm.append_left (card_ids t) (placed-set_attach ss i s e h))
      (perm_middle (card_ids t) (placed ss))

pub card_ids-attach_all :
    (es : List Event) (s : Session) → card_ids (attach_all es s) ≡ card_ids s ++ ids es
unfolding attach_all
card_ids-attach_all [] s = sym (append-nil (card_ids s))
card_ids-attach_all (e ∷ es) s =
    card_ids-attach_all es (attach s e)
    ∙ ap (λ xs. xs ++ ids es) (card_ids-attach s e)
    ∙ append_assoc (card_ids s) (e.id ∷ []) (ids es)

pub card_ids-episode_card :
    (e : Event) (group : List Event) → card_ids (episode_card e group) ≡ e.id ∷ []
unfolding episode_card session_from_visit
card_ids-episode_card e group =
    elim (Bool-cases (any_row (λ (x : Event). has_kind kind_toilet x.event_kind) group)) [
      | inl q ↦ rw (q, episode_card) refl
      | inr q ↦ rw (q, episode_card) refl
    ]

pub pick-perm :
    (p : Event → Bool) (es : List Event) (r : Event × List Event)
    → pick p es ≡ some r
    → Perm (r.0 ∷ r.1) es
unfolding pick
pick-perm p [] r h = cc
pick-perm p (e ∷ es) r h = elim (Bool-cases (p e)) [
  | inl q ↦
      subst (λ (r : Event × List Event). Perm (r.0 ∷ r.1) (e ∷ es))
        (some-injective (e, es) r (rw (q, pick) at h)) (Perm.refl (e ∷ es))
  | inr q ↦ elim (Option-cases (pick p es)) [
    | inl n ↦ let never : none ≡ some r = rw (q, n, pick) at h in cc
    | inr (r', n) ↦
        subst (λ (r : Event × List Event). Perm (r.0 ∷ r.1) (e ∷ es))
          (some-injective (r'.0, e ∷ r'.1) r (rw (q, n, pick) at h))
          (Perm.trans (Perm.swap e r'.0 r'.1) (Perm.cons e (pick-perm p es r' n)))
  ]
]

split_last-perm :
    (e : Event) (es : List Event) → Perm ((split_last e es).0 ∷ (split_last e es).1) (e ∷ es)
unfolding split_last
split_last-perm e [] = Perm.refl (e ∷ [])
split_last-perm e (f ∷ es) =
    Perm.trans (Perm.swap e (split_last f es).0 (split_last f es).1)
      (Perm.cons e (split_last-perm f es))

pub head_of-perm :
    (e : Event) (es : List Event) → Perm ((head_of e es).0 ∷ (head_of e es).1) (e ∷ es)
unfolding head_of
head_of-perm e es =
    elim (Option-cases (pick (λ (x : Event). has_type anchor_codes x.event_type) (e ∷ es))) [
      | inl n ↦ rw (n, head_of) (split_last-perm e es)
      | inr (r, n) ↦
          rw (n, head_of)
            (pick-perm (λ (x : Event). has_type anchor_codes x.event_type) (e ∷ es) r n)
    ]

-- The rows of all groups.
abbrev pub flat : Groups → List Event
flat [] = []
flat ((rel, group) ∷ groups) = group ++ flat groups

add_to-perm :
    (rel : String) (e : Event) (groups : Groups)
    → Perm (flat (add_to rel e groups)) (e ∷ flat groups)
unfolding add_to
add_to-perm rel e [] = Perm.refl (e ∷ [])
add_to-perm rel e ((k, group) ∷ groups) = elim (Bool-cases (str_eq k rel)) [
  | inl q ↦
      rw (q, add_to, append_assoc group (e ∷ []) (flat groups)) (perm_middle group (flat groups))
  | inr q ↦
      rw (q, add_to)
        (Perm.trans (Perm.append_left group (add_to-perm rel e groups))
          (perm_middle group (flat groups)))
]

abbrev pub has_episode : Event → Bool
has_episode e = elim (truthy e.related_event) [ none ↦ false | some _ ↦ true ]

pub groups_from-perm :
    (groups : Groups) (es : List Event)
    → Perm (flat (groups_from groups es)) (flat groups ++ select has_episode es)
unfolding groups_from
groups_from-perm groups [] = rw (append-nil (flat groups)) (Perm.refl (flat groups))
groups_from-perm groups (e ∷ es) = elim (Option-cases (truthy e.related_event)) [
  | inl n ↦ rw (n, groups_from, select) (groups_from-perm groups es)
  | inr (rel, n) ↦
      rw (n, groups_from, select)
        (Perm.trans (groups_from-perm (add_to rel e groups) es) (
          Perm.trans (Perm.append_right (select has_episode es) (add_to-perm rel e groups))
            (Perm.symm (perm_middle (flat groups) (select has_episode es)))))
]
