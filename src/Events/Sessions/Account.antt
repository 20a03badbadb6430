-- ===== src/Events/Sessions/Account.antt =====
-- The account of the rows while the passes run: the cards hold exactly the rows that are marked as
-- used, and no row is used more often than it was given, counting those that a pass has yet to place.
use mathlib.Core.List.{Perm}
use containers_nix.Prelude.{
  ℕ, ◌+◌, ◌≤◌, ◌≡◌, refl, ap, ◌∙◌, inl, inr, String, Bool, true, false, not, ◌||◌, Option, none,
  some, List, [], ◌∷◌, ◌++◌, arith, ◌==◌, get_elem?, Bool-cases, Option-cases, sum_by,
  sum_by-append, sum_by-map, All, subst,
}
use containers_nix.Prelude.Count.{count, one_if, sum_by-perm}
use containers_nix.Prelude.Sorting.{sort-perm}
use containers_nix.Events.Codes.{has_type, primary_done_codes}
use containers_nix.Events.Codes.Base.{kind_cleaning}
use containers_nix.Events.Sessions.Rows.{Event, Session, same_id, session_from_visit, by_time}
use containers_nix.Events.Sessions.Cards.{
  Groups, Grouping, is_used, ids, pick, head_of, attach_all, episode_card, plain_card, add_card,
  cards_from_episodes, cards_from_loose_visits, add_orphan_card, orphan_cards,
}
use containers_nix.Events.Sessions.Passes.{attach_at, attach_maybe, attach_pass}
use containers_nix.Events.Sessions.Placed.{
  card_ids, placed, placed-snoc, placed-set_attach, card_ids-attach_all, card_ids-episode_card,
  pick-perm, head_of-perm, flat,
}

-- How many rows of a list have an id.
abbrev pub rows : ℕ → List Event → ℕ
rows x = sum_by (λ e. one_if x e.id)

pub count-ids : (x : ℕ) (es : List Event) → count x (ids es) ≡ rows x es
count-ids x es = sum_by-map (λ (e : Event). e.id) (one_if x) es

pub rows-perm : (x : ℕ) (es fs : List Event) → Perm es fs → rows x es ≡ rows x fs
rows-perm x = sum_by-perm (λ (e : Event). one_if x e.id)

-- For one id: `known` rows have it, and `pend` of those are yet to be placed.
abbrev pub Account : (x known pend : ℕ) → Grouping → Type 0
Account x known pend g =
    (count x (placed g.sessions) ≡ count x g.used) × (count x g.used + pend ≤ known)

abbrev is_done : Event → Bool
is_done e = has_type primary_done_codes e.event_type

-- A card is added that holds the rows `others` besides its own.
count-card :
    (x : ℕ) (ss : List Session) (s : Session) (others : List Event)
    → count x (placed (ss ++ attach_all others s ∷ []))
      ≡ count x (card_ids s) + rows x others + count x (placed ss)
count-card x ss s others =
    sum_by-perm (one_if x) _ _ (placed-snoc ss (attach_all others s))
    ∙ sum_by-append (one_if x) (card_ids (attach_all others s)) (placed ss)
    ∙ ap (λ n. n + count x (placed ss))
        (ap (count x) (card_ids-attach_all others s)
          ∙ sum_by-append (one_if x) (card_ids s) (ids others)
          ∙ ap (λ n. count x (card_ids s) + n) (count-ids x others))

module _ (x known pend : ℕ) where
  add_card-Account :
      (rel : String) (group : List Event) (g : Grouping)
      → Account x known (rows x group + pend) g
      → Account x known pend (add_card rel group g)
  unfolding add_card
  add_card-Account rel [] g h = (h.0, omega (arith, h.1))
  add_card-Account rel (e ∷ es) g h =
      let anchor = (head_of e es).0 in
      let others = (head_of e es).1 in
      let shown = count-card x g.sessions (episode_card anchor (e ∷ es)) others in
      let own = ap (count x) (card_ids-episode_card anchor (e ∷ es)) in
      let marked = sum_by-append (one_if x) (anchor.id ∷ ids others) g.used in
      let listed = count-ids x others in
      let same = rows-perm x (anchor ∷ others) (e ∷ es) (head_of-perm e es) in
      (omega arith, omega arith)

  add_orphan_card-Account :
      (rel : String) (group : List Event) (g : Grouping)
      → Account x known (rows x group + pend) g
      → Account x known pend (add_orphan_card rel group g)
  unfolding add_orphan_card session_from_visit
  add_orphan_card-Account rel group g h = elim (Option-cases (pick is_done group)) [
    | inl e ↦ rw (e, add_orphan_card) (h.0, omega (arith, h.1))
    | inr (r, e) ↦
        let card = plain_card kind_cleaning (session_from_visit r.0 none r.0.media) in
        let shown = count-card x g.sessions card r.1 in
        let marked = sum_by-append (one_if x) (r.0.id ∷ ids r.1) g.used in
        let listed = count-ids x r.1 in
        let same = rows-perm x (r.0 ∷ r.1) group (pick-perm is_done group r e) in
        rw (e, add_orphan_card) (omega arith, omega arith)
  ]

  -- A row that is waiting heads a card of its own.
  push-Account :
      (e : Event) (g : Grouping)
      → Account x known (one_if x e.id + pend) g
      → Account x known pend (record g {
        sessions = g.sessions ++ session_from_visit e none e.media ∷ [];
        used = e.id ∷ g.used;
      })
  unfolding session_from_visit
  push-Account e g h =
      let shown =
        sum_by-perm (one_if x) _ _ (placed-snoc g.sessions (session_from_visit e none e.media)) in
      (omega arith, omega arith)

sorted_pending :
    (x known pend : ℕ) (group : List Event) (groups : Groups) (g : Grouping)
    → Account x known (rows x (group ++ flat groups) + pend) g
    → count x g.used + (rows x (by_time group) + (rows x (flat groups) + pend)) ≤ known
unfolding by_time
sorted_pending x known pend group groups g h = omega (
  arith,
  h.1,
  rows-perm x (by_time group) group (sort-perm _ group),
  sum_by-append (λ (e : Event). one_if x e.id) group (flat groups),
)

module _ (x known pend : ℕ) where
  pub cards_from_episodes-Account :
      (groups : Groups) (g : Grouping)
      → Account x known (rows x (flat groups) + pend) g
      → Account x known pend (cards_from_episodes groups g)
  unfolding cards_from_episodes by_time
  cards_from_episodes-Account [] g h = (h.0, omega (arith, h.1))
  cards_from_episodes-Account ((rel, group) ∷ groups) g h =
      cards_from_episodes-Account groups (add_card rel (by_time group) g) (
        add_card-Account x known (rows x (flat groups) + pend) rel (by_time group) g
          (h.0, sorted_pending x known pend group groups g h))

  pub orphan_cards-Account :
      (groups : Groups) (g : Grouping)
      → Account x known (rows x (flat groups) + pend) g
      → Account x known pend (orphan_cards groups g)
  unfolding orphan_cards by_time
  orphan_cards-Account [] g h = (h.0, omega (arith, h.1))
  orphan_cards-Account ((rel, group) ∷ groups) g h =
      orphan_cards-Account groups (add_orphan_card rel (by_time group) g) (
        add_orphan_card-Account x known (rows x (flat groups) + pend) rel (by_time group) g
          (h.0, sorted_pending x known pend group groups g h))

  pub cards_from_loose_visits-Account :
      (es : List Event) (g : Grouping)
      → Account x known (rows x es + pend) g
      → Account x known pend (cards_from_loose_visits es g)
  unfolding cards_from_loose_visits
  cards_from_loose_visits-Account [] g h = (h.0, omega (arith, h.1))
  cards_from_loose_visits-Account (e ∷ es) g h =
      cards_from_loose_visits-Account es _
        (push-Account x known (rows x es + pend) e g (h.0, omega (arith, h.1)))

-- A row that is not marked as used is none of those that are.
pub count-unused : (id : ℕ) (used : List ℕ) → is_used id used ≡ false → count id used ≡ 0
unfolding is_used
count-unused id [] h = refl
count-unused id (u ∷ used) h = ground (arith, count-unused id used)

pub count-used : (id : ℕ) (used : List ℕ) → is_used id used ≡ true → 1 ≤ count id used
unfolding is_used
count-used id [] h = cc
count-used id (u ∷ used) h = ground (arith, count-used id used)

room_for :
    (x known id : ℕ) (used : List ℕ)
    → is_used id used ≡ false
    → one_if x id ≤ known
    → count x used ≤ known
    → one_if x id + count x used ≤ known
room_for x known id used n k h = elim (Bool-cases (id == x)) [
  | inl e ↦
      let same : id ≡ x = ground arith in
      let none_yet : count x used ≡ 0 =
        subst (λ j. count j used ≡ 0) same (count-unused id used n) in
      omega arith
  | inr e ↦ rw e (omega arith)
]

module _ (x known : ℕ) where
  attach_at-Account :
      (i : ℕ) (e : Event) (g : Grouping)
      → one_if x e.id ≤ known
      → is_used e.id g.used ≡ false
      → Account x known 0 g
      → Account x known 0 (attach_at i e g)
  unfolding attach_at
  attach_at-Account i e g k n h = elim (Option-cases (get_elem? g.sessions i)) [
    | inl q ↦ rw (q, attach_at) h
    | inr (s, q) ↦ elim (Bool-cases (same_id s.device_id e.device_id)) [
      | inr d ↦ rw (q, d, attach_at) h
      | inl d ↦
          let shown = sum_by-perm (one_if x) _ _ (placed-set_attach g.sessions i s e q) in
          let room = room_for x known e.id g.used n k (omega (arith, h.1)) in
          rw (q, d, attach_at) (omega arith, omega arith)
    ]
  ]

  attach_maybe-Account :
      (o : Option ℕ) (e : Event) (g : Grouping)
      → one_if x e.id ≤ known
      → is_used e.id g.used ≡ false
      → Account x known 0 g
      → Account x known 0 (attach_maybe o e g)
  attach_maybe-Account none e g k n h = h
  attach_maybe-Account (some i) e g k n h = attach_at-Account i e g k n h

  -- A pass over known rows, whichever it takes and wherever it puts them.
  pub attach_pass-Account :
      (wanted : Event → Bool) (place : Grouping → Event → Option ℕ) (es : List Event) (g : Grouping)
      → All (λ (e : Event). one_if x e.id ≤ known) es
      → Account x known 0 g
      → Account x known 0 (attach_pass wanted place es g)
  unfolding attach_pass
  attach_pass-Account wanted place [] g k h = h
  attach_pass-Account wanted place (e ∷ es) g k h =
      elim (Bool-cases (is_used e.id g.used || not (wanted e))) [
        | inl q ↦ rw (q, attach_pass) (attach_pass-Account wanted place es g k.1 h)
        | inr q ↦
            let unused : is_used e.id g.used ≡ false = ground arith in
            rw (q, attach_pass)
              (attach_pass-Account wanted place es (attach_maybe (place g e) e g) k.1
                (attach_maybe-Account (place g e) e g k.0 unused h))
      ]
