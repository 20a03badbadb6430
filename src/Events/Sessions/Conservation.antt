-- ===== src/Events/Sessions/Conservation.antt =====
-- `group_sessions` loses no row and shows none twice.
use containers_nix.Prelude.{
  ℕ, ◌+◌, ◌≤◌, ◌≡◌, refl, ap, ◌∙◌, inl, inr, Bool, true, false, not, List, [], ◌∷◌, ◌++◌, map,
  select, arith, ◌==◌, Bool-cases, Option-cases, sum_by-append, All, leb, subst,
}
use containers_nix.Prelude.Count.{count, one_if, sum_by-select-le, sum_by-select_disjoint}
use containers_nix.Prelude.Sorting.{sort-perm}
use containers_nix.Events.Sessions.Rows.{Event, Session, truthy, or_zero, standalone}
use containers_nix.Events.Sessions.Cards.{
  Grouping, is_used, ids, is_loose, is_anchor_event, is_orphan, groups_from,
  cards_from_orphan_cleanings,
}
use containers_nix.Events.Sessions.Passes.{
  attach_linked_followups, attach_nearby_cleanings, attach_cycle_tails,
}
use containers_nix.Events.Sessions.Media.{finish_card}
use containers_nix.Events.Sessions.Finished.{count-finished, count-standalone, count-placed-perm}
use containers_nix.Events.Sessions.Placed.{
  placed, placed-append, flat, has_episode, groups_from-perm,
}
use containers_nix.Events.Sessions.Account.{
  rows, count-ids, rows-perm, Account, cards_from_episodes-Account, orphan_cards-Account,
  cards_from_loose_visits-Account, count-unused, count-used, attach_pass-Account,
}
use containers_nix.Events.Sessions.{
  no_cards, anchored_cards, attached_cards, standalone_rows, group_sessions,
}

loose_or_episode : (e : Event) → has_episode e ≡ true → is_loose e ≡ false
unfolding is_loose
loose_or_episode e h = elim (Option-cases (truthy e.related_event)) [
  | inl n ↦ let no : false ≡ true = rw (n, has_episode) at h in cc
  | inr (rel, n) ↦ rw (n, is_loose)
]

anchored_cards-Account :
    (x : ℕ) (events : List Event) → Account x (rows x events) 0 (anchored_cards events)
unfolding anchored_cards
anchored_cards-Account x events =
    let anchors = select is_anchor_event events in
    let loose = select is_loose anchors in
    let groups = groups_from [] anchors in
    let grouped =
      rows-perm x (flat groups) (select has_episode anchors) (groups_from-perm [] anchors) in
    let apart =
      sum_by-select_disjoint (λ (e : Event). one_if x e.id) has_episode is_loose loose_or_episode
        anchors in
    let some_of = sum_by-select-le (λ (e : Event). one_if x e.id) is_anchor_event events in
    cards_from_loose_visits-Account x (rows x events) 0 loose _ (
      cards_from_episodes-Account x (rows x events) (rows x loose + 0) groups no_cards
        (refl, omega arith))

each_known : (x n : ℕ) (es : List Event) → rows x es ≤ n → All (λ (e : Event). one_if x e.id ≤ n) es
each_known x n [] h = tt
each_known x n (e ∷ es) h = (omega arith, each_known x n es (omega arith))

rows-select_used :
    (x : ℕ) (used : List ℕ) (p : Event → Bool)
    → ((e : Event) → p e ≡ true → is_used e.id used ≡ false)
    → is_used x used ≡ true
    → (es : List Event) → rows x (select p es) ≡ 0
rows-select_used x used p h u [] = refl
rows-select_used x used p h u (e ∷ es) = elim (Bool-cases (p e)) [
  | inr q ↦ rw (q, select) (rows-select_used x used p h u es)
  | inl q ↦
      let rest = rows-select_used x used p h u es in
      elim (Bool-cases (e.id == x)) [
        | inr d ↦ rw (q, d, select) (omega (arith, rest))
        | inl d ↦
            let same : e.id ≡ x = ground arith in
            let no : is_used x used ≡ false = subst (λ j. is_used j used ≡ false) same (h e q) in cc
      ]
]

-- The rows that are not used leave room for those that are.
rows_left :
    (x : ℕ) (used : List ℕ) (p : Event → Bool)
    → ((e : Event) → p e ≡ true → is_used e.id used ≡ false)
    → (es : List Event) → count x used ≤ rows x es
    → count x used + rows x (select p es) ≤ rows x es
rows_left x used p h es k = elim (Bool-cases (is_used x used)) [
  | inl u ↦ omega (arith, rows-select_used x used p h u es)
  | inr u ↦
      omega (arith, count-unused x used u, sum_by-select-le (λ (e : Event). one_if x e.id) p es)
]

orphan-unused : (used : List ℕ) (e : Event) → is_orphan used e ≡ true → is_used e.id used ≡ false
unfolding is_orphan
orphan-unused used e h = ground arith

abbrev is_left : List ℕ → Event → Bool
is_left used e = not (is_used e.id used)

left-unused : (used : List ℕ) (e : Event) → is_left used e ≡ true → is_used e.id used ≡ false
left-unused used e h = ground arith

rows-left_unused :
    (x : ℕ) (used : List ℕ)
    → is_used x used ≡ false
    → (es : List Event) → rows x (select (is_left used) es) ≡ rows x es
rows-left_unused x used u [] = refl
rows-left_unused x used u (e ∷ es) = elim (Bool-cases (is_used e.id used)) [
  | inr q ↦ rw (q, select) (ap (λ n. one_if x e.id + n) (rows-left_unused x used u es))
  | inl q ↦ elim (Bool-cases (e.id == x)) [
    | inr d ↦ rw (q, d, select) (omega (arith, rows-left_unused x used u es))
    | inl d ↦
        let same : e.id ≡ x = ground arith in
        let no : is_used x used ≡ true = subst (λ j. is_used j used ≡ true) same q in cc
  ]
]

orphans-Account :
    (x : ℕ) (events : List Event) (g : Grouping)
    → Account x (rows x events) 0 g
    → Account x (rows x events) 0 (cards_from_orphan_cleanings events g)
unfolding cards_from_orphan_cleanings
orphans-Account x events g h =
    let wanted = select (is_orphan g.used) events in
    let groups = groups_from [] wanted in
    let grouped =
      rows-perm x (flat groups) (select has_episode wanted) (groups_from-perm [] wanted) in
    let in_episodes = sum_by-select-le (λ (e : Event). one_if x e.id) has_episode wanted in
    let room =
      rows_left x g.used (is_orphan g.used) (orphan-unused g.used) events (omega (arith, h.1)) in
    orphan_cards-Account x (rows x events) 0 groups g (h.0, omega arith)

attached_cards-Account :
    (x : ℕ) (events : List Event) → Account x (rows x events) 0 (attached_cards events)
unfolding attached_cards attach_linked_followups attach_nearby_cleanings attach_cycle_tails
attached_cards-Account x events =
    let known = each_known x (rows x events) events (omega arith) in
    attach_pass-Account x (rows x events) _ _ events _ known (
      orphans-Account x events _ (
        attach_pass-Account x (rows x events) _ _ events _ known (
          attach_pass-Account x (rows x events) _ _ events _ known
            (anchored_cards-Account x events))))

-- No two rows have the same id.
abbrev pub Distinct : List Event → Type 0
Distinct events = (x : ℕ) → rows x events ≤ 1

-- Where the rows have distinct ids, every row stands exactly once among the cards of the Timeline: as
-- the head of a card or as one of its lines. No row is lost, none is shown twice, and nothing is
-- shown that was not stored.
pub placed-group_sessions :
    (events : List Event)
    → Distinct events
    → (x : ℕ) → count x (placed (group_sessions events)) ≡ count x (ids events)
unfolding group_sessions standalone_rows
placed-group_sessions events distinct x =
    let g = attached_cards events in
    let cards = map (finish_card events) g.sessions in
    let left = select (is_left g.used) events in
    let (balanced, within) = attached_cards-Account x events in
    let newer_first : Session → Session → Bool = λ a b. leb (or_zero b.ts) (or_zero a.ts) in
    let sorted =
      count-placed-perm x (group_sessions events) (cards ++ map standalone left)
        (sort-perm newer_first (cards ++ map standalone left)) in
    let both =
      ap (count x) (placed-append cards (map standalone left))
      ∙ sum_by-append (one_if x) (placed cards) (placed (map standalone left)) in
    let finished = count-finished x events g.sessions in
    let alone = count-standalone x left in
    let stored = count-ids x events in
    let once = distinct x in
    elim (Bool-cases (is_used x g.used)) [
      | inl u ↦ omega (
        arith,
        rows-select_used x g.used (is_left g.used) (left-unused g.used) u events,
        count-used x g.used u,
      )
      | inr u ↦ omega (arith, rows-left_unused x g.used u events, count-unused x g.used u)
    ]
