-- ===== src/Events/Sessions/Finished.antt =====
-- What sorting, the hand-out of the media and the standalone rows leave of the account: the cards
-- keep their rows.
use mathlib.Core.List.{Perm}
use containers_nix.Prelude.{
  ℕ, ◌+◌, ◌≡◌, refl, sym, ap, ◌∙◌, inl, inr, Bool, List, [], ◌∷◌, map, arith, ◌==◌, Bool-cases,
  sum_by, sum_by-append, sum_by-map, leb,
}
use containers_nix.Prelude.Count.{count, one_if, sum_by-perm}
use containers_nix.Prelude.Sorting.{sort, sort-perm}
use containers_nix.Prelude.Dict.{Dict}
use containers_nix.Events.Sessions.Rows.{Event, Line, Session, or_zero, standalone}
use containers_nix.Events.Sessions.Media.{
  line_groups, hand_out, give, give_to, assign_episode_media, episode_media, finish_card,
}
use containers_nix.Events.Sessions.Placed.{line_ids, card_ids, placed}
use containers_nix.Events.Sessions.Account.{rows}

line_ids-give :
    (id : ℕ) (media : List ℕ) (lines : List Line)
    → line_ids (map (give id media) lines) ≡ line_ids lines
line_ids-give id media [] = refl
line_ids-give id media (l ∷ lines) = elim (Bool-cases (l.id == id)) [
  | inl e ↦ rw e (ap (◌∷◌ l.id) (line_ids-give id media lines))
  | inr e ↦ rw e (ap (◌∷◌ l.id) (line_ids-give id media lines))
]

line_ids-give_to :
    (subs : List Line) (media : List ℕ) (lines : List Line)
    → line_ids (give_to subs media lines) ≡ line_ids lines
line_ids-give_to subs [] lines = refl
line_ids-give_to subs (m ∷ ms) lines = line_ids-give _ (m ∷ ms) lines

line_ids-hand_out :
    (events : List Event) (groups : Dict (List Line)) (lines : List Line)
    → line_ids (hand_out events groups lines) ≡ line_ids lines
unfolding hand_out
line_ids-hand_out events [] lines = refl
line_ids-hand_out events ((rel, subs) ∷ groups) lines =
    line_ids-hand_out events groups (give_to subs (episode_media rel [] events) lines)
    ∙ line_ids-give_to subs (episode_media rel [] events) lines

count-finish_card :
    (x : ℕ) (events : List Event) (s : Session)
    → count x (card_ids (finish_card events s)) ≡ count x (card_ids s)
unfolding finish_card assign_episode_media
count-finish_card x events s =
    let earlier : Line → Line → Bool = λ a b. leb (or_zero a.ts) (or_zero b.ts) in
    let sorted = sort earlier s.sub_events in
    let handed =
      ap (count x) (line_ids-hand_out events (line_groups s.related_event [] sorted) sorted) in
    let same =
      sum_by-perm (λ (l : Line). one_if x l.id) sorted s.sub_events
        (sort-perm earlier s.sub_events) in
    let before = sum_by-map (λ (l : Line). l.id) (one_if x) s.sub_events in
    let after = sum_by-map (λ (l : Line). l.id) (one_if x) sorted in omega arith

pub count-finished :
    (x : ℕ) (events : List Event) (ss : List Session)
    → count x (placed (map (finish_card events) ss)) ≡ count x (placed ss)
count-finished x events [] = refl
count-finished x events (s ∷ ss) =
    let here = count-finish_card x events s in
    let there = count-finished x events ss in
    let one =
      sum_by-append (one_if x) (card_ids (finish_card events s))
        (placed (map (finish_card events) ss)) in
    let two = sum_by-append (one_if x) (card_ids s) (placed ss) in omega arith

pub count-standalone : (x : ℕ) (es : List Event) → count x (placed (map standalone es)) ≡ rows x es
unfolding standalone
count-standalone x [] = refl
count-standalone x (e ∷ es) = ap (λ n. one_if x e.id + n) (count-standalone x es)

count-placed :
    (x : ℕ) (ss : List Session)
    → count x (placed ss) ≡ sum_by (λ (s : Session). count x (card_ids s)) ss
count-placed x [] = refl
count-placed x (s ∷ ss) =
    sum_by-append (one_if x) (card_ids s) (placed ss)
    ∙ ap (λ n. count x (card_ids s) + n) (count-placed x ss)

pub count-placed-perm :
    (x : ℕ) (ss ts : List Session) → Perm ss ts → count x (placed ss) ≡ count x (placed ts)
count-placed-perm x ss ts p =
    count-placed x ss
    ∙ sum_by-perm (λ (s : Session). count x (card_ids s)) ss ts p
    ∙ sym (count-placed x ts)
