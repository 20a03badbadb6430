-- ===== src/Events/Sessions/Nearest.antt =====
-- Which visit a cleaning step without a link is hung off.
use containers_nix.Prelude.{
  ℕ, ◌+◌, ◌-◌, ◌≤◌, ◌≡◌, refl, sym, ◌∙◌, inl, inr, str_eq, true, false, ◌&&◌, Option, none, some,
  set, not, ◌||◌, ◌⊎◌, if◌then◌else◌, List, [], ◌∷◌, leb, arith, get_elem?, All, Bool-cases,
}
use mathlib.Core.Option.{some-injective}
use containers_nix.Events.Codes.Base.{kind_cleaning}
use containers_nix.Events.Sessions.Cards.{Grouping, is_used}
use containers_nix.Events.Sessions.Rows.{Event, Session, same_id, has_kind, attach}
use containers_nix.Events.Sessions.Passes.{
  nearest, nearer, visit_distance, after_visit, place_of, attach_at, attach_maybe, attach_pass,
  attach_nearby_cleanings,
}

-- No candidate among the cards is nearer than `d`.
abbrev pub NoneNearer : (Session → Option ℕ) → ℕ → List Session → Type 0
NoneNearer distance d = All (λ (s : Session). (d' : ℕ) → distance s ≡ some d' → d ≤ d')

-- What `min` promises of its result: the first of the nearest, or no candidate at all.
abbrev pub Nearest : (Session → Option ℕ) → List Session → Option (ℕ × ℕ) → Type 0
Nearest distance ss none = All (λ (s : Session). distance s ≡ none) ss
Nearest distance ss (some (i, d)) =
    (s : Session) × (get_elem? ss i ≡ some s) × (distance s ≡ some d) × NoneNearer distance d ss

lt_of : (d d' : ℕ) → leb d d' ≡ false → d' ≤ d
lt_of d d' q = ground arith

module _ (distance : Session → Option ℕ) where
  no_candidate :
      (d : ℕ) (ss : List Session)
      → All (λ (s : Session). distance s ≡ none) ss
      → NoneNearer distance d ss
  no_candidate d [] h = tt
  no_candidate d (s ∷ ss) h =
      ((λ d' p. let no : none ≡ some d' = sym h.0 ∙ p in cc), no_candidate d ss h.1)

  weaken :
      (d d' : ℕ) (ss : List Session) → d ≤ d' → NoneNearer distance d' ss → NoneNearer distance d ss
  weaken d d' [] le h = tt
  weaken d d' (s ∷ ss) le h = ((λ n p. omega (arith, h.0 n p)), weaken d d' ss le h.1)

  own : (s : Session) (d : ℕ) → distance s ≡ some d → (d' : ℕ) → distance s ≡ some d' → d ≤ d'
  own s d e d' p = omega (arith, some-injective d d' (sym e ∙ p))

  nearer-Nearest :
      (s : Session) (ss : List Session) (o : Option ℕ) (r : Option (ℕ × ℕ))
      → distance s ≡ o
      → Nearest distance ss r
      → Nearest distance (s ∷ ss) (nearer o r)
  nearer-Nearest s ss none none e h = (e, h)
  nearer-Nearest s ss none (some (i, d)) e (t, found, dist, least) =
      (t, found, dist, ((λ d' p. let no : none ≡ some d' = sym e ∙ p in cc), least))
  nearer-Nearest s ss (some d) none e h = (s, refl, e, (own s d e, no_candidate d ss h))
  nearer-Nearest s ss (some d) (some (i, d')) e (t, found, dist, least) =
      elim (Bool-cases (leb d d')) [
        | inl q ↦ rw q (s, refl, e, (own s d e, weaken d d' ss (ground arith) least))
        | inr q ↦
            rw q (t, found, dist, ((λ n p. omega (arith, own s d e n p, lt_of d d' q)), least))
      ]

  nearest-Nearest : (ss : List Session) → Nearest distance ss (nearest distance ss)
  unfolding nearest
  nearest-Nearest [] = tt
  nearest-Nearest (s ∷ ss) =
      nearer-Nearest s ss (distance s) (nearest distance ss) refl (nearest-Nearest ss)

-- A visit that a cleaning step may follow: of the same device, at most ten minutes before it.
abbrev pub IsVisitBefore : Event → ℕ → Session → Type 0
IsVisitBefore e d s =
    (str_eq s.kind "visit" ≡ true)
    × (same_id s.device_id e.device_id ≡ true)
    × (t t0 : ℕ) × (e.ts ≡ some t)
    × (s.ts ≡ some t0)
    × (t ≡ t0 + d)
    × (d ≤ 600_000)

after_visit-within :
    (a b : Option ℕ) (d : ℕ)
    → after_visit a b ≡ some d
    → (t t0 : ℕ) × (a ≡ some t) × (b ≡ some t0) × (t ≡ t0 + d) × (d ≤ 600_000)
after_visit-within none b d h = cc
after_visit-within (some t) none d h = cc
after_visit-within (some t) (some t0) d h = elim (Bool-cases (leb t0 t && leb (t - t0) 600_000)) [
  | inl q ↦
      let same : t - t0 ≡ d = some-injective (t - t0) d (rw q at h) in
      (t, t0, refl, refl, ground arith, ground arith)
  | inr q ↦ let no : none ≡ some d = rw q at h in cc
]

visit_distance-IsVisitBefore :
    (e : Event) (s : Session) (d : ℕ) → visit_distance e s ≡ some d → IsVisitBefore e d s
unfolding visit_distance
visit_distance-IsVisitBefore e s d h =
    elim (Bool-cases (str_eq s.kind "visit" && same_id s.device_id e.device_id)) [
      | inl q ↦
          let (t, t0, reported, began, sum, within) =
            after_visit-within e.ts s.ts d (rw (q, visit_distance) at h) in
          (ground arith, ground arith, t, t0, reported, began, sum, within)
      | inr q ↦ let no : none ≡ some d = rw (q, visit_distance) at h in cc
    ]

after_visit-between :
    (t t0 d : ℕ) → t ≡ t0 + d → d ≤ 600_000 → after_visit (some t) (some t0) ≡ some d
after_visit-between t t0 d sum within = ground (arith, sum, within)

-- Such a visit is a candidate of the pass.
IsVisitBefore-distance :
    (e : Event) (s : Session) (d : ℕ) → IsVisitBefore e d s → visit_distance e s ≡ some d
unfolding visit_distance
IsVisitBefore-distance e s d (visit, device, t, t0, reported, began, sum, within) =
    rw (visit, device, reported, began, visit_distance) (after_visit-between t t0 d sum within)

-- No card is a visit that the step may follow.
abbrev pub NoVisit : Event → List Session → Type 0
NoVisit e = All (λ (s : Session). (d : ℕ) → IsVisitBefore e d s → ⊥)

-- No visit that the step may follow is closer to it than `d`.
abbrev pub NoneCloser : Event → ℕ → List Session → Type 0
NoneCloser e d = All (λ (s : Session). (d' : ℕ) → IsVisitBefore e d' s → d ≤ d')

NoVisit-none :
    (e : Event) (ss : List Session)
    → All (λ (s : Session). visit_distance e s ≡ none) ss
    → NoVisit e ss
NoVisit-none e [] h = tt
NoVisit-none e (s ∷ ss) h = (
  (λ d v. let no : none ≡ some d = sym h.0 ∙ IsVisitBefore-distance e s d v in cc),
  NoVisit-none e ss h.1,
)

NoneCloser-nearer :
    (e : Event) (d : ℕ) (ss : List Session) → NoneNearer (visit_distance e) d ss → NoneCloser e d ss
NoneCloser-nearer e d [] h = tt
NoneCloser-nearer e d (s ∷ ss) h =
    ((λ d' v. h.0 d' (IsVisitBefore-distance e s d' v)), NoneCloser-nearer e d ss h.1)

-- The cards after a cleaning step was offered to them: as they were, where no visit fits, or with the
-- step among the lines of the closest visit that fits.
abbrev pub IsOffered : Event → Grouping → Grouping → Type 0
IsOffered e g g' =
    (NoVisit e g.sessions × (g' ≡ g))
    ⊎ ((i d : ℕ) × (s : Session) × (get_elem? g.sessions i ≡ some s)
        × IsVisitBefore e d s
        × NoneCloser e d g.sessions
        × (g' ≡ record g { sessions = set g.sessions i (attach s e); used = e.id ∷ g.used }))

attach_at-same :
    (i : ℕ) (e : Event) (s : Session) (g : Grouping)
    → get_elem? g.sessions i ≡ some s
    → same_id s.device_id e.device_id ≡ true
    → attach_at i e g ≡ record g { sessions = set g.sessions i (attach s e); used = e.id ∷ g.used }
unfolding attach_at
attach_at-same i e s g found device = rw (found, device, attach_at) refl

offered :
    (e : Event) (g : Grouping) (r : Option (ℕ × ℕ))
    → Nearest (visit_distance e) g.sessions r
    → IsOffered e g (attach_maybe (place_of r) e g)
offered e g none h = inl (NoVisit-none e g.sessions h, refl)
offered e g (some (i, d)) (s, found, dist, least) =
    let v = visit_distance-IsVisitBefore e s d dist in
    inr
      (i, d, s, found, v, NoneCloser-nearer e d g.sessions least, attach_at-same i e s g found v.1)

-- The pass by time takes the rows in order. A cleaning step that is not used yet goes to the lines of
-- a visit card of the same device that began at most ten minutes before it, the closest of these, and
-- is used from then on; where there is none, nothing changes, nor for a row that is used or no cleaning.
pub attach_nearby_cleanings-IsOffered :
    (e : Event) (es : List Event) (g : Grouping)
    → (g' : Grouping) × (attach_nearby_cleanings (e ∷ es) g ≡ attach_nearby_cleanings es g')
      × (if is_used e.id g.used || not (has_kind kind_cleaning e.event_kind)
          then g' ≡ g
          else IsOffered e g g')
unfolding attach_nearby_cleanings attach_pass
attach_nearby_cleanings-IsOffered e es g =
    elim (Bool-cases (is_used e.id g.used || not (has_kind kind_cleaning e.event_kind))) [
      | inl y ↦ (g, rw (y, attach_nearby_cleanings, attach_pass) refl, rw y refl)
      | inr n ↦ (
        attach_maybe (place_of (nearest (visit_distance e) g.sessions)) e g,
        rw (n, attach_nearby_cleanings, attach_pass) refl,
        rw n (
            offered e g (nearest (visit_distance e) g.sessions)
              (nearest-Nearest (visit_distance e) g.sessions)),
      )
    ]
