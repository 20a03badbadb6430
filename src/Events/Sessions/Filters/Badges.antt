-- ===== src/Events/Sessions/Filters/Badges.antt =====
-- The number on a chip is the number of cards that the chip shows.
use mathlib.Core.Path.{fun_ext}
use containers_nix.Prelude.{
  ℕ, suc, ◌+◌, ◌≡◌, refl, ap, ap₂, ◌∙◌, inl, inr, String, Bool, true, false, ◌||◌, Option, some,
  List, [], ◌∷◌, ◌++◌, if◌then◌else◌, length, select, Bool-cases, arith,
}
use containers_nix.Prelude.Dict.{Dict}
use containers_nix.Prelude.Dict.{one_of}
use containers_nix.Events.Codes.Base.{
  kind_toilet, kind_cleaning, kind_pet, kind_motion, kind_error, kind_feeding, kind_drinking,
}
use containers_nix.Events.Sessions.Rows.{Session, has_kind}
use containers_nix.Events.Sessions.Filters.{
  kind_bucket, has_voice, filter_buckets, bump_all, count_sessions, filter_counts, matches_filter,
}

-- The eight counts.
abbrev badges : (all : ℕ) → (String → ℕ) → Dict ℕ
badges all n =
    ("all", all)
    ∷ ("pet", n "pet")
    ∷ ("toileting", n "toileting")
    ∷ ("drinking", n "drinking")
    ∷ ("feeding", n "feeding")
    ∷ ("cleaning", n "cleaning")
    ∷ ("health_alert", n "health_alert")
    ∷ ("fault", n "fault")
    ∷ []

abbrev plus_if : Bool → ℕ → ℕ
plus_if b n = if b then suc n else n

-- The chips that a kind of card can belong to.
data IsKindBucket : List String → Type 0 where
  toileting : IsKindBucket ("toileting" ∷ [])
  pet : IsKindBucket ("pet" ∷ [])
  fault : IsKindBucket ("fault" ∷ [])
  feeding : IsKindBucket ("feeding" ∷ [])
  drinking : IsKindBucket ("drinking" ∷ [])
  cleaning : IsKindBucket ("cleaning" ∷ [])
  nothing : IsKindBucket []

choose :
    (b : Bool) (x y : List String)
    → IsKindBucket x
    → IsKindBucket y
    → IsKindBucket (if b then x else y)
choose true x y h k = h
choose false x y h k = k

kind_bucket-IsKindBucket : (kind : Option String) → IsKindBucket (kind_bucket kind)
kind_bucket-IsKindBucket kind = choose (has_kind kind_toilet kind) _ _ toileting (
    choose (has_kind kind_pet kind || has_kind kind_motion kind) _ _ pet (
      choose (has_kind kind_error kind) _ _ fault (
        choose (has_kind kind_feeding kind) _ _ feeding (
          choose (has_kind kind_drinking kind) _ _ drinking
            (choose (has_kind kind_cleaning kind) _ _ cleaning nothing)))))

bump_all-badges :
    (bs : List String) (voice : Bool) (all : ℕ) (n : String → ℕ)
    → IsKindBucket bs
    → bump_all (bs ++ (if voice then "health_alert" ∷ [] else [])) (badges all n)
      ≡ some (
          badges all (λ chip.
            plus_if (one_of chip (bs ++ (if voice then "health_alert" ∷ [] else []))) (n chip)))
unfolding bump_all one_of
bump_all-badges _ false all n toileting = refl
bump_all-badges _ false all n pet = refl
bump_all-badges _ false all n fault = refl
bump_all-badges _ false all n feeding = refl
bump_all-badges _ false all n drinking = refl
bump_all-badges _ false all n cleaning = refl
bump_all-badges _ false all n nothing = refl
bump_all-badges _ true all n toileting = refl
bump_all-badges _ true all n pet = refl
bump_all-badges _ true all n fault = refl
bump_all-badges _ true all n feeding = refl
bump_all-badges _ true all n drinking = refl
bump_all-badges _ true all n cleaning = refl
bump_all-badges _ true all n nothing = refl

-- The cards that belong to a chip.
abbrev belonging : String → List Session → ℕ
belonging chip sessions = length (select (λ s. one_of chip (filter_buckets s)) sessions)

-- A chip's count, card by card.
tally : List Session → (String → ℕ) → String → ℕ
tally [] n chip = n chip
tally (s ∷ sessions) n chip =
    tally sessions (λ chip. plus_if (one_of chip (filter_buckets s)) (n chip)) chip

count_sessions-badges :
    (sessions : List Session) (all : ℕ) (n : String → ℕ)
    → count_sessions sessions (badges all n) ≡ some (badges all (tally sessions n))
unfolding count_sessions filter_buckets tally
count_sessions-badges [] all n = refl
count_sessions-badges (s ∷ sessions) all n =
    rw
      (
        bump_all-badges (kind_bucket s.event_kind) (has_voice s.content) all n
            (kind_bucket-IsKindBucket s.event_kind),
        count_sessions,
      )
      (count_sessions-badges sessions all
        (λ chip. plus_if (one_of chip (filter_buckets s)) (n chip)))

tally-belonging :
    (sessions : List Session) (n : String → ℕ) (chip : String)
    → tally sessions n chip ≡ n chip + belonging chip sessions
unfolding tally
tally-belonging [] n chip = omega arith
tally-belonging (s ∷ sessions) n chip = elim (Bool-cases (one_of chip (filter_buckets s))) [
  | inl e ↦
      rw
        (
          tally-belonging sessions (λ chip. plus_if (one_of chip (filter_buckets s)) (n chip)) chip,
          e,
          select,
        )
        (omega arith)
  | inr e ↦
      rw
        (
          tally-belonging sessions (λ chip. plus_if (one_of chip (filter_buckets s)) (n chip)) chip,
          e,
          select,
        )
        (omega arith)
]

abbrev pub shown : String → List Session → ℕ
shown chip sessions = length (select (matches_filter chip) sessions)

counted :
    (sessions : List Session) (chip : String)
    → tally sessions (λ chip. 0) chip ≡ belonging chip sessions
counted sessions chip = omega (arith, tally-belonging sessions (λ chip. 0) chip)

all_shown : (sessions : List Session) → length sessions ≡ shown "all" sessions
unfolding matches_filter
all_shown [] = refl
all_shown (s ∷ sessions) = ap suc (all_shown sessions)

-- Counting never fails, and the number on each chip, the one for all cards too, is the number of cards
-- that the chip keeps.
pub filter_counts-matches_filter :
    (sessions : List Session)
    → filter_counts sessions
      ≡ some (
          ("all", shown "all" sessions)
          ∷ ("pet", shown "pet" sessions)
          ∷ ("toileting", shown "toileting" sessions)
          ∷ ("drinking", shown "drinking" sessions)
          ∷ ("feeding", shown "feeding" sessions)
          ∷ ("cleaning", shown "cleaning" sessions)
          ∷ ("health_alert", shown "health_alert" sessions)
          ∷ ("fault", shown "fault" sessions)
          ∷ [])
unfolding filter_counts matches_filter
filter_counts-matches_filter sessions =
    count_sessions-badges sessions (length sessions) (λ chip. 0)
    ∙ ap₂ (λ all n. some (badges all n)) (all_shown sessions) (fun_ext (counted sessions))
