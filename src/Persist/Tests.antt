-- ===== src/Persist/Tests.antt =====
-- The theorems of the debounced writer at concrete inputs.
use containers_nix.Prelude.{ℕ, ◌≡◌, refl, true, false, some, none}
use containers_nix.Persist.{Store, mark_dirty, flush_start, flush_end}
use containers_nix.Persist.Settled.{
  changed, saved, flush_started, flush_ended, step, Reachable, loaded, after, Reachable-flushed,
  saved-overwritten,
}

abbrev fresh : Store ℕ
fresh = record { has_path = true; memory = 1; disk = some 1; dirty = false; writing = none }

-- A change whose write fails.
abbrev troubled : Store ℕ
troubled = step (flush_ended false) (step (flush_started true) (step (changed 2 true true) fresh))

troubled-Reachable : Reachable troubled
unfolding step mark_dirty
troubled-Reachable =
    after (flush_ended false) (step (flush_started true) (step (changed 2 true true) fresh))
      (after (flush_started true) (step (changed 2 true true) fresh)
        (after (changed 2 true true) fresh (loaded 1) tt) (refl, refl))
      tt

idle : troubled.writing ≡ none
unfolding step mark_dirty flush_start flush_end
idle = refl

Reachable-flushed_example :
    ((flush_end true (flush_start true troubled)).disk ≡ some troubled.memory)
    × ((flush_end true (flush_start true troubled)).memory ≡ troubled.memory)
    × ((flush_end true (flush_start true troubled)).dirty ≡ false)
Reachable-flushed_example = Reachable-flushed troubled troubled-Reachable idle

abbrev late : Store ℕ
late =
    step (flush_ended true)
      (step (saved 3 true) (step (flush_started true) (step (changed 2 true true) fresh)))

saved-overwritten_example :
    (late.memory ≡ 3) × (late.disk ≡ some 2) × (late.dirty ≡ false) × (late.writing ≡ none)
saved-overwritten_example = saved-overwritten 2 3 1
