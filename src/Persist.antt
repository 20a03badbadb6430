-- ===== src/Persist.antt =====
-- The debounced writer of a registry: `PersistedRegistry` of `devices/registry.py`. A snapshot that is
-- serialised is of any type `A`.
pub mod Settled
mod Tests
use containers_nix.Prelude.{Bool, true, false, ◌||◌, not, Option, none, some, if◌then◌else◌}

pub record Store {ℓ} (A : Type ℓ) : Type ℓ where
  -- Whether there is a `_persist_path`.
  pub has_path : Bool
  -- What `_serialize` gives.
  pub memory : A
  pub disk : Option A
  pub dirty : Bool
  -- The text that a worker thread is writing.
  pub writing : Option A

module _ {ℓ} {A : Type ℓ} where
  -- `save`, and whether the write works
  unfoldable pub save : Bool → Store A → Store A
  save written st =
      if not st.has_path
      then record st { dirty = false }
      else if written
      then record st { dirty = false; disk = some st.memory }
      else record st { dirty = true }

  -- `mark_dirty`, with an event loop that a flusher runs on or without one
  unfoldable pub mark_dirty : Bool → Bool → Store A → Store A
  unfolding save
  mark_dirty has_flusher written st =
      if not st.has_path
      then st
      else let marked = record st { dirty = true } in
        if not has_flusher then save written marked else marked

  -- `flush` up to the worker thread, and whether the snapshot can be serialised
  unfoldable pub flush_start : Bool → Store A → Store A
  flush_start serialises st =
      if not st.dirty || not st.has_path
      then st
      else if not serialises
      then record st { dirty = false }
      else record st { dirty = false; writing = some st.memory }

  -- and from there on, as the write works or not
  unfoldable pub flush_end : Bool → Store A → Store A
  flush_end written st = elim st.writing [
    | none ↦ st
    | some text ↦
        if written
        then record st { disk = some text; writing = none }
        else record st { dirty = true; writing = none }
  ]

  -- What `stop` does after it has cancelled the flusher, as `_on_flusher_done` does.
  unfoldable pub save_pending : Bool → Store A → Store A
  unfolding save
  save_pending written st = if st.dirty then save written st else st
