-- ===== src/Persist/Settled.antt =====
-- When a registry of `devices/registry.py` is on disk as it is in memory.
use containers_nix.Prelude.{
  ◌≡◌, refl, sym, ap, ◌∙◌, inl, inr, Bool, true, false, ◌||◌, not, Option, none, some,
  if◌then◌else◌, Bool-cases, Option-cases, subst,
}
use containers_nix.Persist.{Store, save, mark_dirty, flush_start, flush_end, save_pending}

-- What happens to a registry: a change that is marked or saved at once, a flush that starts or ends,
-- and the end of the flusher.
pub data Event {ℓ} (A : Type ℓ) : Type ℓ where
  changed : A → Bool → Bool → Event A
  saved : A → Bool → Event A
  flush_started : Bool → Event A
  flush_ended : Bool → Event A
  stopped : Bool → Event A

module _ {ℓ} {A : Type ℓ} where
  unfoldable pub step : Event A → Store A → Store A
  step (changed a has_flusher written) st =
      mark_dirty has_flusher written (record st { memory = a })
  step (saved a written) st = save written (record st { memory = a })
  step (flush_started serialises) st = flush_start serialises st
  step (flush_ended written) st = flush_end written st
  step (stopped written) st = save_pending written st

  -- An event that does not write to the disk while a worker thread does, nor starts a flush then, or one
  -- of what cannot be serialised.
  abbrev pub Orderly : Event A → Store A → Type ℓ
  Orderly (changed a true written) st = Unit
  Orderly (flush_ended written) st = Unit
  Orderly (flush_started serialises) st = (serialises ≡ true) × (st.writing ≡ none)
  Orderly e st = st.writing ≡ none

  -- What is left of a registry that was read from disk, after any orderly events.
  pub data Reachable : Store A → Type ℓ where
    loaded :
        (a : A)
        → Reachable
            (record { has_path = true; memory = a; disk = some a; dirty = false; writing = none })
    after : (e : Event A) (st : Store A) → Reachable st → Orderly e st → Reachable (step e st)

  -- A clean registry is on disk, or on its way there.
  abbrev held : Option A → Option A → Option A
  held disk none = disk
  held disk (some text) = some text

  abbrev pub IsSettled : Store A → Type ℓ
  IsSettled st =
      (st.has_path ≡ true) × (st.dirty ≡ false → held st.disk st.writing ≡ some st.memory)

  save-IsSettled :
      (w : Bool) (st : Store A) → st.has_path ≡ true → st.writing ≡ none → IsSettled (save w st)
  unfolding save
  save-IsSettled true st p q =
      subst IsSettled
        (sym (
          ap
            (λ b.
              if not b
              then record st { dirty = false }
              else record st { dirty = false; disk = some st.memory })
            p))
        (p, λ e. ap (held (some st.memory)) q)
  save-IsSettled false st p q =
      subst IsSettled
        (sym
          (ap (λ b. if not b then record st { dirty = false } else record st { dirty = true }) p))
        (p, λ e. cc)

  changed-IsSettled :
      (f w : Bool) (st : Store A)
      → st.has_path ≡ true
      → Orderly (changed st.memory f w) st
      → IsSettled (mark_dirty f w st)
  unfolding mark_dirty
  changed-IsSettled true w st p o =
      subst IsSettled (sym (ap (λ b. if not b then st else record st { dirty = true }) p))
        (p, λ e. cc)
  changed-IsSettled false w st p o =
      subst IsSettled (sym (ap (λ b. if not b then st else save w (record st { dirty = true })) p))
        (save-IsSettled w (record st { dirty = true }) p o)

  not_else : (b : Bool) (x y : Store A) → (if not b || false then x else y) ≡ (if b then y else x)
  not_else true x y = refl
  not_else false x y = refl

  if-IsSettled :
      (b : Bool) (x y : Store A) → IsSettled x → IsSettled y → IsSettled (if b then x else y)
  if-IsSettled true x y h k = h
  if-IsSettled false x y h k = k

  abbrev ended : Bool → Store A → Option A → Store A
  ended w st none = st
  ended w st (some text) =
      if w
      then record st { disk = some text; writing = none }
      else record st { dirty = true; writing = none }

  ended-IsSettled :
      (w : Bool) (st : Store A) (text : A)
      → st.has_path ≡ true
      → (st.dirty ≡ false → some text ≡ some st.memory)
      → IsSettled (ended w st (some text))
  ended-IsSettled true st text p h = (p, h)
  ended-IsSettled false st text p h = (p, λ e. cc)

  -- A flush of a registry that has a path.
  flush_start-path :
      (st : Store A)
      → st.has_path ≡ true
      → flush_start true st
        ≡ (if st.dirty then record st { dirty = false; writing = some st.memory } else st)
  unfolding flush_start
  flush_start-path st p =
      ap
        (λ b.
          if not st.dirty || not b
          then st
          else record st { dirty = false; writing = some st.memory })
        p
      ∙ not_else st.dirty st (record st { dirty = false; writing = some st.memory })

  flush_end-IsSettled : (w : Bool) (st : Store A) → IsSettled st → IsSettled (flush_end w st)
  unfolding flush_end
  flush_end-IsSettled w st (p, h) = elim (Option-cases st.writing) [
    | inl e ↦ subst IsSettled (sym (ap (ended w st) e)) (p, h)
    | inr (text, e) ↦
        subst IsSettled (sym (ap (ended w st) e))
          (ended-IsSettled w st text p (λ d. sym (ap (held st.disk) e) ∙ h d))
  ]

  step-IsSettled :
      (e : Event A) (st : Store A) → IsSettled st → Orderly e st → IsSettled (step e st)
  unfolding step save_pending
  step-IsSettled (changed a true w) st (p, h) o =
      changed-IsSettled true w (record st { memory = a }) p o
  step-IsSettled (changed a false w) st (p, h) o =
      changed-IsSettled false w (record st { memory = a }) p o
  step-IsSettled (saved a w) st (p, h) o = save-IsSettled w (record st { memory = a }) p o
  step-IsSettled (flush_started false) st h o = let no = o.0 in cc
  step-IsSettled (flush_started true) st (p, h) o =
      subst IsSettled (sym (flush_start-path st p))
        (if-IsSettled st.dirty _ st (p, λ e. refl) (p, h))
  step-IsSettled (flush_ended w) st h o = flush_end-IsSettled w st h
  step-IsSettled (stopped w) st (p, h) o =
      if-IsSettled st.dirty _ st (save-IsSettled w st p o) (p, h)

  Reachable-IsSettled : (st : Store A) → Reachable st → IsSettled st
  Reachable-IsSettled st (loaded a) = (refl, λ e. refl)
  Reachable-IsSettled st (after e s r o) = step-IsSettled e s (Reachable-IsSettled s r) o

  abbrev OnDisk : A → Store A → Type ℓ
  OnDisk m st = (st.disk ≡ some m) × (st.memory ≡ m) × (st.dirty ≡ false)

  clean-OnDisk :
      (st : Store A) → IsSettled st → st.writing ≡ none → st.dirty ≡ false → OnDisk st.memory st
  clean-OnDisk st (p, h) q d = (sym (ap (held st.disk) q) ∙ h d, refl, d)

  flushed :
      (st : Store A)
      → IsSettled st
      → st.writing ≡ none
      → OnDisk st.memory (flush_end true (flush_start true st))
  unfolding flush_end
  flushed st (p, h) q = elim (Bool-cases st.dirty) [
    | inl d ↦
        let started : record st { dirty = false; writing = some st.memory } ≡ flush_start true st =
          sym (
            flush_start-path st p
            ∙ ap (λ b. if b then record st { dirty = false; writing = some st.memory } else st)
                d) in
        subst (λ x. OnDisk st.memory (flush_end true x)) started (refl, refl, refl)
    | inr d ↦
        let idle : st ≡ flush_start true st = sym (
          flush_start-path st p
          ∙ ap (λ b. if b then record st { dirty = false; writing = some st.memory } else st) d) in
        subst (λ x. OnDisk st.memory (flush_end true x)) idle
          (subst (OnDisk st.memory) (sym (ap (ended true st) q)) (clean-OnDisk st (p, h) q d))
  ]

  -- A registry that was read from disk and has gone through any changes, saves, flushes and stops, of
  -- which none wrote to the disk or started a flush while a worker thread wrote, is on disk as it is
  -- in memory once a flush has started and its write has worked, and is clean then. Any earlier write
  -- may have failed; all that was flushed could be serialised.
  pub Reachable-flushed :
      (st : Store A)
      → Reachable st
      → st.writing ≡ none
      → ((flush_end true (flush_start true st)).disk ≡ some st.memory)
        × ((flush_end true (flush_start true st)).memory ≡ st.memory)
        × ((flush_end true (flush_start true st)).dirty ≡ false)
  Reachable-flushed st r q = flushed st (Reachable-IsSettled st r) q

  -- A save during a flush is lost: after a change, the start of a flush, a save of a later change and
  -- the end of the flush, each of them with success, the registry counts as clean and the disk has the
  -- earlier change.
  pub saved-overwritten :
      (a b c : A)
      → let late = step (flush_ended true) (
          step (saved b true) (
            step (flush_started true) (
              step (changed a true true) (record {
                has_path = true;
                memory = c;
                disk = some c;
                dirty = false;
                writing = none;
              })))) in
        (late.memory ≡ b) × (late.disk ≡ some a) × (late.dirty ≡ false) × (late.writing ≡ none)
  unfolding step save mark_dirty flush_start flush_end
  saved-overwritten a b c = (refl, refl, refl, refl)
