-- ===== src/Mqtt/Links/Running.antt =====
-- Which devices have a task after a pass of the supervisor of `mqtt/upstream.py`.
use containers_nix.Prelude.{
  ℕ, ◌≡◌, refl, sym, ap, ◌∙◌, subst, inl, inr, Bool, true, false, ◌&&◌, ◌||◌, not, List, [], ◌∷◌,
  ◌++◌, ◌==◌, ==_iff, if◌then◌else◌, arith, Bool-cases,
}
use containers_nix.Mqtt.Links.{
  Task, Upstream, wanted, is_known, has_task, reap, connect, connect_all, stop, reconcile,
}

-- Whether a device has a task that is not done.
unfoldable pub is_running : ℕ → List Task → Bool
is_running i [] = false
is_running i ((j, done) ∷ tasks) = (j == i && not done) || is_running i tasks

has_task-reap : (i : ℕ) (tasks : List Task) → has_task i (reap tasks) ≡ is_running i tasks
unfolding has_task is_running
has_task-reap i [] = refl
has_task-reap i ((j, true) ∷ tasks) = elim (Bool-cases (j == i)) [
  | inl y ↦ rw y (has_task-reap i tasks)
  | inr n ↦ rw n (has_task-reap i tasks)
]
has_task-reap i ((j, false) ∷ tasks) = elim (Bool-cases (j == i)) [
  | inl y ↦ rw y refl
  | inr n ↦ rw n (has_task-reap i tasks)
]

has_task-append :
    (i j : ℕ) (tasks : List Task)
    → has_task i (tasks ++ (j, false) ∷ []) ≡ (has_task i tasks || j == i)
unfolding has_task
has_task-append i j [] = elim (Bool-cases (j == i)) [ inl y ↦ rw y refl | inr n ↦ rw n refl ]
has_task-append i j ((k, done) ∷ tasks) = elim (Bool-cases (k == i)) [
  | inl y ↦ rw y refl
  | inr n ↦ rw n (has_task-append i j tasks)
]

or_absorbs : (a b : Bool) → (b ≡ true → a ≡ true) → a ≡ (a || b)
or_absorbs true b h = refl
or_absorbs false true h = h refl
or_absorbs false false h = refl

and_both : (a b : Bool) → (a && b) ≡ true → (a ≡ true) × (b ≡ true)
and_both true b h = (refl, h)
and_both false b h = cc

has_task-connect :
    (registry : List ℕ) (i j : ℕ) (tasks : List Task)
    → has_task i (connect registry j tasks) ≡ (has_task i tasks || (j == i && is_known i registry))
unfolding connect
has_task-connect registry i j tasks = elim (Bool-cases (has_task j tasks)) [
  | inl y ↦
      rw (y, connect)
        (or_absorbs _ _
          (λ h. subst (λ k. has_task k tasks ≡ true) ((==_iff j i).0 (and_both (j == i) _ h).0) y))
  | inr n ↦ elim (Bool-cases (is_known j registry)) [
    | inl k ↦
        rw (n, k, connect)
          (has_task-append i j tasks
            ∙ ap (λ b. has_task i tasks || b)
                (or_known (j == i) (is_known i registry)
                  (λ e. subst (λ x. is_known x registry ≡ true) ((==_iff j i).0 e) k)))
    | inr k ↦
        rw (n, k, connect)
          (or_absorbs _ _ (λ h.
            let same : j ≡ i = (==_iff j i).0 (and_both (j == i) _ h).0 in
            let unknown = subst (λ x. is_known x registry ≡ false) same k in
            absurd (ground (arith, unknown, (and_both (j == i) _ h).1))))
  ]
]
  where
    or_known : (e r : Bool) → (e ≡ true → r ≡ true) → e ≡ (e && r)
    or_known true r h = sym (h refl)
    or_known false r h = refl

regroup : (a e l r : Bool) → ((a || (e && r)) || (l && r)) ≡ (a || ((e || l) && r))
regroup true e l r = refl
regroup false true l true = refl
regroup false true true false = refl
regroup false true false false = refl
regroup false false l r = refl

has_task-connect_all :
    (registry : List ℕ) (i : ℕ) (js : List ℕ) (tasks : List Task)
    → has_task i (connect_all registry js tasks)
      ≡ (has_task i tasks || (is_known i js && is_known i registry))
unfolding connect_all is_known
has_task-connect_all registry i [] tasks = or_absorbs (has_task i tasks) false (λ h. cc)
has_task-connect_all registry i (j ∷ js) tasks =
    has_task-connect_all registry i js (connect registry j tasks)
    ∙ ap (λ b. b || (is_known i js && is_known i registry)) (has_task-connect registry i j tasks)
    ∙ regroup (has_task i tasks) (j == i) (is_known i js) (is_known i registry)

has_task-chosen :
    (b : Bool) (st : Upstream) (tasks : List Task) (i : ℕ)
    → has_task i (if not b then stop st else record st { tasks = tasks }).tasks
      ≡ (b && has_task i tasks)
unfolding has_task
has_task-chosen true st tasks i = refl
has_task-chosen false st tasks i = refl

-- After a pass of the supervisor, a device has a task exactly where the configuration asks for the
-- bridge and the device had one that was not done, or has credentials and is in the registry.
pub reconcile-running :
    (st : Upstream) (i : ℕ)
    → has_task i (reconcile st).tasks ≡ (
        wanted st
        && (is_running i st.tasks || (is_known i st.credentials && is_known i st.registry)))
unfolding reconcile
reconcile-running st i =
    has_task-chosen (wanted st) st (connect_all st.registry st.credentials (reap st.tasks)) i
    ∙ ap (λ b. wanted st && b)
        (has_task-connect_all st.registry i st.credentials (reap st.tasks)
          ∙ ap (λ b. b || (is_known i st.credentials && is_known i st.registry))
              (has_task-reap i st.tasks))
