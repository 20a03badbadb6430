-- ===== src/Mqtt/Links.antt =====
-- Which devices are connected to the real cloud: the supervisor of `mqtt/upstream.py`.
pub mod Running
use containers_nix.Prelude.{
  ℕ, Bool, true, false, ◌&&◌, ◌||◌, not, List, [], ◌∷◌, ◌++◌, ◌==◌, select, if◌then◌else◌,
}

-- A task of `_tasks`: the device's id, and whether it is done.
abbrev pub Task : Type 0
Task = ℕ × Bool

pub record Upstream : Type 0 where
  -- `proxy_mode` and `proxy_mqtt_bridge` of the live configuration
  pub proxy_mode : Bool
  pub proxy_mqtt_bridge : Bool
  -- The ids that credentials are stored for, and those of the registry.
  pub credentials : List ℕ
  pub registry : List ℕ
  pub tasks : List Task

abbrev pub wanted : Upstream → Bool
wanted st = st.proxy_mode && st.proxy_mqtt_bridge

unfoldable pub is_known : ℕ → List ℕ → Bool
is_known i [] = false
is_known i (j ∷ js) = j == i || is_known i js

unfoldable pub has_task : ℕ → List Task → Bool
has_task i [] = false
has_task i ((j, done) ∷ tasks) = j == i || has_task i tasks

abbrev pub reap : List Task → List Task
reap = select (λ task. not task.1)

-- One turn of the loop over the credentials.
unfoldable pub connect : List ℕ → ℕ → List Task → List Task
unfolding is_known has_task
connect registry i tasks =
    if has_task i tasks
    then tasks
    else if not (is_known i registry)
    then tasks
    else tasks ++ (i, false) ∷ []

unfoldable pub connect_all : List ℕ → List ℕ → List Task → List Task
unfolding connect
connect_all registry [] tasks = tasks
connect_all registry (i ∷ is) tasks = connect_all registry is (connect registry i tasks)

-- `stop`, as to the tasks that are left
abbrev pub stop : Upstream → Upstream
stop st = record st { tasks = [] }

unfoldable pub reconcile : Upstream → Upstream
unfolding connect_all
reconcile st =
    if not (wanted st)
    then stop st
    else record st { tasks = connect_all st.registry st.credentials (reap st.tasks) }
