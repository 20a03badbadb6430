-- ===== src/Heartbeat.antt =====
-- The poll by which commands reach a device over HTTP: `http/handlers/heartbeat.py`.
pub mod Firmware
pub mod Delivery
pub mod Envelope
mod Tests
use containers_nix.Prelude.{
  ℕ, ◌+◌, ◌*◌, Bool, true, false, ◌&&◌, ◌||◌, not, Option, none, some, List, [], ◌∷◌, ◌++◌, ◌==◌,
  String, str_eq, if◌then◌else◌, map,
}
use containers_nix.Prelude.Int.{pos}
use containers_nix.Codec.{Text, codes}
use containers_nix.Value.{
  Value, null, bool, int, float, str, bytes, obj, arr, Fields, field, end, Items, cons, nil,
  field_of, without, with_field, truthy, or_else,
}
use containers_nix.Mqtt.Pattern.{strip_prefix}
use containers_nix.Value.Equal.{text_eq}

-- The `content` of an entry: a text that was queued as such, or what `json.dumps` makes of a value.
pub data Content : Type 0 where
  raw : Text → Content
  dumped : Value → Content

-- `s.partition(l)`: what follows the first occurrence of `l`.
unfoldable pub after_first : Text → Text → Option Text
unfolding strip_prefix
after_first l [] = strip_prefix l []
after_first l (c ∷ s) =
    let later = after_first l s in elim (strip_prefix l (c ∷ s)) [ some r ↦ some r | none ↦ later ]

-- `s.replace(".", "/")`
abbrev pub dots_to_slashes : Text → Text
dots_to_slashes = map (λ c. if c == b'.' then b'/' else c)

abbrev pub service_named : Option Text → Text
service_named none = []
service_named (some tail) = dots_to_slashes tail

-- `str(v)` of a value that is no text is a parameter.
module _ (shown : Value → Text) where
  abbrev pub text_of : Value → Text
  text_of (str s) = s
  text_of v = shown v

  -- `_service_of`: the service, of a command whose `_service_suffix` the caller then drops.
  unfoldable pub service_of : Fields → Text
  unfolding truthy field_of after_first
  service_of cmd =
      let suffix = or_else (str []) (field_of "_service_suffix" cmd) in
      if truthy suffix
      then text_of suffix
      else service_named (
          after_first (codes "thing.service.") (text_of (or_else (str []) (field_of "method" cmd))))

  -- The message for a command that is no finished one, at `now` in seconds.
  unfoldable pub message : ℕ → Text → Value → Fields
  unfolding text_eq
  message now service params =
      if text_eq service (codes "property/set")
      then field "msgType" (int (pos 1))
          (field "payload" params (field "timestamp" (int (pos now)) end))
      else field "msgType" (int (pos 2)) (
          field "payload" params (
            field "type" (str (if text_eq service [] then codes "start" else service))
              (field "timestamp" (int (pos now)) end)))

  unfoldable pub stamped : ℕ → Fields → Fields
  unfolding with_field field_of
  stamped now cmd = elim (field_of "timestamp" cmd) [
    | some _ ↦ cmd
    | none ↦ with_field "timestamp" (int (pos now)) cmd
  ]

  abbrev pub envelope : ℕ → Fields → Fields
  envelope now cmd =
      let rest = without "_service_suffix" cmd in
      message now (service_of cmd) (or_else (obj rest) (field_of "params" rest))

  unfoldable pub to_heartbeat_content : ℕ → Value → Content
  unfolding service_of message stamped without field_of
  to_heartbeat_content now (str s) = raw s
  to_heartbeat_content now (obj cmd) = elim (field_of "msgType" cmd) [
    | some _ ↦ dumped (obj (stamped now cmd))
    | none ↦ dumped (obj (envelope now cmd))
  ]
  to_heartbeat_content now v = dumped v

  -- One entry of `result[]`: `time` in milliseconds, and with a command its `timestamp` in seconds.
  pub record Entry : Type 0 where
    pub time : ℕ
    pub command : Option (ℕ × Content)

  -- The entries for the commands from the one with this offset on. The clock is read anew for each
  -- command, where its content needs it: `clock` gives the second by the offset.
  unfoldable pub entries : ℕ → ℕ → (ℕ → ℕ) → ℕ → List Value → List Entry
  unfolding to_heartbeat_content
  entries ts_ms ts clock offset [] = []
  entries ts_ms ts clock offset (cmd ∷ cmds) =
      record {
        time = ts_ms + offset * 1000;
        command = some (ts + offset, to_heartbeat_content (clock offset) cmd);
      }
      ∷ entries ts_ms ts clock (offset + 1) cmds

  -- `handle_heartbeat` for a known device: the queue that is left and `result[]`. The clock is read to
  -- `ts_ms` on entry, and with the queue drained to `ts` and then for the contents.
  unfoldable pub handle_heartbeat : ℕ → ℕ → (ℕ → ℕ) → List Value → List Value × List Entry
  unfolding entries
  handle_heartbeat ts_ms ts clock [] = ([], record { time = ts_ms; command = none } ∷ [])
  handle_heartbeat ts_ms ts clock (cmd ∷ cmds) = ([], entries ts_ms ts clock 0 (cmd ∷ cmds))

  abbrev pub is_idle_marker : Entry → Bool
  is_idle_marker e = elim e.command [ none ↦ true | some _ ↦ false ]

  unfoldable pub carries_commands : List Entry → Bool
  carries_commands [] = false
  carries_commands (e ∷ es) = not (is_idle_marker e) || carries_commands es
