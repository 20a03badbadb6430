-- ===== src/Heartbeat/Firmware.antt =====
-- What the firmware does with the answer to a poll, as the header of `http/handlers/heartbeat.py`
-- documents it. The firmware itself is a parameter: any device that keeps these rules.
use containers_nix.Prelude.{
  ℕ, ◌+◌, ◌-◌, ◌/◌, ◌%◌, ◌^◌, ◌≤◌, ◌<◌, ◌≡◌, ◌⊎◌, Bool, true, false, none, some, List, [], ◌∷◌, leb,
}
use containers_nix.Prelude.Int.{pos}
use containers_nix.Codec.{Text}
use containers_nix.Value.{Value, int, obj, Fields, field_of}
use containers_nix.Heartbeat.{Content, dumped, Entry}

-- `time/1000 - timestamp`, on 32-bit words
abbrev pub age : ℕ → ℕ → ℕ
age time timestamp = (time / 1000 + 2 ^ 32 - timestamp) % 2 ^ 32

module _ (shown : Value → Text) where
  abbrev pub command_entry : ℕ → ℕ → Content → Entry shown
  command_entry time timestamp content = record { time = time; command = some (timestamp, content) }

  pub record Firmware : Type 0 where
    -- Whether a content's `msgType` is one that is dispatched.
    pub dispatches : Content → Bool
    -- The contents that are carried out, by a device whose last consumed entry had this time stamp.
    pub carried_out : ℕ → List (Entry shown) → List Content
    -- `content.msgType` may be 0, 1 or 2.
    pub dispatches_known :
        (fs : Fields) (n : ℕ)
        → field_of "msgType" fs ≡ some (int (pos n))
        → dispatches (dumped (obj fs)) ≡ leb n 2
    pub at_end : (last : ℕ) → carried_out last [] ≡ []
    pub idle :
        (last time : ℕ) (es : List (Entry shown))
        → carried_out last (record { time = time; command = none } ∷ es) ≡ carried_out last es
    -- A time stamp that is not greater than the last one is discarded as seen,
    pub seen :
        (last time timestamp : ℕ) (c : Content) (es : List (Entry shown))
        → timestamp ≤ last
        → carried_out last (command_entry time timestamp c ∷ es) ≡ carried_out last es
    -- and an age of 61 or more as expired.
    pub expired :
        (last time timestamp : ℕ) (c : Content) (es : List (Entry shown))
        → last < timestamp
        → 61 ≤ age time timestamp
        → carried_out last (command_entry time timestamp c ∷ es) ≡ carried_out last es
    pub dispatched :
        (last time timestamp : ℕ) (c : Content) (es : List (Entry shown))
        → last < timestamp
        → age time timestamp < 61
        → dispatches c ≡ true
        → carried_out last (command_entry time timestamp c ∷ es) ≡ c ∷ carried_out timestamp es
    -- What is not dispatched is dropped, and its time stamp may count as consumed or not.
    pub dropped :
        (last time timestamp : ℕ) (c : Content) (es : List (Entry shown))
        → last < timestamp
        → age time timestamp < 61
        → dispatches c ≡ false
        → (carried_out last (command_entry time timestamp c ∷ es) ≡ carried_out last es)
          ⊎ (carried_out last (command_entry time timestamp c ∷ es) ≡ carried_out timestamp es)
