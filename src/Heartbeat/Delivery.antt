-- ===== src/Heartbeat/Delivery.antt =====
-- What a device makes of the answer to its poll: `handle_heartbeat` of `http/handlers/heartbeat.py`,
-- for any firmware that keeps the documented rules.
use containers_nix.Prelude.{
  ℕ, ◌+◌, ◌*◌, ◌/◌, ◌^◌, ◌≤◌, ◌<◌, ◌≡◌, refl, ap, ◌∙◌, inl, inr, Bool, true, false, not, select,
  none, List, [], ◌∷◌, ltb, ==_iff, ◌==◌, length, suc, if◌then◌else◌, arith, All, Bool-cases,
}
use containers_nix.Codec.{Text, codes}
use containers_nix.Value.{Value, obj, Fields, field_of, without, or_else}
use containers_nix.Value.Equal.{text_eq}
use containers_nix.Heartbeat.{
  Content, dumped, service_of, message, to_heartbeat_content, entries, handle_heartbeat,
  carries_commands,
}
use containers_nix.Heartbeat.Firmware.{Firmware, age}

abbrev pub is_empty : List Value → Bool
is_empty [] = true
is_empty (v ∷ vs) = false

young :
    (ts_ms ts o : ℕ) → ts_ms / 1000 ≡ ts → ts + o < 2 ^ 32 → age (ts_ms + o * 1000) (ts + o) < 61
young ts_ms ts o h k = ground (arith, h, k)

old :
    (ts_ms ts o : ℕ)
    → suc (ts_ms / 1000) ≡ ts
    → ts + o < 2 ^ 32
    → 61 ≤ age (ts_ms + o * 1000) (ts + o)
old ts_ms ts o h k = ground (arith, h, k)

module _ (shown : Value → Text) where
  -- The contents of the entries, in order.
  abbrev pub contents : (ℕ → ℕ) → ℕ → List Value → List Content
  contents clock o [] = []
  contents clock o (cmd ∷ cmds) =
      to_heartbeat_content shown (clock o) cmd ∷ contents clock (o + 1) cmds

  carries-entries :
      (ts_ms ts : ℕ) (clock : ℕ → ℕ) (cmds : List Value)
      → carries_commands shown (handle_heartbeat shown ts_ms ts clock cmds).1 ≡ not (is_empty cmds)
  unfolding carries_commands handle_heartbeat entries
  carries-entries ts_ms ts clock [] = refl
  carries-entries ts_ms ts clock (cmd ∷ cmds) = refl

  module _ (device : Firmware shown) (ts_ms ts : ℕ) (clock : ℕ → ℕ) where
    entries-carried :
        (o last : ℕ) (cmds : List Value)
        → ts_ms / 1000 ≡ ts
        → last < ts + o
        → ts + o + length cmds < 2 ^ 32
        → device.carried_out last (entries shown ts_ms ts clock o cmds)
          ≡ select device.dispatches (contents clock o cmds)
    unfolding entries
    entries-carried o last [] h l k = device.at_end last
    entries-carried o last (cmd ∷ cmds) h l k =
        let c = to_heartbeat_content shown (clock o) cmd in
        let rest = entries shown ts_ms ts clock (o + 1) cmds in
        let fresh = young ts_ms ts o h (omega arith) in
        elim (Bool-cases (device.dispatches c)) [
          | inl y ↦
              rw (y, select)
                (device.dispatched last (ts_ms + o * 1000) (ts + o) c rest l fresh y
                  ∙ ap (λ r. c ∷ r)
                      (entries-carried (o + 1) (ts + o) cmds h (omega arith) (omega arith)))
          | inr n ↦
              rw (n, select)
                (elim (device.dropped last (ts_ms + o * 1000) (ts + o) c rest l fresh n) [
                  | inl q ↦ q ∙ entries-carried (o + 1) last cmds h (omega arith) (omega arith)
                  | inr q ↦ q ∙ entries-carried (o + 1) (ts + o) cmds h (omega arith) (omega arith)
                ])
        ]

    entries_late :
        (o last : ℕ) (cmds : List Value)
        → suc (ts_ms / 1000) ≡ ts
        → ts + o + length cmds < 2 ^ 32
        → device.carried_out last (entries shown ts_ms ts clock o cmds) ≡ []
    unfolding entries
    entries_late o last [] h k = device.at_end last
    entries_late o last (cmd ∷ cmds) h k =
        let c = to_heartbeat_content shown (clock o) cmd in
        let rest = entries shown ts_ms ts clock (o + 1) cmds in
        let later = entries_late (o + 1) last cmds h (omega arith) in
        elim (Bool-cases (ltb last (ts + o))) [
          | inl b ↦
              device.expired last (ts_ms + o * 1000) (ts + o) c rest (ground (arith, b))
                (old ts_ms ts o h (omega arith))
              ∙ later
          | inr b ↦ device.seen last (ts_ms + o * 1000) (ts + o) c rest (ground (arith, b)) ∙ later
        ]

    entries_if :
        (o last : ℕ) (cmds : List Value)
        → ts_ms / 1000 ≤ ts
        → ts ≤ suc (ts_ms / 1000)
        → last < ts + o
        → ts + o + length cmds < 2 ^ 32
        → device.carried_out last (entries shown ts_ms ts clock o cmds)
          ≡ (if ts_ms / 1000 == ts then select device.dispatches (contents clock o cmds) else [])
    entries_if o last cmds a b l k = elim (Bool-cases (ts_ms / 1000 == ts)) [
      | inl y ↦ rw y (entries-carried o last cmds ((==_iff _ _).0 y) l k)
      | inr n ↦ rw n (entries_late o last cmds (ground (arith, n, a, b)) k)
    ]

    -- A device whose last command is older than the poll carries out, in order, the queued commands
    -- whose content has a `msgType` that it dispatches, where the two readings of the clock fall within
    -- one second; where the second reading falls in the next second it carries out none. The stamps fit
    -- 32 bits. Either way the queue is empty afterwards, and the answer counts as carrying commands
    -- exactly where the queue was not empty. The firmware is any that keeps the documented rules.
    pub handle_heartbeat-carried_out :
        (last : ℕ) (cmds : List Value)
        → ts_ms / 1000 ≤ ts
        → ts ≤ suc (ts_ms / 1000)
        → last < ts
        → ts + length cmds < 2 ^ 32
        → ((handle_heartbeat shown ts_ms ts clock cmds).0 ≡ [])
          × (carries_commands shown (handle_heartbeat shown ts_ms ts clock cmds).1
              ≡ not (is_empty cmds))
          × (device.carried_out last (handle_heartbeat shown ts_ms ts clock cmds).1 ≡ (
              if ts_ms / 1000 == ts then select device.dispatches (contents clock 0 cmds) else []))
    unfolding handle_heartbeat
    handle_heartbeat-carried_out last [] a b l k = (
      refl,
      carries-entries ts_ms ts clock [],
      device.idle last ts_ms [] ∙ device.at_end last ∙ none_left (ts_ms / 1000 == ts),
    )
      where
        none_left : (b : Bool) → ◌≡◌ {A = List Content} [] (if b then [] else [])
        none_left true = refl
        none_left false = refl
    handle_heartbeat-carried_out last (cmd ∷ cmds) a b l k = (
      refl,
      carries-entries ts_ms ts clock (cmd ∷ cmds),
      entries_if 0 last (cmd ∷ cmds) a b (omega arith) (omega arith),
    )

  -- An MQTT envelope as it is queued: an object that is no finished message.
  abbrev pub IsEnvelope : Value → Type 0
  IsEnvelope v = (cmd : Fields) × (v ≡ obj cmd) × (field_of "msgType" cmd ≡ none)

  module _ (device : Firmware shown) where
    message-dispatched :
        (now : ℕ) (service : Text) (params : Value)
        → device.dispatches (dumped (obj (message shown now service params))) ≡ true
    unfolding message field_of
    message-dispatched now service params =
        elim (Bool-cases (text_eq service (codes "property/set"))) [
          | inl y ↦ rw (y, message) (device.dispatches_known _ 1 refl)
          | inr n ↦ rw (n, message) (device.dispatches_known _ 2 refl)
        ]

    content-dispatched :
        (now : ℕ) (v : Value)
        → IsEnvelope v
        → device.dispatches (to_heartbeat_content shown now v) ≡ true
    unfolding to_heartbeat_content
    content-dispatched now v (cmd, e, q) = rw e (
        rw (q, to_heartbeat_content)
          (message-dispatched now (service_of shown cmd) (
            or_else (obj (without "_service_suffix" cmd))
              (field_of "params" (without "_service_suffix" cmd)))))

    contents-dispatched :
        (clock : ℕ → ℕ) (o : ℕ) (cmds : List Value)
        → All IsEnvelope cmds
        → select device.dispatches (contents clock o cmds) ≡ contents clock o cmds
    contents-dispatched clock o [] h = refl
    contents-dispatched clock o (cmd ∷ cmds) h =
        rw (content-dispatched (clock o) cmd h.0, select)
          (ap (λ r. to_heartbeat_content shown (clock o) cmd ∷ r)
            (contents-dispatched clock (o + 1) cmds h.1))

    -- Of queued objects that have no `msgType` of their own, a device whose last command is older
    -- than the poll carries out every one, in order, where the two readings of the clock fall within one
    -- second and the stamps fit 32 bits. The firmware is any that keeps the documented rules.
    pub handle_heartbeat-envelopes :
        (ts_ms ts : ℕ) (clock : ℕ → ℕ) (last : ℕ) (cmds : List Value)
        → All IsEnvelope cmds
        → ts_ms / 1000 ≡ ts
        → last < ts
        → ts + length cmds < 2 ^ 32
        → device.carried_out last (handle_heartbeat shown ts_ms ts clock cmds).1
          ≡ contents clock 0 cmds
    handle_heartbeat-envelopes ts_ms ts clock last cmds envelopes same l k =
        (handle_heartbeat-carried_out device ts_ms ts clock last cmds (omega (arith, same))
          (omega (arith, same)) l k).2
        ∙ rw ((==_iff (ts_ms / 1000) ts).1 same) (contents-dispatched clock 0 cmds envelopes)
