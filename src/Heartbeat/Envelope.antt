-- ===== src/Heartbeat/Envelope.antt =====
-- The message that an MQTT envelope becomes: `_service_of` and `_to_heartbeat_content` of
-- `http/handlers/heartbeat.py`.
use containers_nix.Prelude.{
  String, str_eq, eq_iff, ℕ, ◌≡◌, refl, ap, ◌∙◌, ◌≢◌, inl, inr, true, false, none, some, [], ◌∷◌,
  ◌++◌, ◌==◌, map, All, if◌then◌else◌, arith, Bool-cases,
}
use containers_nix.Prelude.Int.{pos}
use containers_nix.Codec.{Text, codes}
use containers_nix.Value.{without, Value, str, int, obj, Fields, field, end, field_of}
use containers_nix.Value.Equal.{text_eq}
use containers_nix.Mqtt.Topics.Parsed.{strip_prefix-append}
use containers_nix.Heartbeat.{
  dumped, after_first, dots_to_slashes, service_named, service_of, message, to_heartbeat_content,
}

-- A service's name as a method spells it.
abbrev pub slashes_to_dots : Text → Text
slashes_to_dots = map (λ c. if c == b'/' then b'.' else c)

dots-slashes :
    (s : Text) → All (λ c. (c == b'.') ≡ false) s → dots_to_slashes (slashes_to_dots s) ≡ s
dots-slashes [] h = refl
dots-slashes (c ∷ s) h = ground (arith, h.0, dots-slashes s h.1)

after_first-append : (l s : Text) → l ≢ [] → after_first l (l ++ s) ≡ some s
unfolding after_first
after_first-append [] s ne = absurd (ne refl)
after_first-append (c ∷ l) s ne = rw (strip_prefix-append (c ∷ l) s, after_first)

text_eq_refl : (s : Text) → text_eq s s ≡ true
unfolding text_eq
text_eq_refl [] = refl
text_eq_refl (c ∷ s) = ground (arith, text_eq_refl s)

abbrev set_message : ℕ → Value → Fields
set_message now params =
    field "msgType" (int (pos 1)) (field "payload" params (field "timestamp" (int (pos now)) end))

abbrev invoke_message : ℕ → Text → Value → Fields
invoke_message now service params =
    field "msgType" (int (pos 2))
      (field "payload" params (field "type" (str service) (field "timestamp" (int (pos now)) end)))

-- Dropping one key leaves the others.
field_of-without :
    (k j : String) (fs : Fields) → str_eq j k ≡ false → field_of k (without j fs) ≡ field_of k fs
unfolding field_of without
field_of-without k j end h = refl
field_of-without k j (field i v fs) h = elim (Bool-cases (str_eq i j)) [
  | inl y ↦
      let same : i ≡ j = (eq_iff i j).0 y in
      let apart : str_eq i k ≡ false = rw same h in rw (y, without, apart, field_of)
  | inr n ↦ ground (arith, n, field_of-without k j fs h)
]

module _ (shown : Value → Text) where
  -- The service of an envelope that names it by its method alone.
  service_of-method :
      (cmd : Fields) (service : Text)
      → field_of "_service_suffix" cmd ≡ none
      → field_of "method" cmd ≡ some (str (codes "thing.service." ++ slashes_to_dots service))
      → All (λ c. (c == b'.') ≡ false) service
      → service_of shown cmd ≡ service
  unfolding service_of
  service_of-method cmd service none_set method h =
      rw (none_set, method, service_of)
        (ap service_named
            (after_first-append (codes "thing.service.") (slashes_to_dots service) (λ e. cc))
          ∙ dots-slashes service h)

  service_of-suffix :
      (cmd : Fields) (c : ℕ) (s : Text)
      → field_of "_service_suffix" cmd ≡ some (str (c ∷ s))
      → service_of shown cmd ≡ c ∷ s
  unfolding service_of
  service_of-suffix cmd c s suffix = rw (suffix, service_of)

  message_fields :
      (now c : ℕ) (s : Text) (params : Value)
      → let m = message shown now (c ∷ s) params in
        (field_of "payload" m ≡ some params)
        × (field_of "timestamp" m ≡ some (int (pos now)))
        × (field_of "msgType" m
            ≡ some (int (pos (if text_eq (c ∷ s) (codes "property/set") then 1 else 2))))
        × (field_of "type" m
            ≡ (if text_eq (c ∷ s) (codes "property/set") then none else some (str (c ∷ s))))
  unfolding message field_of
  message_fields now c s params = elim (Bool-cases (text_eq (c ∷ s) (codes "property/set"))) [
    | inl y ↦ rw (y, message) (refl, refl, refl, refl)
    | inr n ↦ rw (n, message) (refl, refl, refl, refl)
  ]

  -- The message of an envelope with this service and these parameters.
  content-message :
      (now : ℕ) (cmd : Fields) (service : Text) (params : Value)
      → field_of "msgType" cmd ≡ none
      → field_of "params" cmd ≡ some params
      → service_of shown cmd ≡ service
      → to_heartbeat_content shown now (obj cmd) ≡ dumped (obj (message shown now service params))
  unfolding to_heartbeat_content
  content-message now cmd service params fresh given named = rw (
    fresh,
    field_of-without "params" "_service_suffix" cmd refl,
    given,
    named,
    to_heartbeat_content,
  )

  -- Two queued envelopes with the same parameters, whatever else they hold, become the same message if
  -- one names a service by `_service_suffix`, beside any `method`, and the other by `method` alone, for
  -- a service whose name is not empty and has no full stop: of type 1 and with no `type` for
  -- `property/set`, of type 2 and with the service as its `type` for any other. The payload is the
  -- parameters, and the time stamp is that of the call.
  pub to_heartbeat_content-service :
      (now : ℕ) (service : Text) (params : Value) (by_suffix by_method : Fields)
      → service ≢ []
      → All (λ c. (c == b'.') ≡ false) service
      → field_of "msgType" by_suffix ≡ none
      → field_of "msgType" by_method ≡ none
      → field_of "params" by_suffix ≡ some params
      → field_of "params" by_method ≡ some params
      → field_of "_service_suffix" by_suffix ≡ some (str service)
      → field_of "_service_suffix" by_method ≡ none
      → field_of "method" by_method ≡ some (str (codes "thing.service." ++ slashes_to_dots service))
      → (m : Fields) × (to_heartbeat_content shown now (obj by_suffix) ≡ dumped (obj m))
        × (to_heartbeat_content shown now (obj by_method) ≡ dumped (obj m))
        × (field_of "payload" m ≡ some params)
        × (field_of "timestamp" m ≡ some (int (pos now)))
        × (field_of "msgType" m
            ≡ some (int (pos (if text_eq service (codes "property/set") then 1 else 2))))
        × (field_of "type" m
            ≡ (if text_eq service (codes "property/set") then none else some (str service)))
  to_heartbeat_content-service now [] params a b ne h new_a new_b given_a given_b suffix no_suffix
        method =
      absurd (ne refl)
  to_heartbeat_content-service now (c ∷ s) params a b ne h new_a new_b given_a given_b suffix
        no_suffix method =
      let (payload, timestamp, kind, named) = message_fields now c s params in
      (
        message shown now (c ∷ s) params,
        content-message now a (c ∷ s) params new_a given_a (service_of-suffix a c s suffix),
        content-message now b (c ∷ s) params new_b given_b
            (service_of-method b (c ∷ s) no_suffix method h),
        payload,
        timestamp,
        kind,
        named,
      )
