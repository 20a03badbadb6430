-- ===== src/Heartbeat/Tests.antt =====
-- The theorems of the heartbeat at concrete inputs, for a firmware that is written out.
use containers_nix.Prelude.{
  ℕ, ◌≤◌, ◌<◌, ◌≡◌, refl, inl, Bool, true, false, not, Option, none, some, List, [], ◌∷◌, arith,
  ltb, leb, lt→ltb, if◌then◌else◌,
}
use containers_nix.Prelude.Int.{pos}
use containers_nix.Codec.{Text, codes}
use containers_nix.Value.{Value, int, str, obj, arr, nil, Fields, field, end, field_of}
use containers_nix.Value.Equal.{text_eq}
use containers_nix.Heartbeat.{
  Content, dumped, Entry, to_heartbeat_content, handle_heartbeat, carries_commands,
}
use containers_nix.Heartbeat.Firmware.{Firmware, age, command_entry}
use containers_nix.Heartbeat.Delivery.{
  is_empty, contents, IsEnvelope, handle_heartbeat-carried_out, handle_heartbeat-envelopes,
}
use containers_nix.Heartbeat.Envelope.{to_heartbeat_content-service}

abbrev no_text : Value → Text
no_text v = []

abbrev is_known : Option Value → Bool
is_known (some (int (pos n))) = leb n 2
is_known v = false

abbrev known : Content → Bool
known (dumped (obj fs)) = is_known (field_of "msgType" fs)
known c = false

-- The entries that are carried out; a time stamp counts as consumed where its entry is dispatched.
unfoldable run : ℕ → List (Entry no_text) → List Content
unfolding field_of
run last [] = []
run last (e ∷ es) = elim e.command [
  | none ↦ run last es
  | some (timestamp, c) ↦
      let skipped = run last es in
      let taken = run timestamp es in
      if not (ltb last timestamp)
      then skipped
      else if leb 61 (age e.time timestamp)
      then skipped
      else if known c
      then c ∷ taken
      else skipped
]

run-seen :
    (last time timestamp : ℕ) (c : Content) (es : List (Entry no_text))
    → timestamp ≤ last
    → run last (command_entry no_text time timestamp c ∷ es) ≡ run last es
unfolding run
run-seen last time timestamp c es h =
    let b : ltb last timestamp ≡ false = ground (arith, h) in rw (b, run)

run-expired :
    (last time timestamp : ℕ) (c : Content) (es : List (Entry no_text))
    → last < timestamp
    → 61 ≤ age time timestamp
    → run last (command_entry no_text time timestamp c ∷ es) ≡ run last es
unfolding run
run-expired last time timestamp c es h k =
    let b : leb 61 (age time timestamp) ≡ true = leb_of 61 (age time timestamp) k in
    rw (lt→ltb last timestamp h, b, run)
  where
    leb_of : (m n : ℕ) → m ≤ n → leb m n ≡ true
    leb_of m n h = ground (arith, h)

run-fresh :
    (last time timestamp : ℕ) (c : Content) (es : List (Entry no_text))
    → last < timestamp
    → age time timestamp < 61
    → run last (command_entry no_text time timestamp c ∷ es)
      ≡ (if known c then c ∷ run timestamp es else run last es)
unfolding run
run-fresh last time timestamp c es h k =
    let b : leb 61 (age time timestamp) ≡ false = leb_of 61 (age time timestamp) k in
    rw (lt→ltb last timestamp h, b, run)
  where
    leb_of : (m n : ℕ) → n < m → leb m n ≡ false
    leb_of m n h = ground (arith, h)

abbrev device : Firmware no_text
device = record {
  dispatches = known;
  carried_out = run;
  dispatches_known = λ fs n h. rw h refl;
  at_end = λ last. unfold run in refl;
  idle = λ last time es. unfold run in refl;
  seen = run-seen;
  expired = run-expired;
  dispatched =
      λ last time timestamp c es h k d. rw (run-fresh last time timestamp c es h k, d) refl;
  dropped =
      λ last time timestamp c es h k d. inl (rw (run-fresh last time timestamp c es h k, d) refl);
}

-- A queued envelope, as the bridge makes them.
abbrev start : Value
start = obj (
    field "id" (str (codes "1")) (
      field "method" (str (codes "thing.service.start"))
        (field "params" (obj end) (field "_service_suffix" (str (codes "start")) end))))

abbrev queued : List Value
queued = start ∷ str (codes "{}") ∷ []

abbrev clock : ℕ → ℕ
clock offset = 1_700_000_001

-- The clock passes from one second to the next between the two readings.
handle_heartbeat-carried_out_example :
    ((handle_heartbeat no_text 1_700_000_000_999 1_700_000_001 clock queued).0 ≡ [])
    × (carries_commands no_text
          (handle_heartbeat no_text 1_700_000_000_999 1_700_000_001 clock queued).1
        ≡ not (is_empty queued))
    × (device.carried_out 1_600_000_000
          (handle_heartbeat no_text 1_700_000_000_999 1_700_000_001 clock queued).1
        ≡ [])
handle_heartbeat-carried_out_example =
    handle_heartbeat-carried_out no_text device 1_700_000_000_999 1_700_000_001 clock 1_600_000_000
      queued (omega arith) (omega arith) (omega arith) (omega arith)

start-IsEnvelope : IsEnvelope no_text start
unfolding field_of
start-IsEnvelope = (_, refl, refl)

handle_heartbeat-envelopes_example :
    device.carried_out 1_600_000_000
      (handle_heartbeat no_text 1_700_000_001_999 1_700_000_001 clock (start ∷ start ∷ [])).1
    ≡ contents no_text clock 0 (start ∷ start ∷ [])
handle_heartbeat-envelopes_example =
    handle_heartbeat-envelopes no_text device 1_700_000_001_999 1_700_000_001 clock 1_600_000_000
      (start ∷ start ∷ []) (start-IsEnvelope, (start-IsEnvelope, tt)) refl (omega arith)
      (omega arith)

abbrev service : Text
service = codes "property/set"

-- An envelope with both names, and one with the method alone.
abbrev both : Fields
both = field "method" (str (codes "thing.service.property.set")) (
    field "version" (str (codes "1.0"))
      (field "params" (arr nil) (field "_service_suffix" (str service) end)))

abbrev method_alone : Fields
method_alone =
    field "params" (arr nil) (field "method" (str (codes "thing.service.property.set")) end)

to_heartbeat_content-service_example :
    (m : Fields) × (to_heartbeat_content no_text 5 (obj both) ≡ dumped (obj m))
    × (to_heartbeat_content no_text 5 (obj method_alone) ≡ dumped (obj m))
    × (field_of "payload" m ≡ some (arr nil))
    × (field_of "timestamp" m ≡ some (int (pos 5)))
    × (field_of "msgType" m ≡ some (int (pos 1)))
    × (field_of "type" m ≡ none)
unfolding text_eq field_of
to_heartbeat_content-service_example =
    to_heartbeat_content-service no_text 5 service (arr nil) both method_alone (λ e. cc)
      (ground arith) refl refl refl refl refl refl refl
