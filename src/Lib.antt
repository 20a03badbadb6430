-- ===== src/Lib.antt =====
-- The core of the PetKit add-on (apps/petkit-local-dev/addon/petkit_local), which serves PetKit
-- devices on the local network in place of the vendor's cloud. Nine parts of it are modelled:
--
-- * The Bluetooth accessories, devices/ble. A parent device relays binary frames of its accessories;
--   the add-on decodes them into a state, and builds a frame from the last state to change a setting.
--   Codec holds what framing.py uses of Python's library (`b64encode`, `b64decode`, `quote`,
--   `unquote`, `bytes.fromhex`, `str.strip`), Value the JSON values that come in. Ble.Framing is
--   framing.py (`_iter_ble_frames`, `_ble_decode_data`, `_ble_unframe`, `build_ble_frame`); Ble.Ctw3
--   and Ble.W5 are ctw3.py and w5.py, each with its decoders, payload builders and command function;
--   Ble.Block has what these two share; Ble.Command is `ble_command_for` and `parser_for` of
--   __init__.py. A refusal is a value of the type Error, and so is the `OverflowError` of `to_bytes`.
-- * The retention sweeps, media/retention.py, with the two queries of events/store.py that they make.
--   Retention has `_select_expired`, `sweep_category` and the caps, Retention.Directory the sweep of a
--   directory with its age floor. The media table is a list of rows, the file system the list of the
--   paths that exist; which files cannot be read or unlinked is a parameter. A `ValueError` of the
--   strict `zip` and an `IndexError` are results of their own, which the theorems exclude.
-- * The Timeline, events/sessions.py, over the code tables of events/codes.py. Events.Codes holds the
--   tables, without the texts that only document a row, and the sets derived from them.
--   Events.Sessions.Rows has the rows and the cards, Events.Sessions.Cards the cards that
--   episodes, loose visits and unclaimed cleanings head, Events.Sessions.Passes the passes that hang
--   further rows off them, Events.Sessions.Media the hand-out of an episode's media,
--   Events.Sessions.Filters the filter chips, and Events.Sessions composes the passes. A card that the
--   code shares between its list and its index by episode is named by its place in the list.
-- * The MQTT topics and the relay, mqtt/topics.py and mqtt/upstream.py. Mqtt.Pattern has a matcher for
--   the regular expressions, Mqtt.Topics the patterns, `parse_topic`, the builders and `rewrite_topic`.
--   Mqtt.Relay is `_on_upstream` and `forward_up` of upstream.py, as to the topic on which a frame goes
--   on, if any, and the head of `_handle_message` of bridge.py, which hears on a wildcard subscription
--   whatever the relay publishes. Mqtt.Links is `reconcile` of upstream.py. Mqtt.Client has the client
--   ids: `parse_client_id` of auth.py and `build_client_id` of upstream.py.
-- * The device sessions, Session: the authentication plugin of mqtt/auth.py with its three hooks, and
--   the two other writers of the same fields, `note_iot_status` of http/handlers/heartbeat.py and
--   `availability_watchdog` of ha/publisher.py. Session.Link puts them together as events of one
--   system and compares it with a table of each device's session; Session.Alive follows a device from
--   a packet through the passes of the watchdog. `hexdigest` of an HMAC is a
--   parameter, and so is which filters the broker accepts. A registry is a list in order of insertion.
-- * The heartbeat, http/handlers/heartbeat.py: Heartbeat has the answer to a poll with the queued
--   commands in it, whose clock is read once per command. The firmware that polls is not in the repository:
--   Heartbeat.Firmware has the rules that the handler's header documents of it, as the laws of a
--   parameter, and Heartbeat.Delivery is about any firmware that keeps them. The text of a value that
--   is none (`str(v)`) is a parameter, and `json.dumps` a constructor.
-- * The redaction of the cloud's answers, http/redact: Redact.Model has the policy and the records,
--   Redact.Blocking and Redact.Rules the rules of rules.py, Redact.Walker the descent of walker.py,
--   Redact.Body `redact_body` and `redact_mqtt`. `json.loads` and `json.dumps` are parameters; of them the theorems
--   ask that what is written is read back as it was, and that no text encodes a value with more in it
--   than the text is long. What devices/payloads.py gives for a device is part of the policy.
-- * The writer that the registries share, `PersistedRegistry` of devices/registry.py: Persist has its
--   operations, with a flush in two steps, since the write itself is made by a worker thread.
-- * The file names, `sanitize_filename` of utils/paths.py, in Paths. `os.path.splitext` is written out
--   for names without a separator, which it is called with.
--
-- Prelude has the names and lemmas that the parts share: lists under native numbers, counting, sorting,
-- dictionaries. The modules below a part hold its proofs and are named for what they prove; each
-- part's Tests has the theorems at concrete inputs.
--
-- Numbers are naturals and integers without bound, as in Python. Instants are milliseconds where the
-- code has float seconds, and a float is a count of thousandths, so results that would differ in the
-- rounding of a float are not covered. A byte is a number below 256. Every function is structural
-- recursion, but for the walk of an answer: `json.loads` may give any value for a text, so each call
-- takes one unit of fuel, and fuel in the size of the value is enough.
--
-- Not modelled: the log lines, the threads and the event loop around the sweeps, the editing and
-- loading of the caps, the SQL of the event store, the other HTTP handlers, the broker, the event
-- handlers of the bridge, the connections to the real cloud, Home Assistant, the panel, the patchers
-- and the container images. A dictionary key is a text, and two rows of events are told apart by
-- their id, the primary key of the table.
pub mod Prelude
pub mod Codec
pub mod Value
pub mod Ble
pub mod Retention
pub mod Events
pub mod Mqtt
pub mod Session
pub mod Heartbeat
pub mod Redact
pub mod Persist
pub mod Paths
