-- ===== src/Events/Codes/Mqtt.antt =====
-- addon/petkit_local/events/codes.py: the MQTT topics, in the order of the source. The texts `firmware` and
-- `note`, which only document a row, are left out.
use containers_nix.Prelude.{true, false, some, [], ◌∷◌, ◌++◌}
use containers_nix.Prelude.Dict.{Dict}
use containers_nix.Events.Codes.Base.{
  EventCode, code, confirmed, inferred, unverified, kind_toilet, kind_cleaning, kind_pet,
  kind_motion, kind_error, kind_feeding, kind_drinking, kind_system, role_visit_summary, role_start,
  role_done, role_stop, role_error_start, role_error_over, role_detection, no_role, any_device,
  litter, feeder, litter_next_gen, fountain_next_gen, litter_n60, litter_t6_plus, feeder_camera,
}

unfoldable pub mqtt_event_topics : Dict EventCode
mqtt_event_topics =
    (
      "work_start",
      record (code kind_cleaning "Work started" confirmed false false role_start
          (litter ++ fountain_next_gen)) { mode_from = "action" },
    )
    ∷ ("work_suspend", code kind_cleaning "Work paused" confirmed true false role_stop (litter))
    ∷ ("work_continue", code kind_cleaning "Work resumed" confirmed true false role_stop (litter))
    ∷ (
      "clean_over",
      record (code kind_cleaning "Cleaning done" confirmed false false role_done (litter)) {
        done_word = "cleaning";
      },
    )
    ∷ (
      "dump_over",
      record (code kind_cleaning "Dumping done" confirmed false false role_done (litter)) {
        done_word = "litter empty";
      },
    )
    ∷ (
      "reset_over",
      record (code kind_cleaning "Reset done" confirmed false false role_done (litter)) {
        done_word = "reset";
      },
    )
    ∷ (
      "smooth_over",
      record (code kind_cleaning "Leveling done" confirmed false false role_done
          (litter_next_gen)) { done_word = "leveling" },
    )
    ∷ (
      "correct_over",
      record (code kind_cleaning "Litter correction done" unverified false false role_done
          (litter_next_gen)) { done_word = "litter correction" },
    )
    ∷ (
      "sand_correct_over",
      record (code kind_cleaning "Litter level corrected" unverified false false role_done
          (litter_next_gen)) { done_word = "litter correction" },
    )
    ∷ (
      "light_over",
      record (code kind_cleaning "Light cycle done" confirmed true false role_done
          (litter_next_gen)) {
            done_word = "light cycle";
            state_label = some ("lightState", "light on", "light off");
          },
    )
    ∷ (
      "spray_over",
      record (code kind_cleaning "Deodorizing done" confirmed false false role_done (litter_n60)) {
        done_word = "deodorizing";
      },
    )
    ∷ (
      "liquid_reset_over",
      record (code kind_cleaning "Deodorant reset done" confirmed false false role_done
          (litter_n60)) { done_word = "deodorant reset" },
    )
    ∷ (
      "melt_over",
      record (code kind_cleaning "Melt cycle done" confirmed false false role_done
          (litter_t6_plus)) { done_word = "melt cycle" },
    )
    ∷ (
      "package_over",
      record (code kind_cleaning "Bagging done" confirmed false false role_done (litter_t6_plus)) {
        done_word = "bagging";
      },
    )
    ∷ ("pet_in", code kind_toilet "Pet entered" confirmed true false role_start (litter))
    ∷ ("pet_out", code kind_toilet "Pet left" confirmed false true role_visit_summary (litter))
    ∷ (
      "pet_discern",
      code kind_pet "Detection result" confirmed true false role_detection
          (litter_next_gen ++ fountain_next_gen),
    )
    ∷ ("pet_wander", code kind_pet "Pet nearby" unverified false true no_role (litter_t6_plus))
    ∷ (
      "wander_over",
      code kind_pet "Pet left the area" unverified true false no_role (litter_t6_plus),
    )
    ∷ (
      "stop_start",
      code kind_cleaning "Motor stop requested" confirmed true false role_stop (litter_next_gen),
    )
    ∷ (
      "stop_suspend",
      code kind_cleaning "Motor stop paused" confirmed true false role_stop (litter_next_gen),
    )
    ∷ (
      "stop_continue",
      code kind_cleaning "Motor stop resumed" confirmed true false role_stop (litter_next_gen),
    )
    ∷ ("feed_start", code kind_feeding "Feeding started" confirmed true false role_start (feeder))
    ∷ (
      "feed_over",
      record (code kind_feeding "Feeding done" confirmed false true role_done (feeder)) {
        done_word = "feeding";
      },
    )
    ∷ ("feed_stop", code kind_feeding "Feeding cancelled" confirmed false false role_stop (feeder))
    ∷ (
      "eat_start",
      code kind_feeding "Eating started" confirmed true false role_start (feeder_camera),
    )
    ∷ (
      "eat_over",
      record (code kind_feeding "Eating done" confirmed false true role_done (feeder_camera)) {
        done_word = "eating";
      },
    )
    ∷ (
      "drink_start",
      code kind_drinking "Drinking started" confirmed true false role_start (fountain_next_gen),
    )
    ∷ (
      "add_water_over",
      record (code kind_cleaning "Refill done" inferred false true role_done (fountain_next_gen)) {
        done_word = "refilling";
      },
    )
    ∷ (
      "drink_over",
      record (code kind_drinking "Drinking done" confirmed false true role_done
          (fountain_next_gen)) { done_word = "drinking" },
    )
    ∷ (
      "flush_over",
      record (code kind_cleaning "Flush done" confirmed false true role_done (fountain_next_gen)) {
        done_word = "flushing";
      },
    )
    ∷ (
      "water_change_over",
      record (code kind_cleaning "Water change done" confirmed false true role_done
          (fountain_next_gen)) { done_word = "changing the water" },
    )
    ∷ (
      "move_detect",
      code kind_motion "Motion detected" confirmed false true no_role
          (feeder_camera ++ litter_next_gen),
    )
    ∷ (
      "pet_detect",
      code kind_pet "Pet detected" confirmed false true no_role
          (feeder_camera ++ litter_next_gen ++ fountain_next_gen),
    )
    ∷ (
      "cvr_event",
      code kind_motion "Recording event" unverified false true no_role
          (litter_next_gen ++ feeder_camera),
    )
    ∷ ("appeared", code kind_pet "Appeared" unverified false true no_role (litter_next_gen))
    ∷ ("error_start", code kind_error "Error" confirmed false true role_error_start (any_device))
    ∷ (
      "error_over",
      code kind_error "Error cleared" confirmed false false role_error_over (any_device),
    )
    ∷ ("property", code kind_system "State update" confirmed true false no_role (any_device))
    ∷ (
      "property_post",
      code kind_system "State update" confirmed true false no_role (feeder_camera),
    )
    ∷ ("data_get", code kind_system "Config requested" confirmed true false no_role (any_device))
    ∷ ("ble_response", code kind_system "BLE response" confirmed true false no_role (any_device))
    ∷ (
      "ble_relay_start",
      code kind_system "BLE relay started" confirmed true false no_role (any_device),
    )
    ∷ (
      "ble_relay_over",
      code kind_system "BLE relay finished" confirmed true false no_role (any_device),
    )
    ∷ []
