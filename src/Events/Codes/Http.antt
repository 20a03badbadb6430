-- ===== src/Events/Codes/Http.antt =====
-- addon/petkit_local/events/codes.py: the litter boxes' HTTP codes, in the order of the source. The texts `firmware` and
-- `note`, which only document a row, are left out.
use containers_nix.Prelude.{true, false, some, [], ◌∷◌}
use containers_nix.Prelude.Dict.{Dict}
use containers_nix.Events.Codes.Base.{
  EventCode, code, confirmed, inferred, unverified, conflicted, kind_toilet, kind_cleaning,
  kind_pet, kind_error, kind_system, role_visit_summary, role_start, role_done, role_step,
  role_stop, role_error_start, role_error_over, role_detection, no_role, litter, litter_next_gen,
  litter_n60,
}

unfoldable pub litter_http_codes : Dict EventCode
litter_http_codes =
    ("1", code kind_error "Error" confirmed false true role_error_start (litter_next_gen))
    ∷ ("2", code kind_error "Error cleared" confirmed false false role_error_over (litter_next_gen))
    ∷ (
      "3",
      record (code kind_cleaning "Mechanism started" confirmed true false role_start
          (litter_next_gen)) { mode_from = "action" },
    )
    ∷ (
      "4",
      record (code kind_cleaning "Mechanism step" conflicted true false role_step
          (litter_next_gen)) { mode_from = "action" },
    )
    ∷ (
      "5",
      record (code kind_cleaning "Cleaning done" confirmed false false role_done (litter)) {
        done_word = "cleaning";
      },
    )
    ∷ (
      "6",
      record (code kind_cleaning "Litter emptied" unverified false false role_done (litter)) {
        done_word = "litter empty";
      },
    )
    ∷ (
      "7",
      record (code kind_cleaning "Reset done" confirmed false false role_done (litter)) {
        done_word = "reset";
      },
    )
    ∷ (
      "8",
      record (code kind_cleaning "Deodorizing" confirmed false false role_done (litter)) {
        done_word = "deodorizing";
      },
    )
    ∷ ("9", code kind_toilet "Weight check" confirmed true false role_step (litter_next_gen))
    ∷ ("10", code kind_toilet "Toilet visit" confirmed false true role_visit_summary (litter))
    ∷ (
      "11",
      record (code kind_cleaning "Litter correction done" unverified false false role_done
          (litter_next_gen)) { done_word = "litter correction" },
    )
    ∷ (
      "13",
      record (code kind_cleaning "Mechanism step" inferred true false role_step (litter_next_gen)) {
        mode_from = "action";
      },
    )
    ∷ (
      "14",
      record (code kind_cleaning "Motor stop requested" confirmed true false role_stop
          (litter_next_gen)) { mode_from = "action" },
    )
    ∷ (
      "15",
      record (code kind_cleaning "Motor stop paused" confirmed true false role_stop
          (litter_next_gen)) { mode_from = "action" },
    )
    ∷ (
      "16",
      record (code kind_cleaning "Motor stop resumed" confirmed true false role_stop
          (litter_next_gen)) { mode_from = "action" },
    )
    ∷ (
      "17",
      record (code kind_cleaning "Light cycle" confirmed true false role_done (litter_next_gen)) {
        done_word = "light cycle";
        state_label = some ("lightState", "light on", "light off");
      },
    )
    ∷ (
      "18",
      code kind_cleaning "Litter correction" unverified true false role_step (litter_next_gen),
    )
    ∷ ("20", code kind_pet "Appeared" confirmed false true no_role (litter_next_gen))
    ∷ (
      "21",
      record (code kind_cleaning "Deodorant reset done" unverified false false role_done
          (litter_n60)) { done_word = "deodorant reset" },
    )
    ∷ ("24", code kind_pet "Detection result" confirmed true false role_detection (litter_next_gen))
    ∷ ("51", code kind_system "BLE relay started" confirmed true false no_role (litter_next_gen))
    ∷ ("53", code kind_system "BLE relay data" confirmed true false no_role (litter_next_gen))
    ∷ []
