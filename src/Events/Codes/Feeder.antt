-- ===== src/Events/Codes/Feeder.antt =====
-- addon/petkit_local/events/codes.py: the feeders' and fountains' HTTP codes, in the order of the source. The texts `firmware` and
-- `note`, which only document a row, are left out.
use containers_nix.Prelude.{true, false, [], ◌∷◌}
use containers_nix.Prelude.Dict.{Dict}
use containers_nix.Events.Codes.Base.{
  EventCode, code, confirmed, inferred, kind_pet, kind_motion, kind_feeding, kind_drinking,
  role_start, role_done, role_detection, no_role, feeder, fountain_next_gen, feeder_camera,
}

unfoldable pub feeder_http_codes : Dict EventCode
feeder_http_codes =
    (
      "2",
      record (code kind_feeding "Feeding done" confirmed false true role_done (feeder)) {
        done_word = "feeding";
      },
    )
    ∷ ("3", code kind_feeding "Feeding started" confirmed true false role_start (feeder))
    ∷ (
      "4",
      record (code kind_feeding "Feeding done" confirmed false true role_done (feeder)) {
        done_word = "feeding";
      },
    )
    ∷ ("5", code kind_feeding "Eating started" inferred true false role_start (feeder_camera))
    ∷ ("7", code kind_motion "Motion detected" confirmed false true no_role (feeder_camera))
    ∷ ("8", code kind_pet "Pet detected" inferred false true no_role (feeder_camera))
    ∷ []

unfoldable pub fountain_http_codes : Dict EventCode
fountain_http_codes =
    ("5", code kind_drinking "Drinking started" confirmed true false role_start (fountain_next_gen))
    ∷ (
      "6",
      record (code kind_drinking "Drinking done" confirmed false true role_done
          (fountain_next_gen)) { done_word = "drinking" },
    )
    ∷ ("20", code kind_pet "Appeared" confirmed false true no_role (fountain_next_gen))
    ∷ (
      "24",
      code kind_pet "Detection result" confirmed true false role_detection (fountain_next_gen),
    )
    ∷ []
