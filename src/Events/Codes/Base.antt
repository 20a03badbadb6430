-- ===== src/Events/Codes/Base.antt =====
-- addon/petkit_local/events/codes.py: the families, grades, kinds and roles, and the row that
-- describes one event type.
use containers_nix.Prelude.{String, Bool, Option, none, List, [], ◌∷◌, ◌++◌}

-- The codenames of utils/const.py.
abbrev pub litter : List String
litter = "t3" ∷ "t4" ∷ "t5" ∷ "t6" ∷ "t7" ∷ []

abbrev pub feeder : List String
feeder = "feeder" ∷ "feedermini" ∷ "d3" ∷ "d4" ∷ "d4s" ∷ "d4h" ∷ "d4sh" ∷ []

abbrev pub fountain : List String
fountain = "w4" ∷ "w5" ∷ "ctw2" ∷ "ctw3" ∷ "w7h" ∷ []

abbrev pub purifier : List String
purifier = "k2" ∷ "k3" ∷ []

abbrev pub any_device : List String
any_device = litter ++ (feeder ++ (fountain ++ purifier))

abbrev pub litter_next_gen : List String
litter_next_gen = "t5" ∷ "t6" ∷ "t7" ∷ []

abbrev pub fountain_next_gen : List String
fountain_next_gen = "w7h" ∷ []

abbrev pub litter_n60 : List String
litter_n60 = "t5" ∷ "t6" ∷ "t7" ∷ []

abbrev pub litter_t6_plus : List String
litter_t6_plus = "t6" ∷ "t7" ∷ []

abbrev pub feeder_camera : List String
feeder_camera = "d4h" ∷ "d4sh" ∷ []

pub data Grade : Type 0 where
  confirmed inferred unverified conflicted : Grade

pub data Role : Type 0 where
  no_role role_visit_summary role_start role_done role_step role_stop : Role
  role_error_start role_error_over role_detection : Role

abbrev pub kind_toilet : String
kind_toilet = "toilet_visit"

abbrev pub kind_cleaning : String
kind_cleaning = "cleaning"

abbrev pub kind_pet : String
kind_pet = "pet"

abbrev pub kind_motion : String
kind_motion = "motion"

abbrev pub kind_error : String
kind_error = "error"

abbrev pub kind_feeding : String
kind_feeding = "feeding"

abbrev pub kind_drinking : String
kind_drinking = "drinking"

abbrev pub kind_system : String
kind_system = "system"

abbrev pub kind_other : String
kind_other = "other"

pub record EventCode : Type 0 where
  pub kind : String
  pub label : String
  pub grade : Grade
  pub detail : Bool
  pub anchor : Bool
  pub role : Role
  pub done_word : String
  pub mode_from : String
  pub families : List String
  pub state_label : Option (String × String × String)

-- A row with the defaults of the other fields.
abbrev pub code : String → String → Grade → Bool → Bool → Role → List String → EventCode
code kind label grade detail anchor role families = record {
  kind = kind;
  label = label;
  grade = grade;
  detail = detail;
  anchor = anchor;
  role = role;
  done_word = "";
  mode_from = "";
  families = families;
  state_label = none;
}
