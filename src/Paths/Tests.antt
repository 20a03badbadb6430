-- ===== src/Paths/Tests.antt =====
-- The theorems of the file names at concrete inputs.
use containers_nix.Prelude.{◌≡◌, ◌≢◌, ◌≤◌, ◌⊎◌, refl, false, [], length, arith}
use containers_nix.Codec.{Text, codes}
use containers_nix.Paths.{
  sanitize_filename, cleaned, is_control, is_unsafe, is_edge, replace_unsafe,
}
use containers_nix.Paths.Safe.{IsSafe, sanitize_filename-IsSafe}
use containers_nix.Paths.Runs.{has_run, sanitize_filename-has_run}

abbrev label : Text
label = codes "../../etc: 'x'.mp4"

sanitize_filename-IsSafe_example :
    (sanitize_filename (codes "file") 10 label ≢ [])
    × ((sanitize_filename (codes "file") 10 label ≡ codes "file")
        ⊎ IsSafe 10 (sanitize_filename (codes "file") 10 label))
sanitize_filename-IsSafe_example = sanitize_filename-IsSafe (codes "file") 10 label (λ e. cc)

file-has_run : has_run (codes "file") ≡ false
unfolding has_run
file-has_run = refl

cleaned_here : cleaned label ≡ codes "etc- 'x'.mp4"
unfolding cleaned is_control is_unsafe is_edge replace_unsafe
cleaned_here = refl

fits : length (cleaned label) ≤ 120
fits = rw cleaned_here (omega arith)

sanitize_filename-has_run_example : has_run (sanitize_filename (codes "file") 120 label) ≡ false
sanitize_filename-has_run_example =
    sanitize_filename-has_run (codes "file") 120 label file-has_run fits

-- A stem that is cut behind a full stop has it next to the one of the extension.
cut : sanitize_filename (codes "file") 6 (codes "a.bcde.mp4") ≡ codes "a..mp4"
unfolding sanitize_filename is_control is_unsafe is_edge replace_unsafe
cut = refl
