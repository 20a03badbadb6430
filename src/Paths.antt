-- ===== src/Paths.antt =====
-- `sanitize_filename` of `utils/paths.py`: an arbitrary label as one component of a path.
pub mod Safe
pub mod Runs
mod Tests
use containers_nix.Prelude.{
  ℕ, zero, suc, ◌+◌, ◌-◌, Bool, true, false, ◌&&◌, ◌||◌, not, List, [], ◌∷◌, ◌++◌, ◌==◌, ltb, leb,
  length, take, map, select, reverse, if◌then◌else◌,
}
use containers_nix.Codec.{Text, codes, is_between}
use containers_nix.Mqtt.Pattern.{span}

-- `[\x00-\x1f\x7f-\x9f]`
unfoldable pub is_control : ℕ → Bool
unfolding is_between
is_control c = is_between 0 0x1F c || is_between 0x7F 0x9F c

abbrev one_of_text : Text → ℕ → Bool
one_of_text [] c = false
one_of_text (d ∷ s) c = d == c || one_of_text s c

-- `[\\/:*?"<>|#&%]`
unfoldable pub is_unsafe : ℕ → Bool
is_unsafe = one_of_text (codes "\\/:*?\"<>|#&%")

-- What `strip(" .-")` takes off.
unfoldable pub is_edge : ℕ → Bool
is_edge = one_of_text (codes " .-")

unfoldable pub replace_unsafe : ℕ → ℕ
unfolding is_unsafe
replace_unsafe c = if is_unsafe c then b'-' else c

-- What a run of dots becomes.
abbrev pub dots : ℕ → Text
dots zero = []
dots (suc zero) = b'.' ∷ []
dots (suc (suc n)) = b'-' ∷ []

-- `\.{2,}` replaced by a dash, with this many dots read before the text.
unfoldable pub dot_runs : ℕ → Text → Text
dot_runs n [] = dots n
dot_runs n (c ∷ s) =
    let later = dot_runs (suc n) s in
    let plain = dot_runs zero s in if c == b'.' then later else dots n ++ c ∷ plain

abbrev pub is_empty : Text → Bool
is_empty [] = true
is_empty (c ∷ s) = false

unfoldable pub lstrip_edges : Text → Text
unfolding is_edge
lstrip_edges [] = []
lstrip_edges (c ∷ s) = let rest = lstrip_edges s in if is_edge c then rest else c ∷ s

unfoldable pub rstrip_edges : Text → Text
unfolding is_edge
rstrip_edges [] = []
rstrip_edges (c ∷ s) =
    let rest = rstrip_edges s in if is_empty rest && is_edge c then [] else c ∷ rest

abbrev pub strip_edges : Text → Text
strip_edges s = rstrip_edges (lstrip_edges s)

-- Whether a text has another character than a dot.
abbrev pub not_all_dots : Text → Bool
not_all_dots [] = false
not_all_dots (c ∷ s) = not (c == b'.') || not_all_dots s

abbrev not_dot : ℕ → Bool
not_dot c = not (c == b'.')

-- The parts before and after the last dot, with the name in reverse order.
abbrev pub split_at_dot : Text → Text × Text → Text × Text
split_at_dot name (after, []) = (name, [])
split_at_dot name (after, d ∷ before) =
    if not_all_dots before then (reverse before, d ∷ reverse after) else (name, [])

-- `os.path.splitext` of a name without a separator
unfoldable pub splitext : Text → Text × Text
unfolding span
splitext name = split_at_dot name (span not_dot (reverse name))

-- The stem and the extension that a name is shortened with.
abbrev pub stem_and_extension : ℕ → Text → Text × Text → Text × Text
stem_and_extension max_length name (stem, extension) =
    if ltb 12 (length extension) || leb max_length (length extension)
    then (name, [])
    else (stem, extension)

abbrev pub joined : ℕ → Text × Text → Text
joined max_length (stem, extension) = take (max_length - length extension) stem ++ extension

unfoldable pub shorten : ℕ → Text → Text
unfolding splitext lstrip_edges rstrip_edges
shorten max_length name =
    if ltb max_length (length name)
    then strip_edges (joined max_length (stem_and_extension max_length name (splitext name)))
    else name

-- The name before it is shortened.
unfoldable pub cleaned : Text → Text
unfolding dot_runs lstrip_edges rstrip_edges
cleaned name =
    strip_edges (dot_runs zero (map replace_unsafe (select (λ c. not (is_control c)) name)))

abbrev pub or_fallback : Text → Text → Text
or_fallback fallback [] = fallback
or_fallback fallback (c ∷ s) = c ∷ s

unfoldable pub sanitize_filename : Text → ℕ → Text → Text
unfolding shorten cleaned
sanitize_filename fallback max_length name =
    if is_empty (cleaned name)
    then fallback
    else or_fallback fallback (shorten max_length (cleaned name))
