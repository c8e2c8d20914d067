-- ===== src/Appconfig/Names.antt =====
-- config.go and helpers.go: names of state files, made from the names of a route and its source.
pub mod Safe
use Prim.Native.Char.{Char, char, code}
use mime_crypt.Base.{
  ℕ, nat_eq, String, Bool, true, false, List, [], ◌∷◌, ◌≡◌, refl, arith, ◌&&◌, ◌||◌, not,
  if◌then◌else◌, map,
}
use mime_crypt.Base.Text.{◌+++◌, ◌==◌, trim_space, is_blank, is_empty}
use mime_crypt.Appconfig.Platform.{Platform}

-- '.', '-' or '_'
abbrev pub is_joiner : ℕ → Bool
is_joiner c = nat_eq c 46 || nat_eq c 45 || nat_eq c 95

-- '.' or '_'
abbrev pub is_edge : ℕ → Bool
is_edge c = nat_eq c 46 || nat_eq c 95

abbrev pub underscore : Char
underscore = char 95 tt

module _ (is_word : ℕ → Bool) where
  -- The loop over the characters: those that may not stand in a file name become '_'.
  unfoldable pub clean : String → String
  clean String.[] = String.[]
  clean (String.◌∷◌ c s) =
      String.◌∷◌ (if is_word (code c) || is_joiner (code c) then c else underscore) (clean s)

-- strings.Trim(s, "._")
unfoldable pub trim_edges_left : String → String
trim_edges_left String.[] = String.[]
trim_edges_left (String.◌∷◌ c s) = if is_edge (code c) then trim_edges_left s else String.◌∷◌ c s

unfoldable pub trim_edges_right : String → String
unfolding is_empty
trim_edges_right String.[] = String.[]
trim_edges_right (String.◌∷◌ c s) =
    let rest = trim_edges_right s in
    if is_empty rest && is_edge (code c) then String.[] else String.◌∷◌ c rest

abbrev pub or_unknown : String → String
or_unknown s = if is_empty s then "unknown" else s

module _ (is_word : ℕ → Bool) where
  -- sanitizeFileComponent; an empty name comes out empty from both loops.
  unfoldable pub sanitize_file_component : String → String
  unfolding clean trim_edges_left trim_edges_right is_empty
  sanitize_file_component s =
      if is_empty s
      then "unknown"
      else or_unknown (trim_edges_left (trim_edges_right (clean is_word s)))

  -- sanitizeRuntimeComponent
  unfoldable pub sanitize_runtime_component : String → String
  unfolding sanitize_file_component trim_space
  sanitize_runtime_component s =
      if is_blank s
      then "unknown"
      else or_unknown (trim_edges_left (trim_edges_right (clean is_word (trim_space s))))

-- The parts that are not blank, trimmed.
unfoldable pub full_parts : List String → List String
unfolding is_blank trim_space
full_parts [] = []
full_parts (s ∷ rest) = if is_blank s then full_parts rest else trim_space s ∷ full_parts rest

-- strings.Join(parts, "-")
unfoldable pub joined : List String → String
joined [] = ""
joined (s ∷ []) = s
joined (s ∷ t ∷ rest) = s +++ "-" +++ joined (t ∷ rest)

abbrev pub scope_of : List String → String
scope_of [] = "unknown"
scope_of (s ∷ rest) = joined (s ∷ rest)

unfoldable pub flow_state_scope : String → String → String → String → String
unfolding full_parts joined
flow_state_scope route source driver folder =
    scope_of (full_parts (route ∷ source ∷ driver ∷ folder ∷ []))

module _ (os : Platform) where
  unfoldable pub flow_producer_state_path_for : String → String → String → String → String
  unfolding sanitize_file_component flow_state_scope
  flow_producer_state_path_for state_dir source driver folder = os.join (
      state_dir
      ∷ ("flow-sync-"
          +++ sanitize_file_component os.is_letter_or_digit
              (flow_state_scope "" source driver folder)
          +++ ".json")
      ∷ [])

  unfoldable pub flow_state_dir_for : String → String → String → String → String → String
  unfolding sanitize_file_component flow_state_scope
  flow_state_dir_for state_dir route source driver folder = os.join (
      state_dir
      ∷ "flow-state"
      ∷ sanitize_file_component os.is_letter_or_digit (flow_state_scope route source driver folder)
      ∷ [])

  unfoldable pub run_lock_path_for : String → String → String → String → String
  unfolding sanitize_file_component flow_state_scope
  run_lock_path_for state_dir source driver folder = os.join (
      state_dir
      ∷ ("run-"
          +++ sanitize_file_component os.is_letter_or_digit
              (flow_state_scope "" source driver folder)
          +++ ".lock")
      ∷ [])
