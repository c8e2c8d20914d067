-- ===== src/Appconfig/Names/Safe.antt =====
-- config.go: the name of a state file stays inside its directory.
use Prim.Native.Char.{Char, code}
use mime_crypt.Base.{
  ℕ, nat_eq, String, Bool, true, false, ◌≡◌, refl, arith, ◌||◌, not, if_rule, Bool-cases, inl, inr,
}
use mime_crypt.Base.Text.{is_empty, is_blank, trim_space}
use mime_crypt.Appconfig.Names.{
  is_joiner, is_edge, clean, trim_edges_left, trim_edges_right, or_unknown, sanitize_file_component,
  sanitize_runtime_component,
}

-- Some character of the text has this code point.
unfoldable pub has_char : ℕ → String → Bool
has_char n String.[] = false
has_char n (String.◌∷◌ c s) = nat_eq (code c) n || has_char n s

-- The first and the last character are not '.' and not '_'.
unfoldable pub starts_well : String → Bool
starts_well String.[] = true
starts_well (String.◌∷◌ c s) = not (is_edge (code c))

-- '/'
abbrev pub slash : ℕ
slash = 47

module _ (is_word : ℕ → Bool) (no_slash : is_word 47 ≡ false) where
  is_word-slash : (c : ℕ) → is_word c ≡ true → nat_eq c 47 ≡ false
  is_word-slash c h = elim (Bool-cases (nat_eq c 47)) [
    | inl e ↦ let same : c ≡ 47 = ground arith in cc
    | inr e ↦ e
  ]

  not_either :
      (c : ℕ) (b : Bool)
      → (is_word c || is_joiner c) ≡ true
      → b ≡ false
      → (nat_eq c slash || b) ≡ false
  not_either c b kept rest = ground (arith, is_word-slash c)

  clean-has_char : (s : String) → has_char slash (clean is_word s) ≡ false
  unfolding clean has_char
  clean-has_char String.[] = refl
  clean-has_char (String.◌∷◌ c s) =
      if_rule (λ (x : Char). has_char slash (String.◌∷◌ x (clean is_word s)) ≡ false)
        (is_word (code c) || is_joiner (code c))
        (λ kept. not_either (code c) (has_char slash (clean is_word s)) kept (clean-has_char s))
        (λ _. clean-has_char s)

left-has_char : (n : ℕ) (s : String) → has_char n s ≡ false → has_char n (trim_edges_left s) ≡ false
unfolding trim_edges_left has_char
left-has_char n String.[] h = refl
left-has_char n (String.◌∷◌ c s) h = ground (arith, left-has_char n s)

right-has_char :
    (n : ℕ) (s : String) → has_char n s ≡ false → has_char n (trim_edges_right s) ≡ false
unfolding trim_edges_right has_char
right-has_char n String.[] h = refl
right-has_char n (String.◌∷◌ c s) h = ground (arith, right-has_char n s)

left-starts_well : (s : String) → starts_well (trim_edges_left s) ≡ true
unfolding trim_edges_left starts_well
left-starts_well String.[] = refl
left-starts_well (String.◌∷◌ c s) = ground (arith, left-starts_well s)

-- A name for a file in a directory: it is not empty, has no separator and is not "." or "..".
pub record IsFileName (s : String) : Type 0 where
  pub some_char : is_empty s ≡ false
  pub no_separator : has_char slash s ≡ false
  pub no_dot : starts_well s ≡ true

known : (s : String) → has_char slash s ≡ false → starts_well s ≡ true → IsFileName (or_unknown s)
known s plain starts =
    if_rule IsFileName (is_empty s)
      (λ e. record {
        some_char = unfold is_empty in refl;
        no_separator = unfold has_char in refl;
        no_dot = unfold starts_well in refl;
      })
      (λ e. record { some_char = e; no_separator = plain; no_dot = starts })

rest_known :
    (is_word : ℕ → Bool) (s : String)
    → is_word slash ≡ false
    → IsFileName (or_unknown (trim_edges_left (trim_edges_right (clean is_word s))))
rest_known is_word s no_slash =
    known (trim_edges_left (trim_edges_right (clean is_word s)))
      (left-has_char slash (trim_edges_right (clean is_word s))
        (right-has_char slash (clean is_word s) (clean-has_char is_word no_slash s)))
      (left-starts_well (trim_edges_right (clean is_word s)))

unknown-IsFileName : IsFileName "unknown"
unfolding is_empty
unknown-IsFileName = known "" (unfold has_char in refl) (unfold starts_well in refl)

-- Where '/' is no letter and no digit, what sanitizeFileComponent and sanitizeRuntimeComponent make
-- of any text is a name for a file in a directory: it is not empty, has no '/', and does not start
-- with '.' or '_', so it is neither "." nor "..".
pub sanitized-IsFileName :
    (is_word : ℕ → Bool) (s : String)
    → is_word slash ≡ false
    → IsFileName (sanitize_file_component is_word s)
      × IsFileName (sanitize_runtime_component is_word s)
unfolding sanitize_file_component sanitize_runtime_component
sanitized-IsFileName is_word s no_slash = (
  if_rule IsFileName (is_empty s) (λ e. unknown-IsFileName) (λ e. rest_known is_word s no_slash),
  if_rule IsFileName (is_blank s) (λ e. unknown-IsFileName)
      (λ e. rest_known is_word (trim_space s) no_slash),
)
