-- ===== src/Appconfig/Platform.antt =====
-- What the configuration uses of Go's standard library: unicode.IsLetter and unicode.IsDigit
-- (together, of a code point), and the functions of path/filepath.
use mime_crypt.Base.{ℕ, String, Bool, List}

pub record Platform : Type 0 where
  pub is_letter_or_digit : ℕ → Bool
  pub join : List String → String
  pub base : String → String
  pub is_abs : String → Bool
