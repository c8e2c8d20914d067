-- ===== src/Mailflow/Errors.antt =====
-- The errors of the program: Go's error values with the sentinel errors of types.go, and the two
-- functions of package `errors` by which the program tells them apart.
use mime_crypt.Base.{ℕ, String, Bool, true, false, Option, none, some, ◌≡◌, refl}
use mime_crypt.Base.Effect.{Outcome, Proc, ok, err}
use mime_crypt.Mailflow.Types.{MailTrace}

pub data Error : Type 0 where
  failed : String → Error
  wrapped : String → Error → Error
  no_messages : Error
  skip_message : Error
  -- SkipError; where its Err is nil the inner error is `skip_message`
  skip_error : MailTrace → Error → Error
  -- os.ErrNotExist, os.ErrExist, and what else lies outside the program
  not_exist : Error
  already_exists : Error
  external : ℕ → Error

abbrev pub Result : Type 0 → Type 0
Result A = Outcome Error A

abbrev pub Act : Type 0 → Type 0 → Type 0
Act W A = Proc W Error A

module _ {W : Type 0} where
  -- `if err := m; err != nil { return fmt.Errorf("…: %w", err) }`
  abbrev pub reword : {A : Type 0} → (Error → Error) → Result A × W → Result A × W
  reword context (ok a, v) = (ok a, v)
  reword context (err e, v) = (err (context e), v)

  abbrev pub wrapping : {A : Type 0} → (Error → Error) → Act W A → Act W A
  wrapping context m w = reword context (m w)

-- errors.Is(err, ErrSkipMessage), with SkipError.Is
unfoldable pub is_skip : Error → Bool
is_skip (wrapped m e) = is_skip e
is_skip skip_message = true
is_skip (skip_error t e) = true
is_skip _ = false

-- errors.As(err, &skipErr)
unfoldable pub as_skip : Error → Option MailTrace
as_skip (wrapped m e) = as_skip e
as_skip (skip_error t e) = some t
as_skip _ = none

-- errors.Is(err, ErrNoMessages), with SkipError.Is
unfoldable pub is_no_messages : Error → Bool
is_no_messages (wrapped m e) = is_no_messages e
is_no_messages (skip_error t e) = is_no_messages e
is_no_messages no_messages = true
is_no_messages _ = false

-- An error that carries a skip's trace is a skip.
pub as_skip-is_skip : (e : Error) (t : MailTrace) → as_skip e ≡ some t → is_skip e ≡ true
unfolding as_skip is_skip
as_skip-is_skip (wrapped m e) t h = as_skip-is_skip e t h
as_skip-is_skip (skip_error s e) t h = refl
as_skip-is_skip skip_message t h = refl
as_skip-is_skip _ t h = cc
