-- ===== src/Remote.antt =====
-- What the code relies on of the API server and of the libraries that speak to it: the answers to
-- their tests on errors.
use mathlib.Core.Bool.{Bool, true, false}
use jpl.Base.{Str, codes, ◌++◌}
use Prim.Native.String.{String}

-- What apierrors, meta and errors say of an error.
pub data Reason : Type 0 where
  unsupported_media_type : Reason
  not_found : Reason
  conflict : Reason
  no_match : Reason
  forbidden : Reason
  context_ended : Reason
  other_reason : Reason

pub record Error : Type 0 where
  pub text : Str
  pub reason : Reason

-- apierrors.IsUnsupportedMediaType
abbrev pub is_unsupported_media_type : Error → Bool
is_unsupported_media_type e = elim e.reason [ unsupported_media_type ↦ true | _ ↦ false ]

-- apierrors.IsNotFound
abbrev pub is_not_found : Error → Bool
is_not_found e = elim e.reason [ not_found ↦ true | _ ↦ false ]

-- apierrors.IsConflict
abbrev pub is_conflict : Error → Bool
is_conflict e = elim e.reason [ conflict ↦ true | _ ↦ false ]

-- meta.IsNoMatchError
abbrev pub is_no_match : Error → Bool
is_no_match e = elim e.reason [ no_match ↦ true | _ ↦ false ]

-- apierrors.IsForbidden
abbrev pub is_forbidden : Error → Bool
is_forbidden e = elim e.reason [ forbidden ↦ true | _ ↦ false ]

-- errors.Is(err, context.Canceled) || errors.Is(err, context.DeadlineExceeded)
abbrev pub is_context_error : Error → Bool
is_context_error e = elim e.reason [ context_ended ↦ true | _ ↦ false ]

-- `fmt.Errorf("…: %w", err)`: the tests answer for the wrapped error.
abbrev pub wrap : String → Error → Error
wrap prefix e = record e { text = codes prefix ++ e.text }

-- An error of the repository's own, that no test recognises.
abbrev pub new_error : String → Error
new_error message = record { text = codes message; reason = other_reason }

-- A value or an error.
pub data Outcome {ℓ} (A : Type ℓ) : Type ℓ where
  ok : A → Outcome A
  err : Error → Outcome A
