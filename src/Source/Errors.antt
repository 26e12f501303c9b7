-- ===== src/Source/Errors.antt =====
-- internal/source/errors.go, and how the controllers read its errors. An error is the chain of its
-- wrappers; its message is not modelled.
use labdns.Base.{
  ◌≡◌, refl, Bool, true, false, Text, codes, if◌then◌else◌, Bool-cases, inl, inr, Option, none,
  some,
}

pub data SourceError : Type 0 where
  -- An error of other code.
  plain : SourceError
  -- `fmt.Errorf("… %w", err)`
  wrapped : SourceError → SourceError
  -- `invalidError{Err: err}`
  invalid : SourceError → SourceError
  -- `dependencyError{reason, err}`
  dependency : Text → SourceError → SourceError

-- `IsInvalid`: `errors.As` looks through every wrapper.
unfoldable pub is_invalid : SourceError → Bool
is_invalid plain = false
is_invalid (wrapped e) = is_invalid e
is_invalid (invalid e) = true
is_invalid (dependency reason e) = is_invalid e

-- `Invalid`
unfoldable pub mark_invalid : SourceError → SourceError
mark_invalid e = if is_invalid e then e else invalid e

unfoldable pub warning_reason : SourceError → Option Text
warning_reason plain = none
warning_reason (wrapped e) = warning_reason e
warning_reason (invalid e) = warning_reason e
warning_reason (dependency reason e) = some reason

-- source_controller.go, `resolutionWarningReason`
unfoldable pub resolution_warning_reason : SourceError → Text
unfolding warning_reason
resolution_warning_reason e = elim (warning_reason e) [
  | none ↦ codes "ResolutionFailed"
  | some reason ↦ reason
]

-- source_controller.go, `terminalSourceError`: whether the controller gives up on the error.
unfoldable pub is_terminal : SourceError → Bool
unfolding is_invalid
is_terminal e = is_invalid e

-- Marking an error makes it terminal, keeps the reason that is reported for it, and marking it again
-- changes nothing.
pub mark_invalid_lem :
    (e : SourceError)
    → (is_terminal (mark_invalid e) ≡ true)
      × (resolution_warning_reason (mark_invalid e) ≡ resolution_warning_reason e)
      × (mark_invalid (mark_invalid e) ≡ mark_invalid e)
unfolding mark_invalid is_terminal resolution_warning_reason
mark_invalid_lem e = elim (Bool-cases (is_invalid e)) [
  | inl h ↦ rw h (h, refl, rw h)
  | inr h ↦ rw h (refl, refl, refl)
]
