-- ===== src/Source/Diagnostics.antt =====
-- internal/source/projection.go, `diagnosticOnce`: the diagnostics of one call, each reported once. A
-- message is kept as the texts that are formatted into it.
use labdns.Base.{Bool, Text, List, codes, if◌then◌else◌, list_eq, nat_eq, pair_eq, set_insert}

-- Severity, reason, and what the message names.
abbrev pub Diagnostic : Type 0
Diagnostic = Text × (Text × List Text)

abbrev pub normal : Text → List Text → Diagnostic
normal reason about = (codes "Normal", (reason, about))

abbrev pub warning : Text → List Text → Diagnostic
warning reason about = (codes "Warning", (reason, about))

unfoldable pub emit : Diagnostic → List Diagnostic → List Diagnostic
unfolding set_insert
emit d reported = set_insert d reported

abbrev pub emit_if : Bool → Diagnostic → List Diagnostic → List Diagnostic
emit_if test d reported = if test then emit d reported else reported
