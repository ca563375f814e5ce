-- ===== src/Edge/Stacks/Errors.antt =====
-- `edgeStackError` of internal/edge/stacks.go. An error is its message: composecli's busyError, for
-- which IsBusy tests the type, has the message that the second test looks for.
use dockpal_agent.Base.{ℕ, if◌then◌else◌}
use dockpal_agent.Base.Bytes.{Bytes, codes, contains}

unfoldable pub edge_stack_error : Bytes → ℕ × Bytes
edge_stack_error msg =
    if contains msg (codes "another operation is already running")
    then (409, msg)
    else if contains msg (codes "not found")
    then (404, msg)
    else if contains msg (codes "already exists")
    then (409, msg)
    else (400, msg)
