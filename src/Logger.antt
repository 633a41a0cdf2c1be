-- ===== src/Logger.antt =====
-- log/log.go: where the log goes. NewLogger of daemon/daemon.go is the same function.
use gbalancer.Prelude.{Option, none, some}

-- NewLogger, given the logger to syslog, if that can be reached, and the one to the standard error
unfoldable pub new_logger {ℓ} : {L : Type ℓ} → (syslog : Option L) → (stderr : L) → L
new_logger syslog stderr = elim syslog [ none ↦ stderr | some l ↦ l ]
