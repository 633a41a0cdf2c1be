-- ===== src/Daemon/Handlers.antt =====
-- daemon/daemon.go: what a Daemon runs, over the states that it changes, and how it is set.
use Prim.Native.String.{String}
use gbalancer.Prelude.{Bool, true}
use gbalancer.Daemon.{Daemon}

pub record Handler (W : Type 0) : Type 0 where
  pub serve : W → W
  pub stop : W → W

-- HandlerFunc: a function, with a Stop that does nothing
unfoldable pub handler_func : {W : Type 0} → (W → W) → Handler W
handler_func f = record { serve = f; stop = λ w. w }

-- Handle and HandleFunc of a Daemon
unfoldable pub set_handler : Daemon → Daemon
set_handler d = record d { handled = true }

-- DaemonHandle and DaemonHandleFunc, on the Daemon that the package has
unfoldable pub daemon_handle : String → Bool → Daemon → Daemon
unfolding set_handler
daemon_handle pid_file foreground d = record (set_handler d) {
  pid_file = pid_file;
  foreground = foreground;
}
