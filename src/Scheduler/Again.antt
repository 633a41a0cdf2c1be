-- ===== src/Scheduler/Again.antt =====
-- The messages that come with tunnels before any session has brought one.
use Prim.Native.String.{String}
use gbalancer.Prelude.{ℕ, ◌+◌, ◌*◌, ◌≡◌, List, [], ◌∷◌}
use gbalancer.Prelude.Dict.{Dict}
use gbalancer.Prelude.Lists.{length}
use gbalancer.State.{Effect, create_session, Scheduler, Env, Exec, done, ◌>>◌}
use gbalancer.Scheduler.{on_status}

-- the goroutines CreateSpdySession that were started
abbrev pub created : List Effect → ℕ
created [] = 0
created (create_session b i ∷ rest) = 1 + created rest
created (_ ∷ rest) = created rest

-- what `n` new backends leave
record Allocated (s : Scheduler) (n : ℕ) (t : Scheduler) : Type 0 where
  backends : t.backends ≡ s.backends
  tunnels : t.tunnels ≡ s.tunnels
  next : t.next_backend ≡ s.next_backend + n
  started : created t.effects ≡ created s.effects + n * s.tunnels

-- several messages, one after another
abbrev pub messages : Env → List (Dict ℕ) → Scheduler → Exec
messages env [] s = done s
messages env (active ∷ later) s = on_status env s active >> messages env later

abbrev pub listed : List (Dict ℕ) → ℕ
listed [] = 0
listed (active ∷ later) = length active + listed later
