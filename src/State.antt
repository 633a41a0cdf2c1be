-- ===== src/State.antt =====
-- engine/native/scheduler.go: the state of the scheduler, its requests and what surrounds it.
use gbalancer.Prelude.{ℕ, Bool, List, Option, Run, ok, panic, exhausted, ◌≡◌}
use gbalancer.Prelude.Dict.{Dict}
use gbalancer.Backend.{ConnTunnel, GoError, Dialed}
use gbalancer.Pool.{Pool}

abbrev pub max_backends : ℕ
max_backends = 128

abbrev pub max_forwarders : ℕ
max_forwarders = 8192

abbrev pub max_forwarders_per_backend : ℕ
max_forwarders_per_backend = 4096

-- A Request; `conn` is the client's connection.
pub record Request : Type 0 where
  pub conn : ℕ
  pub backend : Option ℕ
  pub err : Option GoError

-- A spdySession. CreateSpdySession can hand one over whose `spdy` is nil.
pub record Session : Type 0 where
  pub backend : ℕ
  pub spdy : Option ConnTunnel
  pub connindex : ℕ

-- what a handler does to the outside, oldest first: closes a connection, starts
-- CreateSpdySession, or sends a session to spdyFailChan
pub data Effect : Type 0 where
  close_client close_spdy : ℕ → Effect
  create_session fail_session : (backend index : ℕ) → Effect

-- The Scheduler with the objects that it points to. Backends and requests are allocated upwards.
-- `running` lists the requests for which `go s.run(req)` was started and has not ended, `finished`
-- those in the channel `done`. `upstream` is what ForwarderNewConnection has returned to the goroutine
-- of a running request. `check_time` is the package's spdyCheckTime.
pub record Scheduler : Type 0 where
  pub pool : Pool
  pub backend_seq : ℕ
  pub backends : Dict ℕ
  pub next_backend : ℕ
  pub requests : ℕ → Request
  pub next_request : ℕ
  pub pending : List ℕ
  pub running : List ℕ
  pub finished : List ℕ
  pub upstream : ℕ → Option Dialed
  pub tunnels : ℕ
  pub check_time : ℕ
  pub effects : List Effect

-- What a handler reads of its surroundings: the clock, spdystream's PeekNextStreamId, rand.Perm,
-- and the flag -shuffle.
pub record Env : Type 0 where
  pub now : ℕ
  pub peek_next_stream_id : ℕ → ℕ
  pub perm : ℕ → List ℕ
  pub shuffled : Bool

-- How a handler ends: by returning, or by a panic, which Schedule recovers with the state as it is
-- then. `stuck` is the model's fuel running out.
pub data Exec : Type 0 where
  done : Scheduler → Exec
  died : Scheduler → Exec
  stuck : Exec

infixl 5 ◌>>◌
-- one statement after another
abbrev pub ◌>>◌ : Exec → (Scheduler → Exec) → Exec
done s >> k = k s
died s >> k = died s
stuck >> k = stuck

-- a call of container/heap, which panics before it changes anything
abbrev pub on_pool {ℓ} : {A : Type ℓ} → Scheduler → Run A → (A → Exec) → Exec
on_pool s (ok a) k = k a
on_pool s panic k = died s
on_pool s exhausted k = stuck

-- the handler returns, in a state that satisfies the predicate
abbrev pub Ends {ℓ} : (Scheduler → Type ℓ) → Exec → Type ℓ
Ends P e = (t : Scheduler) × (e ≡ done t) × P t
