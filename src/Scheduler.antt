-- ===== src/Scheduler.antt =====
-- engine/native/scheduler.go: the handlers of Schedule's select and the methods that they call.
pub mod Places
pub mod Invariant
pub mod Readd
pub mod Dispatch
pub mod Keep
pub mod OffHeap
pub mod Finish
pub mod Registry
pub mod Moves
pub mod Names
pub mod BringUp
pub mod Review
pub mod Status
pub mod Serve
pub mod Waiting
pub mod Ready
pub mod Running
pub mod Copies
pub mod Retry
pub mod Kept
pub mod Reach
pub mod Trace
pub mod Again
pub mod Client
pub mod Whole
pub mod Plain
pub mod Stranded
pub mod Latest
pub mod Whereabouts
pub mod Balance
pub mod Drained
pub mod Refused
pub mod Room
use Prim.Native.String.{String}
use gbalancer.Prelude.{
  ℕ, zero, suc, ◌+◌, ◌-◌, ◌%◌, ◌^◌, Bool, true, false, ◌&&◌, List, [], ◌∷◌, ◌++◌, map, Option, none,
  some, ltb, leb, ◌==◌, update, if◌then◌else◌,
}
use gbalancer.Prelude.Dict.{Dict, lookup, insert, delete}
use gbalancer.Prelude.Lists.{length, get_elem?, set}
use gbalancer.Backend.{
  Backend, GoError, op_error, other_error, new_backend, set_fail_chan, switch_spdy_conn,
  spdy_check_stream_id,
}
use gbalancer.Pool.{Pool}
use gbalancer.Heap.{add, take_top, remove}
use gbalancer.Shuffle.{shuffle, sort_strings}
use gbalancer.State.{
  Request, Session, Effect, close_client, close_spdy, create_session, Scheduler, Env, Exec, done,
  died, ◌>>◌, on_pool, max_forwarders, max_forwarders_per_backend,
}
use text.Mathlib.Text.{◌==◌ as str_eq}

-- NewScheduler
unfoldable pub new_scheduler : Bool → ℕ → (ℕ → Backend) → (ℕ → Request) → Scheduler
new_scheduler lw tunnels mem requests = record {
  pool = record { slots = λ i. 0; len = 0; cap = max_forwarders; leastweight = lw; mem = mem };
  backend_seq = 0;
  backends = [];
  next_backend = 0;
  requests = requests;
  next_request = 0;
  pending = [];
  running = [];
  finished = [];
  upstream = λ r. none;
  tunnels = tunnels;
  check_time = 0;
  effects = [];
}

-- an assignment to the object that a backend's pointer leads to
abbrev pub set_backend : Scheduler → ℕ → Backend → Scheduler
set_backend s b v = record s { pool = record (s.pool) { mem = update s.pool.mem b v } }

abbrev pub set_pool : Scheduler → Pool → Scheduler
set_pool s p = record s { pool = p }

-- `b.ongoing++` and `b.ongoing--` of a uint
abbrev pub enter : Scheduler → ℕ → Scheduler
enter s b =
    set_backend s b (record (s.pool.mem b) { ongoing = ((s.pool.mem b).ongoing + 1) % 2 ^ 64 })

abbrev pub leave : Scheduler → ℕ → Scheduler
leave s b =
    set_backend s b
      (record (s.pool.mem b) { ongoing = ((s.pool.mem b).ongoing + 2 ^ 64 - 1) % 2 ^ 64 })

-- the end of dispatch: SpdyCheckStreamId, `req.backend = b`, and `go s.run(req)`
unfoldable pub start : Env → Scheduler → ℕ → ℕ → Scheduler
start env s b r =
    let (v, checked, renewed) =
      spdy_check_stream_id env.peek_next_stream_id env.now s.check_time (s.pool.mem b) in
    record (set_backend s b v) {
      requests = update s.requests r (record (s.requests r) { backend = some b });
      running = r ∷ s.running;
      upstream = update s.upstream r none;
      check_time = checked;
      effects = s.effects ++ map (create_session b) renewed;
    }

-- dispatch once a backend is off the heap
unfoldable pub admit : Env → Scheduler → ℕ → ℕ → Exec
unfolding start
admit env s b r =
    if leb max_forwarders_per_backend (s.pool.mem b).ongoing
    then on_pool s (add s.pool b) (λ p.
      done (record s { pool = p; effects = s.effects ++ close_client (s.requests r).conn ∷ [] }))
    else on_pool (enter s b) (add (enter s b).pool b) (λ p. done (start env (set_pool s p) b r))

unfoldable pub dispatch : Env → Scheduler → ℕ → Exec
unfolding admit
dispatch env s r =
    if s.pool.len == 0
    then done (record s { pending = s.pending ++ r ∷ [] })
    else on_pool s (take_top s.pool) (λ (b, p). admit env (set_pool s p) b r)

-- heap.Remove of a backend's place, unless the backend is off the heap
abbrev pub take_off : Scheduler → ℕ → Exec
take_off s b = elim (s.pool.mem b).index [
  | none ↦ done s
  | some i ↦ on_pool s (remove s.pool i) (λ (_, p). done (set_pool s p))
]

-- heap.Push
abbrev pub put_on : Scheduler → ℕ → Exec
put_on s b = on_pool s (add s.pool b) (λ p. done (set_pool s p))

unfoldable pub is_dial : GoError → Bool
is_dial (op_error op) = str_eq op "dial"
is_dial other_error = false

unfoldable pub finish : Env → Scheduler → ℕ → Exec
unfolding is_dial
finish env s r = elim (s.requests r).backend [
  | none ↦ died s
  | some b ↦ elim (s.requests r).err [
    | some e ↦
        take_off s b >> λ t. if is_dial e then dispatch env (leave t b) r else done (leave t b)
    | none ↦ elim (s.pool.mem b).index [
      | none ↦ done (leave s b)
      | some i ↦ take_off s b >> λ t. put_on (leave t b) b
    ]
  ]
]

unfoldable pub add_backend : Scheduler → ℕ → Exec
add_backend s b = put_on (record s { backends = insert (s.pool.mem b).address b s.backends }) b

unfoldable pub remove_backend : Scheduler → String → Exec
remove_backend s addr = elim (lookup addr s.backends) [
  | none ↦ done s
  | some b ↦
      take_off s b >> λ t. done (record t { backends = delete (t.pool.mem b).address t.backends })
]

-- The first loop of the status case over the backends `known`, with the active ones that remain.
unfoldable pub review : Dict ℕ → Dict ℕ → Scheduler → (Dict ℕ → Scheduler → Exec) → Exec
unfolding remove_backend
review [] active s k = k active s
review ((addr, b) ∷ known) active s k = elim (lookup addr active) [
  | none ↦ remove_backend s addr >> λ t. review known active t k
  | some _ ↦ elim (s.pool.mem b).index [ none ↦ put_on s b | some _ ↦ done s ] >> λ t.
      review known (delete addr active) t k
]

-- `go CreateSpdySession(NewSpdySession(b, i), ..)` for each of the tunnels from `i` on
abbrev pub sessions : ℕ → ℕ → ℕ → List Effect
sessions b zero i = []
sessions b (suc n) i = create_session b i ∷ sessions b n (i + 1)

-- nextBackendSequence: the new value of the uint, which is also what is returned
abbrev pub next_backend_sequence : Scheduler → ℕ
next_backend_sequence s = (s.backend_seq + 1) % 2 ^ 64

-- the body of the second loop of the status case up to the goroutines: NewBackend and FailChan
unfoldable pub allocate : Env → Scheduler → String → Scheduler
allocate env s addr =
    let b = s.next_backend in
    let seq = if env.shuffled then s.backend_seq else next_backend_sequence s in
    let weight = if env.shuffled then 0 else seq in
    let fresh = set_fail_chan (new_backend addr s.tunnels weight) in
    record (set_backend s b fresh) {
      next_backend = b + 1;
      backend_seq = seq;
      effects = s.effects ++ sessions b s.tunnels 0;
    }

-- one round of that loop: AddBackend waits for a tunnel if there are to be any
unfoldable pub bring_up : Env → Scheduler → String → Exec
unfolding add_backend allocate
bring_up env s addr =
    if ltb 0 s.tunnels
    then done (allocate env s addr)
    else add_backend (allocate env s addr) s.next_backend

unfoldable pub bring_up_all : Env → List String → Scheduler → Exec
unfolding bring_up
bring_up_all env [] s = done s
bring_up_all env (addr ∷ addrs) s = bring_up env s addr >> bring_up_all env addrs

unfoldable pub ordered_names : Env → Dict ℕ → List String
ordered_names env active =
    let addrs = map (λ (a, _). a) active in
    if env.shuffled then shuffle env.perm addrs else sort_strings addrs

-- the status case
unfoldable pub on_status : Env → Scheduler → Dict ℕ → Exec
unfolding review bring_up_all ordered_names
on_status env s active =
    review s.backends active s (λ rest t. bring_up_all env (ordered_names env rest) t)

-- the case of spdyFailChan
unfoldable pub on_failed : Scheduler → Session → Exec
on_failed s x = elim (get_elem? (s.pool.mem x.backend).tunnel x.connindex) [
  | none ↦ died s
  | some t ↦
      if t.switching
      then done s
      else done
          (record (set_backend s x.backend (record (s.pool.mem x.backend) {
            tunnel = set (s.pool.mem x.backend).tunnel x.connindex (record t { switching = true });
          })) { effects = s.effects ++ create_session x.backend x.connindex ∷ [] })
]

-- the pending requests, dispatched in the order of their arrival
unfoldable pub drain : Env → List ℕ → Scheduler → Exec
unfolding dispatch
drain env [] s = done s
drain env (r ∷ rs) s = dispatch env s r >> drain env rs

-- the case of newTunnelChan once the session is switched
unfoldable pub enlist : Env → Scheduler → ℕ → Exec
unfolding add_backend drain
enlist env s b = elim (lookup (s.pool.mem b).address s.backends) [
  | some _ ↦ done s
  | none ↦ add_backend s b >> λ t.
      let drained = drain env t.pending t >> λ u. done (record u { pending = [] }) in
      if ltb 0 (length t.pending) && ltb 0 t.pool.len then drained else done t
]

abbrev pub closing : Option ℕ → List Effect
closing none = []
closing (some c) = close_spdy c ∷ []

unfoldable pub on_ready : Env → Scheduler → Session → Exec
unfolding enlist
on_ready env s x =
    let (closed, switched) = switch_spdy_conn (s.pool.mem x.backend) x.connindex x.spdy in
    let s' = record s { effects = s.effects ++ closing closed } in
    elim switched [ none ↦ died s' | some v ↦ enlist env (set_backend s' x.backend v) x.backend ]
