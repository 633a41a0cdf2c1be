-- ===== src/Engine.antt =====
-- engine/engine.go, engine/native/native.go and the Server of main.go: the listeners, the director,
-- and the WaitGroup that Stop waits for.
pub mod Stop
pub mod Drain
use Prim.Native.String.{String}
use gbalancer.Prelude.{
  ℕ, ◌+◌, ◌-◌, ◌≡◌, Bool, true, false, List, [], ◌∷◌, ◌++◌, Option, none, some, if◌then◌else◌,
}
use gbalancer.Prelude.Dict.{Dict}
use gbalancer.Prelude.Lists.{get_elem?, set}
use gbalancer.Texts.{Text}
use gbalancer.Config.{ListenAddr, get_listen_addrs}
use gbalancer.Ipvs.{Ipvs, new_ipvs, ipvs_local_addr, local_schedule, remote_schedule}

-- A listener with the loop that accepts on it; `going` until the loop returns.
pub record Listener : Type 0 where
  pub address : ListenAddr
  pub is_open : Bool
  pub going : Bool

-- the goroutine of a director, before and after it returns
pub data Director : Type 0 where
  absent : Director
  directing : (remote : Bool) → Ipvs → Director
  directed : Ipvs → Director

-- A Server with the goroutines that Serve has started. `count` is the WaitGroup, `jobs` are the
-- connections sent to the scheduler, oldest first, and `closed` says that `done` is closed.
pub record Server : Type 0 where
  pub listeners : List Listener
  pub director : Director
  pub count : ℕ
  pub closed : Bool
  pub jobs : List ℕ

abbrev pub new_server : Server
new_server = record { listeners = []; director = absent; count = 0; closed = false; jobs = [] }

-- the flags -ipvs and -remote
pub record Flags : Type 0 where
  pub ipvs : Bool
  pub remote : Bool

-- the loop of native.Serve; `none` is log.Fatal
unfoldable pub listen_all : (ListenAddr → Bool) → List ListenAddr → Server → Option Server
listen_all can_listen [] s = some s
listen_all can_listen (a ∷ rest) s =
    let l : Listener = record { address = a; is_open = true; going = true } in
    let t = record s { listeners = s.listeners ++ l ∷ []; count = s.count + 1 } in
    let served = listen_all can_listen rest t in if can_listen a then served else none

-- native.Serve, next to the scheduler that it starts
unfoldable pub native_serve : (ListenAddr → Bool) → List Text → Server → Option Server
unfolding listen_all
native_serve can_listen listen s =
    let (addresses, good) = get_listen_addrs listen in
    if good then listen_all can_listen addresses s else none

-- engine.Serve, next to the wrangler that it starts
unfoldable pub serve :
    Flags → (ListenAddr → Bool) → (addr port : String) → List Text → Server → Option Server
unfolding native_serve
serve flags can_listen addr port listen s =
    if flags.ipvs
    then (let i = new_ipvs (if flags.remote then addr else ipvs_local_addr) port "wlc" in
        some (record s { count = s.count + 1; director = directing flags.remote i }))
    else native_serve can_listen listen s

-- what Accept returns; `temporary` and `failed` are errors
pub data Accepted : Type 0 where
  conn : ℕ → Accepted
  temporary failed : Accepted

-- one round of the loop of the listener `l`, the `k`th; the scheduler takes the connection at once
unfoldable pub on_accept : ℕ → Listener → Accepted → Server → Server
on_accept k l (conn c) s = record s { jobs = s.jobs ++ c ∷ [] }
on_accept k l temporary s = s
on_accept k l failed s = record s {
  listeners = set s.listeners k (record l { going = false });
  count = s.count - 1;
}

-- the goroutine of a listener once `done` is closed
unfoldable pub close_listener : ℕ → Listener → Server → Server
close_listener k l s = record s { listeners = set s.listeners k (record l { is_open = false }) }

-- LocalSchedule or RemoteSchedule, to the end
abbrev pub schedule : Bool → (List String → Bool) → String → List (Dict ℕ) → Ipvs → Option Ipvs
schedule remote works own messages i =
    if remote then remote_schedule works own messages i else local_schedule works own messages i

-- Server.Stop up to its Wait
unfoldable pub stop : Server → Server
stop s = record s { closed = true }

-- One step of a goroutine, or the start of Stop. On a closed listener Accept fails for good.
pub data Step (s t : Server) : Type 0 where
  accepts :
      (k : ℕ) (l : Listener) (a : Accepted)
      → get_elem? s.listeners k ≡ some l
      → l.going ≡ true
      → (l.is_open ≡ false → a ≡ failed)
      → t ≡ on_accept k l a s
      → Step s t
  closes :
      (k : ℕ) (l : Listener)
      → get_elem? s.listeners k ≡ some l
      → s.closed ≡ true
      → t ≡ close_listener k l s
      → Step s t
  returns :
      (remote : Bool) (i j : Ipvs) (works : List String → Bool) (own : String)
      (messages : List (Dict ℕ))
      → s.director ≡ directing remote i
      → s.closed ≡ true
      → schedule remote works own messages i ≡ some j
      → t ≡ record s { director = directed j; count = s.count - 1 }
      → Step s t
  stops : t ≡ stop s → Step s t

pub data Reaches (s : Server) : Server → Type 0 where
  here : Reaches s s
  later : {t u : Server} → Reaches s t → Step t u → Reaches s u
