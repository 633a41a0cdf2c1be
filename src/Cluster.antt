-- ===== src/Cluster.antt =====
-- cluster/client.go: the registration of a node and the election of a leader, over a store.
pub mod Laws
pub mod Election
use Prim.Native.String.{String}
use gbalancer.Prelude.{ℕ, Bool, List, [], ◌∷◌, Option, none, some, if◌then◌else◌}
use gbalancer.Decimal.{ℤ, atoi}
use gbalancer.Texts.{bytes}
use gbalancer.Paths.{join}

-- The etcd client, over the state of the store. A response is the new state with its EtcdIndex, an
-- error `none`.
pub record Etcd : Type 1 where
  pub State : Type 0
  pub get : State → String → Option String
  pub create : State → (key value : String) → (ttl : ℕ) → Option (State × ℕ)
  pub compare_and_swap :
      State
      → (key value : String) → (ttl : ℕ) → (prev_value : String) → (prev_index : ℕ)
      → Option (State × ℕ)

pub record Client : Type 0 where
  pub service_name : String
  pub cluster_name : String
  pub ip_address : String
  pub pid : String

-- NewClient, given the first address and the pid
unfoldable pub new_client : String → String → (ip pid : String) → Client
new_client service cluster ip pid = record {
  service_name = service;
  cluster_name = cluster;
  ip_address = ip;
  pid = pid;
}

-- NewClientFromFile, where `loads` says of which file etcd's client can be made; `none` is log.Fatal.
-- The name that the caller gives is not looked at.
unfoldable pub new_client_from_file :
    (String → Bool) → String → String → (config ip pid : String) → Option Client
unfolding new_client
new_client_from_file loads service cluster config ip pid =
    if loads "config.json" then some (new_client service cluster ip pid) else none

unfoldable pub prefix : Client → String
prefix l = join (l.service_name ∷ l.cluster_name ∷ [])

unfoldable pub leader_path : Client → String
unfolding prefix
leader_path l = join (prefix l ∷ "leader" ∷ "id" ∷ [])

unfoldable pub node_path : Client → String
unfolding prefix
node_path l = join (prefix l ∷ "node" ∷ l.ip_address ∷ [])

module _ (E : Etcd) where
  -- FindInstance: the pid, unless it reports an error. `alive` says whether signal 0 reaches a process.
  unfoldable pub find_instance : (ℤ → Bool) → Client → E.State → Option ℤ
  unfolding node_path
  find_instance alive l s = elim (E.get s (node_path l)) [
    | none ↦ none
    | some value ↦ elim (atoi (bytes value)) [
      | none ↦ none
      | some pid ↦ if alive pid then some pid else none
    ]
  ]

  -- Lock: on success its goroutine goes on with the index of the response
  unfoldable pub lock : String → String → ℕ → E.State → Option (E.State × ℕ)
  lock key value ttl s = E.create s key value ttl

  -- one round of that goroutine; without a response the process ends
  unfoldable pub refresh : String → String → ℕ → ℕ → E.State → Option (E.State × ℕ)
  refresh key value ttl index s = E.compare_and_swap s key value ttl value index

  -- What comes of Register after some rounds.
  pub data Registered : Type 0 where
    exists_already : ℤ → Registered
    registered : E.State → ℕ → Registered
    trying : E.State → Registered

  -- Register. The list holds what the rest of the world does to the store during the sleeps.
  unfoldable pub register :
      (ℤ → Bool) → Client → ℕ → List (E.State → E.State) → E.State → Registered
  unfolding find_instance lock
  register alive l ttl [] s = elim (find_instance alive l s) [
    | some pid ↦ exists_already pid
    | none ↦ elim (lock (node_path l) l.pid ttl s) [
      | some (t, index) ↦ registered t index
      | none ↦ trying s
    ]
  ]
  register alive l ttl (world ∷ later) s = elim (find_instance alive l s) [
    | some pid ↦ exists_already pid
    | none ↦ elim (lock (node_path l) l.pid ttl s) [
      | some (t, index) ↦ registered t index
      | none ↦ register alive l ttl later (world s)
    ]
  ]

  -- BecomeLeader, likewise; `none` if it is still waiting
  unfoldable pub become_leader :
      Client → ℕ → List (E.State → E.State) → E.State → Option (E.State × ℕ)
  unfolding lock leader_path
  become_leader l ttl [] s = lock (leader_path l) l.ip_address ttl s
  become_leader l ttl (world ∷ later) s = elim (lock (leader_path l) l.ip_address ttl s) [
    | some r ↦ some r
    | none ↦ become_leader l ttl later (world s)
  ]

  -- main of cmd/ldirector: it ends by log.Fatal, waits, or leads
  pub data Directing : Type 0 where
    fatal : Directing
    waiting : E.State → Directing
    leads : E.State → ℕ → Directing

  abbrev pub time_to_live : ℕ
  time_to_live = 60

  -- main, with what the rest of the world does before and after the registration
  unfoldable pub ldirector :
      (ℤ → Bool) → Client → (before later : List (E.State → E.State)) → E.State → Directing
  unfolding register become_leader
  ldirector alive l before later s = elim (register alive l time_to_live before s) [
    | exists_already pid ↦ fatal
    | trying t ↦ waiting t
    | registered t i ↦ elim (become_leader l time_to_live later t) [
      | none ↦ waiting t
      | some (u, j) ↦ leads u j
    ]
  ]
