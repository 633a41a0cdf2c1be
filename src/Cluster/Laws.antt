-- ===== src/Cluster/Laws.antt =====
-- What the client relies on in a store, and what Register and BecomeLeader do with such a one.
use Prim.Native.String.{String}
use gbalancer.Prelude.{
  ℕ, ◌<◌, ◌≡◌, ◌≢◌, refl, sym, ◌∙◌, ◌++◌, inl, inr, Bool, List, [], ◌∷◌, Option, none, some,
  Option-cases,
}
use gbalancer.Decimal.{ℤ}
use gbalancer.Cluster.{
  Etcd, Client, node_path, leader_path, find_instance, lock, exists_already, registered, trying,
  register, become_leader,
}

-- A store that keeps, for each key, a value and the index of its last change. Every change has
-- a higher index than all before it. The entry of a key can vanish, when its time is over.
pub record Store (E : Etcd) : Type 0 where
  pub entry : E.State → String → Option (String × ℕ)
  pub index : E.State → ℕ
  pub create_free :
      (s : E.State) (k v : String) (ttl : ℕ)
      → entry s k ≡ none
      → (t : E.State) × (i : ℕ) × (E.create s k v ttl ≡ some (t, i))
  pub create_taken :
      (s : E.State) (k v w : String) (ttl i : ℕ)
      → entry s k ≡ some (w, i)
      → E.create s k v ttl ≡ none
  pub created :
      (s t : E.State) (k v : String) (ttl i : ℕ)
      → E.create s k v ttl ≡ some (t, i)
      → (entry t k ≡ some (v, i)) × (index s < i) × (index t ≡ i)
  pub swapped :
      (s t : E.State) (k v w : String) (ttl i j : ℕ)
      → E.compare_and_swap s k v ttl w j ≡ some (t, i)
      → (entry s k ≡ some (w, j)) × (entry t k ≡ some (v, i)) × (index s < i) × (index t ≡ i)

module _ (E : Etcd) (D : Store E) where
  -- the key is there in every round
  abbrev pub StaysTaken : String → List (E.State → E.State) → E.State → Type 0
  StaysTaken k [] s = (v : String) × (i : ℕ) × (D.entry s k ≡ some (v, i))
  StaysTaken k (world ∷ later) s =
      ((v : String) × (i : ℕ) × (D.entry s k ≡ some (v, i))) × StaysTaken k later (world s)

  lock_taken :
      (k v : String) (ttl : ℕ) (s : E.State)
      → ((w : String) × (i : ℕ) × (D.entry s k ≡ some (w, i)))
      → lock E k v ttl s ≡ none
  unfolding lock
  lock_taken k v ttl s (w, i, e) = D.create_taken s k v w ttl i e

  -- Register takes no node over as long as its key is there, be the process that set it alive or not.
  register_taken :
      (alive : ℤ → Bool) (l : Client) (ttl : ℕ) (later : List (E.State → E.State)) (s t : E.State)
      (i : ℕ)
      → StaysTaken (node_path l) later s
      → register E alive l ttl later s ≢ registered t i
  unfolding register
  register_taken alive l ttl [] s t i h e = elim (Option-cases (find_instance E alive l s)) [
    | inl nobody ↦
        let r : register E alive l ttl [] s ≡ trying s =
          rw (nobody, register, lock_taken (node_path l) l.pid ttl s h) refl in
        cc
    | inr (pid, up) ↦
        let r : register E alive l ttl [] s ≡ exists_already pid = rw (up, register) refl in cc
  ]
  register_taken alive l ttl (world ∷ later) s t i (h, stays) e =
      elim (Option-cases (find_instance E alive l s)) [
        | inl nobody ↦
            let r : register E alive l ttl (world ∷ later) s
                ≡ register E alive l ttl later (world s) =
              rw (nobody, register, lock_taken (node_path l) l.pid ttl s h) refl in
            register_taken alive l ttl later (world s) t i stays (sym r ∙ e)
        | inr (pid, up) ↦
            let r : register E alive l ttl (world ∷ later) s ≡ exists_already pid =
              rw (up, register) refl in
            cc
      ]

  -- the store after some sleeps
  abbrev pub after_all : List (E.State → E.State) → E.State → E.State
  after_all [] s = s
  after_all (world ∷ later) s = after_all later (world s)

  -- the client got the key, which holds its address
  abbrev pub IsLeader : Client → Option (E.State × ℕ) → Type 0
  IsLeader l r =
      (t : E.State) × (i : ℕ) × (r ≡ some (t, i))
      × (D.entry t (leader_path l) ≡ some (l.ip_address, i))

  lock_free :
      (k v : String) (ttl : ℕ) (s : E.State)
      → D.entry s k ≡ none
      → (t : E.State) × (i : ℕ) × (lock E k v ttl s ≡ some (t, i))
  unfolding lock
  lock_free k v ttl s free = D.create_free s k v ttl free

  lock-IsLeader :
      (l : Client) (ttl : ℕ) (s t : E.State) (i : ℕ)
      → lock E (leader_path l) l.ip_address ttl s ≡ some (t, i)
      → IsLeader l (lock E (leader_path l) l.ip_address ttl s)
  unfolding lock
  lock-IsLeader l ttl s t i e = (t, i, e, (D.created s t (leader_path l) l.ip_address ttl i e).0)

  -- BecomeLeader returns, with its address under the key of the leader, if that key is free after
  -- some of its sleeps.
  become_leader-IsLeader :
      (l : Client) (ttl : ℕ) (before later : List (E.State → E.State)) (s : E.State)
      → D.entry (after_all before s) (leader_path l) ≡ none
      → IsLeader l (become_leader E l ttl (before ++ later) s)
  unfolding become_leader
  become_leader-IsLeader l ttl [] later s free =
      let (t, i, e) = lock_free (leader_path l) l.ip_address ttl s free in
      first later (lock-IsLeader l ttl s t i e) e
    where
      first :
          (later : List (E.State → E.State)) {t : E.State} {i : ℕ}
          → IsLeader l (lock E (leader_path l) l.ip_address ttl s)
          → lock E (leader_path l) l.ip_address ttl s ≡ some (t, i)
          → IsLeader l (become_leader E l ttl later s)
      first [] h e = h
      first (world ∷ later) h e = rw (e, become_leader) (rw e at h)
  become_leader-IsLeader l ttl (world ∷ before) later s free =
      elim (Option-cases (lock E (leader_path l) l.ip_address ttl s)) [
        | inl taken ↦
            rw (taken, become_leader) (become_leader-IsLeader l ttl before later (world s) free)
        | inr ((t, i), e) ↦ rw (e, become_leader) (rw e at (lock-IsLeader l ttl s t i e))
      ]
