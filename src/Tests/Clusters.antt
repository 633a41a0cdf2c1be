-- ===== src/Tests/Clusters.antt =====
-- The theorems on the cluster at concrete inputs.
use Prim.Native.String.{String}
use text.Mathlib.Text.{◌==◌ as str_eq}
use text.Mathlib.TextEquality.{eq_iff}
use mathlib.Core.Option.{some-injective}
use gbalancer.Prelude.{
  ℕ, ◌+◌, ◌≡◌, ◌<◌, refl, subst, inl, inr, Bool-cases, Option-cases, ◌∙◌, ◌&&◌, Option, none, some,
  arith, if◌then◌else◌, ◌==◌,
}
use gbalancer.Cluster.{Etcd, Client, lock, refresh}
use gbalancer.Cluster.Laws.{Store}
use gbalancer.Cluster.Election.{
  World, holding, moves, Reaches, here, later, contends, elsewhere, start, one_leader, overthrown,
}

-- the entries and the highest index
abbrev Table : Type 0
Table = (String → Option (String × ℕ)) × ℕ

abbrev write : Table → String → String → Table × ℕ
write (table, n) k v = (((λ x. if str_eq k x then some (v, n + 1) else table x), n + 1), n + 1)

abbrev create : Table → String → String → ℕ → Option (Table × ℕ)
create s k v ttl = elim (s.0 k) [ none ↦ some (write s k v) | some e ↦ none ]

abbrev swap : Table → String → String → ℕ → String → ℕ → Option (Table × ℕ)
swap s k v ttl w j = elim (s.0 k) [
  | none ↦ none
  | some (u, i) ↦ if str_eq u w && i == j then some (write s k v) else none
]

abbrev tables : Etcd
tables = record {
  State = Table;
  get = λ s k. elim (s.0 k) [ none ↦ none | some (v, i) ↦ some v ];
  create = create;
  compare_and_swap = swap;
}

-- what a write leaves under its key
abbrev Kept : Table → String → String → Table × ℕ → Type 0
Kept s k v r = (r.0.0 k ≡ some (v, r.1)) × (s.1 < r.1) × (r.0.1 ≡ r.1)

write-Kept : (s : Table) (k v : String) → Kept s k v (write s k v)
write-Kept s k v = (rw ((eq_iff k k).1 refl) refl, omega arith, refl)

written :
    (s t : Table) (k v : String) (i : ℕ) → some (write s k v) ≡ some (t, i) → Kept s k v (t, i)
written s t k v i e = subst (Kept s k v) (some-injective (write s k v) (t, i) e) (write-Kept s k v)

created :
    (s t : Table) (k v : String) (ttl i : ℕ) → create s k v ttl ≡ some (t, i) → Kept s k v (t, i)
created s t k v ttl i e = elim (Option-cases (s.0 k)) [
  | inl free ↦ written s t k v i (rw (free, create) at e)
  | inr (w, there) ↦
      let never : ◌≡◌ {A = Option (Table × ℕ)} none (some (t, i)) = rw (there, create) at e in cc
]

swapped :
    (s t : Table) (k v w : String) (ttl i j : ℕ)
    → swap s k v ttl w j ≡ some (t, i)
    → (s.0 k ≡ some (w, j)) × Kept s k v (t, i)
swapped s t k v w ttl i j e = elim (Option-cases (s.0 k)) [
  | inl free ↦
      let never : ◌≡◌ {A = Option (Table × ℕ)} none (some (t, i)) = rw (free, swap) at e in cc
  | inr ((u, m), there) ↦ elim (Bool-cases (str_eq u w && m == j)) [
    | inl fits ↦
        (there ∙ ground (arith, eq_iff u w, fits), written s t k v i (rw (there, swap, fits) at e))
    | inr other ↦
        let never : ◌≡◌ {A = Option (Table × ℕ)} none (some (t, i)) =
          rw (there, swap, other) at e in
        cc
  ]
]

abbrev kept : Store tables
kept = record {
  entry = λ s k. s.0 k;
  index = λ s. s.1;
  create_free = λ s k v ttl free. ((write s k v).0, (write s k v).1, rw (free, create) refl);
  create_taken = λ s k v w ttl i there. rw (there, create) refl;
  created = created;
  swapped = λ s t k v w ttl i j e.
      let (was, now) = swapped s t k v w ttl i j e in (was, now.0, now.1, now.2);
}

abbrev node : Client
node = record {
  service_name = "ldirector";
  cluster_name = "one";
  ip_address = "10.0.0.7";
  pid = "4711";
}

abbrev nothing : Table
nothing = ((λ x. none), 0)

abbrev name : ℕ → String
name p = "10.0.0.7"

abbrev key : String
key = "/leader"

-- process 3 has the key
abbrev led : World tables
led = moves (start tables kept key 60 name nothing) 3 (write nothing key "10.0.0.7").0 (holding 1)

led-Reaches : Reaches tables kept key 60 name (start tables kept key 60 name nothing) led
unfolding lock
led-Reaches = later here (contends 3 (write nothing key "10.0.0.7").0 1 refl refl refl)

one_leader_example : ◌≡◌ {A = ℕ} 3 3
unfolding refresh
one_leader_example =
    one_leader tables kept key 60 name nothing led 3 3 1 1 (write led.store key "10.0.0.7")
      (write led.store key "10.0.0.7") led-Reaches refl refl refl refl

-- its entry has vanished
abbrev expired : World tables
expired = record led { store = ((λ x. none), 1) }

expired-Reaches : Reaches tables kept key 60 name (start tables kept key 60 name nothing) expired
expired-Reaches = later led-Reaches (elsewhere ((λ x. none), 1) (omega arith) (λ v i e. cc) refl)

overthrown_example :
    refresh tables key "10.0.0.7" 60 1 (write expired.store key "10.0.0.7").0 ≡ none
unfolding lock
overthrown_example =
    overthrown tables kept key 60 name nothing (write expired.store key "10.0.0.7").0 expired
      (moves expired 4 (write expired.store key "10.0.0.7").0 (holding 2)) 3 4 1 2 expired-Reaches
      refl refl here refl
