-- ===== src/Scheduler/Names.antt =====
-- The addresses that the status case goes through.
use Prim.Native.String.{String}
use text.Mathlib.TextEquality.{eq_iff}
use gbalancer.Prelude.{
  ℕ, suc, ◌≤◌, ◌<◌, ◌≡◌, ◌≢◌, refl, ap, ◌∙◌, inl, inr, List, [], ◌∷◌, none, some, arith, Bool-cases,
  map, if◌then◌else◌,
}
use gbalancer.Prelude.Dict.{Dict, lookup, delete, has, Distinct, lookup-delete}
use gbalancer.Prelude.Lists.{length}
use gbalancer.Texts.{tally}
use gbalancer.Shuffle.Laws.{
  IsPermutation, tally-shuffle, tally-sort_strings, length-shuffle, length-sort_strings,
}
use gbalancer.State.{Env}
use gbalancer.Scheduler.{ordered_names}

-- no address is registered, and none stands in the list twice
abbrev pub AllNew : Dict ℕ → List String → Type 0
AllNew m [] = Unit {0}
AllNew m (a ∷ rest) = (lookup a m ≡ none) × (tally a rest ≡ 0) × AllNew m rest

pub AllNew-mono :
    (m m' : Dict ℕ) (b : String) (xs : List String)
    → ((a : String) → b ≢ a → lookup a m' ≡ lookup a m)
    → tally b xs ≡ 0
    → AllNew m xs
    → AllNew m' xs
AllNew-mono m m' b [] h out n = tt
AllNew-mono m m' b (a ∷ rest) h out n =
    (ground (arith, h a, eq_iff a b), n.1, AllNew-mono m m' b rest h (ground arith) n.2)

-- a list whose texts stand in it once and are not registered
pub AllNew-of :
    (m : Dict ℕ) (xs : List String)
    → ((a : String) → tally a xs ≤ 1)
    → ((a : String) → 0 < tally a xs → lookup a m ≡ none)
    → AllNew m xs
AllNew-of m [] once new = tt
AllNew-of m (a ∷ rest) once new = (
  new a (ground (arith, eq_iff a a)),
  ground (arith, once a, eq_iff a a),
  AllNew-of m rest (λ b. ground (arith, once b)) (λ b h. new b (ground arith)),
)

tally-keys :
    (m : Dict ℕ) (a : String)
    → Distinct m
    → tally a (map (λ (b, _). b) m) ≡ (if has (lookup a m) then 1 else 0)
unfolding lookup
tally-keys [] a d = refl
tally-keys ((b, v) ∷ m) a d = ground (arith, tally-keys m a d.1, eq_iff b a)

-- What the environment has to offer: rand.Perm returns a permutation.
pub record IsFair (env : Env) : Type 0 where
  pub permutes : (n : ℕ) → IsPermutation n (env.perm n)

pub tally-ordered_names :
    (env : Env) (m : Dict ℕ) (a : String)
    → IsFair env
    → Distinct m
    → tally a (ordered_names env m) ≡ (if has (lookup a m) then 1 else 0)
unfolding ordered_names
tally-ordered_names env m a f d = elim (Bool-cases env.shuffled) [
  | inl mixed ↦
      rw mixed (tally-shuffle env.perm (map (λ (b, _). b) m) (f.permutes _) a ∙ tally-keys m a d)
  | inr in_order ↦ rw in_order (tally-sort_strings a (map (λ (b, _). b) m) ∙ tally-keys m a d)
]

-- the known backends are registered, each once
abbrev pub Registered : Dict ℕ → Dict ℕ → Type 0
Registered m [] = Unit {0}
Registered m ((a, b) ∷ known) = (lookup a m ≡ some b) × (lookup a known ≡ none) × Registered m known

pub Registered-delete :
    (m : Dict ℕ) (a : String) (known : Dict ℕ)
    → lookup a known ≡ none
    → Registered m known
    → Registered (delete a m) known
unfolding lookup
Registered-delete m a [] out r = tt
Registered-delete m a ((c, b) ∷ known) out r = (
  ground (arith, lookup-delete a c m, eq_iff a c, eq_iff c a),
  r.1,
  Registered-delete m a known (ground arith) r.2,
)

Registered-cons :
    (m : Dict ℕ) (a : String) (b : ℕ) (known : Dict ℕ)
    → lookup a known ≡ none
    → Registered m known
    → Registered ((a, b) ∷ m) known
unfolding lookup
Registered-cons m a b [] out r = tt
Registered-cons m a b ((c, d) ∷ known) out r =
    (ground (arith, eq_iff a c, eq_iff c a), r.1, Registered-cons m a b known (ground arith) r.2)

pub Registered-self : (m : Dict ℕ) → Distinct m → Registered m m
unfolding lookup
Registered-self [] d = tt
Registered-self ((a, b) ∷ m) d =
    (ground (arith, eq_iff a a), d.0, Registered-cons m a b m d.0 (Registered-self m d.1))

length-map : (m : Dict ℕ) → length (map (λ (b, _). b) m) ≡ length m
length-map [] = refl
length-map ((b, v) ∷ m) = ap suc (length-map m)

pub length-ordered_names : (env : Env) (m : Dict ℕ) → length (ordered_names env m) ≡ length m
unfolding ordered_names
length-ordered_names env m = elim (Bool-cases env.shuffled) [
  | inl mixed ↦ rw mixed (length-shuffle env.perm (map (λ (b, _). b) m) ∙ length-map m)
  | inr in_order ↦ rw in_order (length-sort_strings (map (λ (b, _). b) m) ∙ length-map m)
]

pub length-delete-le : (a : String) (m : Dict ℕ) → length (delete a m) ≤ length m
unfolding delete
length-delete-le a [] = omega arith
length-delete-le a ((b, v) ∷ m) = ground (arith, length-delete-le a m)
