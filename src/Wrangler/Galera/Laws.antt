-- ===== src/Wrangler/Galera/Laws.antt =====
-- The Galera driver reports no backend whose own probe failed.
use Prim.Native.String.{String}
use text.Mathlib.TextEquality.{eq_iff}
use gbalancer.Prelude.{
  ℕ, ◌+◌, ◌≡◌, refl, List, [], ◌∷◌, Option, none, some, arith, ◌==◌, Option-cases, inl, inr,
  Bool-cases, ◌⊎◌,
}
use gbalancer.Prelude.Dict.{Dict, lookup, insert, lookup-insert}
use gbalancer.Backend.{GoError}
use gbalancer.Wrangler.Probe.{flag_up, receive}
use gbalancer.Wrangler.Probe.Laws.{lookup-receive}
use gbalancer.Wrangler.Galera.{
  Cluster, Galera, galera_probe, probe_of, members, others, swap_front, ask_directors, build_galera,
}

-- every entry is marked as up, and its probe succeeds
abbrev pub Confirmed : (String → Option GoError) → Dict ℕ → Type 0
Confirmed probe m = (a : String) (v : ℕ) → lookup a m ≡ some v → (v ≡ flag_up) × (probe a ≡ none)

module _ (probe : String → Option GoError) where
  insert-Confirmed :
      (a : String) (m : Dict ℕ)
      → probe a ≡ none
      → Confirmed probe m
      → Confirmed probe (insert a flag_up m)
  insert-Confirmed a m good h x v e = ground (arith, lookup-insert a x flag_up m, eq_iff a x, h x v)

  receive-Confirmed :
      (addrs : List String) (m : Dict ℕ)
      → Confirmed probe m
      → Confirmed probe (receive probe addrs m)
  receive-Confirmed addrs m h x v e = elim (Option-cases (probe x)) [
    | inl good ↦ ground (arith, lookup-receive probe x addrs m, h x v)
    | inr (f, bad) ↦ ground (arith, lookup-receive probe x addrs m, h x v)
  ]

ask_directors-Confirmed :
    (net : Cluster) (dirs : List String) (i : ℕ) (c : Galera) (active : Dict ℕ)
    → Confirmed (probe_of net c) active
    → Confirmed (probe_of net c) (ask_directors net dirs i c active).1
unfolding ask_directors
ask_directors-Confirmed net [] i c active h = h
ask_directors-Confirmed net (dir ∷ dirs) i c active h = elim (Option-cases (probe_of net c dir)) [
  | inr (e, bad) ↦ rw (bad, ask_directors) (ask_directors-Confirmed net dirs (i + 1) c active h)
  | inl good ↦ elim (Option-cases (members (galera_probe net c.user c.pass dir).0)) [
    | inr (addrs, found) ↦
        rw (good, ask_directors, found)
          (receive-Confirmed (probe_of net c) (net.arrive (others dir addrs)) _
            (insert-Confirmed (probe_of net c) dir active good h))
    | inl alone ↦ elim (Bool-cases (i == 0)) [
      | inl front ↦
          rw (good, ask_directors, alone, front)
            (ask_directors-Confirmed net dirs (i + 1) c (insert dir flag_up active)
              (insert-Confirmed (probe_of net c) dir active good h))
      | inr back ↦
          rw (good, ask_directors, alone, back)
            (ask_directors-Confirmed net dirs (i + 1)
              (record c { director = swap_front c.director i }) (insert dir flag_up active)
              (insert-Confirmed (probe_of net c) dir active good h))
    ]
  ]
]

-- Every backend that BuildActiveBackends of the Galera driver reports is marked as up and answers
-- its own probe.
pub build_galera-Confirmed :
    (net : Cluster) (c : Galera) → Confirmed (probe_of net c) (build_galera net c).1.0
unfolding build_galera lookup
build_galera-Confirmed net c = elim (director_cases c.director) [
  | inl nobody ↦ rw (nobody, build_galera) (λ a v e. cc)
  | inr (d, ds, some_of) ↦
      rw (some_of, build_galera) (ask_directors-Confirmed net (d ∷ ds) 0 c [] (λ a v e. cc))
]
  where
    director_cases :
        (l : List String) → (l ≡ []) ⊎ ((d : String) × (ds : List String) × (l ≡ d ∷ ds))
    director_cases [] = inl refl
    director_cases (d ∷ ds) = inr (d, ds, refl)
