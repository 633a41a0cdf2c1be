-- ===== src/Wrangler/Probe/Laws.antt =====
-- What BuildActiveBackends answers, whatever the order in which the probes end.
use Prim.Native.String.{String}
use text.Mathlib.TextEquality.{eq_iff}
use gbalancer.Prelude.{
  ℕ, ◌≡◌, refl, Bool, true, false, ◌&&◌, List, [], ◌∷◌, Option, none, some, arith, if◌then◌else◌,
  Option-cases, inl, inr,
}
use gbalancer.Prelude.Dict.{Dict, lookup, insert, lookup-insert}
use gbalancer.Texts.{occurs}
use gbalancer.Backend.{GoError}
use gbalancer.Wrangler.Probe.{Network, Answer, flag_up, receive, build}

abbrev pub succeeds : Option GoError → Bool
succeeds none = true
succeeds (some e) = false

pub lookup-receive :
    (probe : String → Option GoError) (a : String) (addrs : List String) (m : Dict ℕ)
    → lookup a (receive probe addrs m)
      ≡ (if occurs a addrs && succeeds (probe a) then some flag_up else lookup a m)
unfolding receive
lookup-receive probe a [] m = refl
lookup-receive probe a (x ∷ addrs) m = elim (Option-cases (probe x)) [
  | inl good ↦
      rw (good, lookup-receive probe a addrs (insert x flag_up m), lookup-insert x a flag_up m)
        (ground (arith, eq_iff x a))
  | inr (e, bad) ↦ rw (bad, lookup-receive probe a addrs m) (ground (arith, eq_iff x a))
]

-- the active backends are the directors whose probe succeeds
abbrev pub IsActive : (String → Option GoError) → List String → Answer → Type 0
IsActive probe ds r =
    (r.1 ≡ none)
    × ((a : String)
        → lookup a r.0 ≡ (if occurs a ds && succeeds (probe a) then some flag_up else none))

-- For at least one director, whose results arrive in any order, BuildActiveBackends reports no error and
-- exactly the directors whose probe succeeds.
pub build-IsActive :
    (net : Network) (probe : String → Option GoError) (d : String) (ds : List String)
    → ((a : String) → occurs a (net.arrive (d ∷ ds)) ≡ occurs a (d ∷ ds))
    → IsActive probe (d ∷ ds) (build net probe (d ∷ ds))
unfolding build lookup
build-IsActive net probe d ds arrived =
    (refl, λ a. rw (lookup-receive probe a (net.arrive (d ∷ ds)) [], arrived a))
