-- ===== src/Scheduler/BringUp.antt =====
-- The backends that the status case brings up.
use Prim.Native.String.{String}
use text.Mathlib.Text.{◌==◌ as str_eq}
use text.Mathlib.TextEquality.{eq_iff}
use gbalancer.Prelude.{
  ℕ, ◌+◌, ◌≤◌, ◌<◌, ◌≡◌, refl, Bool, not, ◌&&◌, ◌||◌, ltb, inl, inr, List, [], ◌∷◌, none, some,
  arith, Bool-cases, if◌then◌else◌,
}
use gbalancer.Prelude.Dict.{lookup, has, lookup-insert}
use gbalancer.Prelude.Lists.{length}
use gbalancer.Texts.{tally}
use gbalancer.Backend.{new_backend}
use gbalancer.State.{Scheduler, Env, Ends}
use gbalancer.Scheduler.{allocate, bring_up, bring_up_all}
use gbalancer.Scheduler.Moves.{Moved, Moved-trans, Moved-refl, add_backend-Moved}
use gbalancer.Scheduler.Names.{AllNew, AllNew-mono}
use gbalancer.Scheduler.Registry.{new-Places}
use gbalancer.Scheduler.Invariant.{Places}

-- a backend is allocated; it is not registered yet
module _ (env : Env) (s : Scheduler) (addr : String)
    (h : Places s.pool s.backends s.next_backend) where
  allocate-Moved :
      ((b : ℕ) → s.next_backend ≤ b → (s.pool.mem b).ongoing ≡ 0) → Moved 0 s (allocate env s addr)
  unfolding allocate new_backend
  allocate-Moved idle = record {
    apart = record {
      requests = refl;
      next_request = refl;
      pending = refl;
      running = refl;
      finished = refl;
      cap = refl;
      tunnels = refl;
      later = omega arith;
      counts = λ d. ground (arith, idle d);
    };
    places = new-Places s.pool s.backends s.next_backend _ h refl;
    grows = omega arith;
  }

  allocated :
      ((allocate env s addr).backends ≡ s.backends)
      × (((allocate env s addr).pool.mem s.next_backend).address ≡ addr)
      × ((allocate env s addr).pool.len ≡ s.pool.len)
      × ((allocate env s addr).pool.cap ≡ s.pool.cap)
      × (s.next_backend < (allocate env s addr).next_backend)
  unfolding allocate new_backend
  allocated = (refl, ground arith, refl, refl, omega arith)

  pub bring_up-Moved :
      ((b : ℕ) → s.next_backend ≤ b → (s.pool.mem b).ongoing ≡ 0)
      → lookup addr s.backends ≡ none
      → s.pool.len < s.pool.cap
      → Ends
          (λ t.
            Moved 1 s t
            × ((a : String)
                → lookup a t.backends ≡ (
                    if str_eq addr a && not (ltb 0 s.tunnels)
                    then some s.next_backend
                    else lookup a s.backends)))
          (bring_up env s addr)
  unfolding bring_up
  bring_up-Moved idle free room =
      let m = allocate-Moved idle in
      let (same, name, len, cap, old) = allocated in
      elim (Bool-cases (ltb 0 s.tunnels)) [
        | inl some_tunnels ↦ rw some_tunnels (
          _,
          refl,
          (
            record { apart = m.apart; places = m.places; grows = omega (arith, m.grows) },
            λ a. rw same (ground arith),
          ),
        )
        | inr no_tunnels ↦
            let (t, run, (n, names, _)) =
              add_backend-Moved (allocate env s addr) m.places s.next_backend old
                (rw (name, same) free) (omega (arith, len, cap)) in
            rw (no_tunnels, run)
              (
                _,
                refl,
                (
                  Moved-trans 0 1 s (allocate env s addr) t m n,
                  λ a.
                      rw (names, name, same, lookup-insert addr a s.next_backend s.backends)
                        (ground (arith, eq_iff addr a)),
                ),
              )
      ]

-- whether an address is registered after the second loop
abbrev pub grown : Scheduler → List String → String → Bool
grown s addrs a = has (lookup a s.backends) || (not (ltb 0 s.tunnels) && ltb 0 (tally a addrs))

pub bring_up_all-Moved :
    (env : Env) (addrs : List String) (s : Scheduler)
    → Places s.pool s.backends s.next_backend
    → ((b : ℕ) → s.next_backend ≤ b → (s.pool.mem b).ongoing ≡ 0)
    → AllNew s.backends addrs
    → s.pool.len + length addrs ≤ s.pool.cap
    → Ends
        (λ t.
          Moved (length addrs) s t × ((a : String) → has (lookup a t.backends) ≡ grown s addrs a))
        (bring_up_all env addrs s)
unfolding bring_up_all
bring_up_all-Moved env [] s h idle n room = (s, refl, (Moved-refl s h, λ a. ground arith))
bring_up_all-Moved env (a ∷ rest) s h idle n room =
    let (t, run, (m, names)) = bring_up-Moved env s a h idle n.0 (omega arith) in
    let (u, run', (m', more)) =
      bring_up_all-Moved env rest t m.places
        (λ b lo. ground (arith, m.apart.counts b, m.apart.later, idle b))
        (AllNew-mono s.backends t.backends a rest (λ x ne. ground (arith, names x, eq_iff a x)) n.1
          n.2)
        (omega (arith, m.grows, m.apart.cap)) in
    let both = Moved-trans 1 (length rest) s t u m m' in
    rw (run, run')
      (
        u,
        refl,
        (
          record { apart = both.apart; places = both.places; grows = omega (arith, both.grows) },
          λ x. ground (arith, more x, names x, m.apart.tunnels),
        ),
      )
