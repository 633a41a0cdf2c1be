-- ===== src/Scheduler/Waiting.antt =====
-- The loop of newTunnelChan over the requests that wait keeps the invariant and the registry.
use gbalancer.Prelude.{ℕ, ◌<◌, ◌≡◌, refl, ◌∙◌, inl, inr, List, [], ◌∷◌, arith, ◌⊎◌}
use gbalancer.Prelude.Lists.{length}
use gbalancer.State.{Scheduler, Env, Ends}
use gbalancer.Scheduler.{start, dispatch, drain}
use gbalancer.Scheduler.Dispatch.{Dispatched, waits, sheds, starts, dispatch-Dispatched}
use gbalancer.Scheduler.Keep.{Dispatched-Inv}
use gbalancer.Scheduler.Moves.{Moved, Apart-Books}
use gbalancer.Scheduler.Invariant.{Inv, held}

-- the state once only `rs` of the pending requests are left to dispatch
abbrev pub waiting : Scheduler → List ℕ → Scheduler
waiting s rs = record s { pending = rs }

-- the registry and the number of tunnels stay
abbrev pub Kept : Scheduler → Scheduler → Type 0
Kept s t = (t.backends ≡ s.backends) × (t.tunnels ≡ s.tunnels)

Dispatched-Kept : (env : Env) (s t : Scheduler) (r : ℕ) → Dispatched env s r t → Kept s t
unfolding start
Dispatched-Kept env s t r (waits empty e) = rw e (refl, refl)
Dispatched-Kept env s t r (sheds b q best full c e) = rw e (refl, refl)
Dispatched-Kept env s t r (starts b q best room c e) = rw e (refl, refl)

-- one round of the loop over the pending requests
pub drain_one :
    (env : Env) (s : Scheduler) (r : ℕ) (rs : List ℕ)
    → Inv (waiting s (r ∷ rs))
    → 0 < s.pool.len
    → Ends (λ t. Inv (waiting t rs) × (0 < t.pool.len) × Kept s t) (dispatch env s r)
drain_one env s r rs i some_up =
    let (t, run, d) = dispatch-Dispatched env s r i.places.ordered in
    (
      t,
      run,
      (
        Dispatched-Inv env (waiting s rs) r left out old (waiting t rs) (later t d),
        up t d,
        Dispatched-Kept env s t r d,
      ),
    )
  where
    left : Inv (waiting s rs)
    left = record {
      places = i.places;
      books = record {
        busy = i.books.busy;
        bounded = i.books.bounded;
        idle = i.books.idle;
        once = λ x. omega (arith, i.books.once x);
        unborn = λ x n. omega (arith, i.books.unborn x n);
        assigned = i.books.assigned;
      };
    }

    out : held (waiting s rs) r ≡ 0
    out = ground (arith, i.books.once r)

    old : r < s.next_request
    old = ground (arith, i.books.unborn r)

    later : (t : Scheduler) → Dispatched env s r t → Dispatched env (waiting s rs) r (waiting t rs)
    later t (waits empty e) = absurd (omega arith)
    later t (sheds b q best full c e) = rw e (sheds b q best full c refl)
    later t (starts b q best room c e) = rw e (starts b q best room c (unfold start in refl))

    up : (t : Scheduler) → Dispatched env s r t → 0 < t.pool.len
    up t (waits empty e) = absurd (omega arith)
    up t (sheds b q best full c e) = rw e (omega (arith, c.same_len))
    up t (starts b q best room c e) = rw e (unfold start in omega (arith, c.same_len))

pub drain-Inv :
    (env : Env) (rs : List ℕ) (s : Scheduler)
    → Inv (waiting s rs)
    → 0 < s.pool.len
    → Ends (λ t. Inv (waiting t []) × Kept s t) (drain env rs s)
unfolding drain
drain-Inv env [] s i up = (s, refl, (i, (refl, refl)))
drain-Inv env (r ∷ rs) s i up =
    let (t, run, (j, up', (same, tunnels))) = drain_one env s r rs i up in
    let (u, run', (k, (same', tunnels'))) = drain-Inv env rs t j up' in
    rw (run, run') (u, refl, (k, (same' ∙ same, tunnels' ∙ tunnels)))

pub list_cases : (l : List ℕ) → (l ≡ []) ⊎ (0 < length l)
list_cases [] = inl refl
list_cases (x ∷ xs) = inr (omega arith)

pub Moved-Inv : (k : ℕ) (s t : Scheduler) → Inv s → Moved k s t → Inv t
Moved-Inv k s t i m = record { places = m.places; books = Apart-Books s t m.apart i.books }
