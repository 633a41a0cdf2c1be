-- ===== src/Engine/Drain.antt =====
-- What a server does once its listeners are closed.
use Prim.Native.String.{String}
use gbalancer.Prelude.{
  ℕ, zero, suc, ◌+◌, ◌≡◌, refl, sym, ap, subst, ◌∙◌, Bool, true, false, List, [], ◌∷◌, some, arith,
}
use mathlib.Core.Option.{some-injective}
use gbalancer.Prelude.Lists.{get_elem?, set}
use gbalancer.Texts.{Text}
use gbalancer.Config.{ListenAddr}
use gbalancer.Engine.{
  Listener, Server, new_server, Flags, serve, failed, on_accept, close_listener, stop, Step,
  accepts, closes, returns, stops, Reaches, here, later,
}
use gbalancer.Engine.Stop.{directors, Counted, going_counted, serve-Counted, Reaches-Counted}

-- every listener is closed
abbrev pub AllClosed : Server → Type 0
AllClosed s = (k : ℕ) (l : Listener) → get_elem? s.listeners k ≡ some l → l.is_open ≡ false

-- how many goroutines a step ends
abbrev pub ends : {s t : Server} → Step s t → ℕ
ends (accepts k l a there up shut e) = 1
ends (closes k l there closed e) = 0
ends (returns remote i j works own messages was closed ran e) = 1
ends (stops e) = 0

-- the rounds of loops and directors among some steps
abbrev pub rounds : {s t : Server} → Reaches s t → ℕ
rounds here = 0
rounds (later before step) = rounds before + ends step

set-AllClosed :
    (xs : List Listener) (k : ℕ) (m : Listener)
    → ((j : ℕ) (l : Listener) → get_elem? xs j ≡ some l → l.is_open ≡ false)
    → m.is_open ≡ false
    → (j : ℕ) (l : Listener) → get_elem? (set xs k m) j ≡ some l
    → l.is_open ≡ false
set-AllClosed [] k m h shut j l e = cc
set-AllClosed (x ∷ xs) zero m h shut zero l e =
    subst (λ y. y.is_open ≡ false) (some-injective m l e) shut
set-AllClosed (x ∷ xs) zero m h shut (suc j) l e = h (suc j) l e
set-AllClosed (x ∷ xs) (suc k) m h shut zero l e = h zero l e
set-AllClosed (x ∷ xs) (suc k) m h shut (suc j) l e =
    set-AllClosed xs k m (λ i y there. h (suc i) y there) shut j l e

-- one step of a server whose listeners are closed, which ends `n` goroutines
record Drains (s t : Server) (n : ℕ) : Type 0 where
  closed : AllClosed t
  fewer : t.count + n ≡ s.count
  same : t.jobs ≡ s.jobs

failed-Drains :
    (s : Server) (k : ℕ) (l : Listener)
    → Counted s
    → AllClosed s
    → get_elem? s.listeners k ≡ some l
    → l.going ≡ true
    → Drains s (on_accept k l failed s) 1
unfolding on_accept
failed-Drains s k l h shut there up = record {
  closed = set-AllClosed s.listeners k (record l { going = false }) shut (shut k l there);
  fewer = omega (arith, going_counted s.listeners k l there up, h);
  same = refl;
}

Step-Drains : (s t : Server) → Counted s → AllClosed s → (step : Step s t) → Drains s t (ends step)
unfolding close_listener stop
Step-Drains s t h shut (accepts k l a there up fails e) =
    subst (λ x. Drains s x 1) (sym (e ∙ ap (λ b. on_accept k l b s) (fails (shut k l there))))
      (failed-Drains s k l h shut there up)
Step-Drains s t h shut (closes k l there closed e) =
    subst (λ x. Drains s x 0) (sym e)
      (record {
        closed = set-AllClosed s.listeners k (record l { is_open = false }) shut refl;
        fewer = omega arith;
        same = refl;
      })
Step-Drains s t h shut (returns remote i j works own messages was closed ran e) =
    let one : directors s.director ≡ 1 = ap directors was in
    subst (λ x. Drains s x 1) (sym e)
      (record { closed = shut; fewer = omega (arith, one, h); same = refl })
Step-Drains s t h shut (stops e) =
    subst (λ x. Drains s x 0) (sym e) (record { closed = shut; fewer = omega arith; same = refl })

Reaches-Drains :
    (s t : Server) → Counted s → AllClosed s → (r : Reaches s t) → Drains s t (rounds r)
Reaches-Drains s t h shut here = record { closed = shut; fewer = omega arith; same = refl }
Reaches-Drains s t h shut (later before step) =
    let d = Reaches-Drains s _ h shut before in
    let e = Step-Drains _ t (Reaches-Counted s _ h before) d.closed step in
    record { closed = e.closed; fewer = omega (arith, d.fewer, e.fewer); same = e.same ∙ d.same }

-- Once all its listeners are closed, what Serve started accepts no connection, and each round of a loop
-- or of the director that follows ends it: the WaitGroup falls by exactly the number of those rounds, so
-- that there are at most as many as it counts.
pub drains :
    (flags : Flags) (can_listen : ListenAddr → Bool) (addr port : String) (listen : List Text)
    (s t u : Server)
    → serve flags can_listen addr port listen new_server ≡ some s
    → Reaches s t
    → AllClosed t
    → (r : Reaches t u) → (u.count + rounds r ≡ t.count) × (u.jobs ≡ t.jobs)
drains flags can_listen addr port listen s t u started reached shut r =
    let h =
      Reaches-Counted s t (serve-Counted flags can_listen addr port listen s started) reached in
    let d = Reaches-Drains t u h shut r in (d.fewer, d.same)
