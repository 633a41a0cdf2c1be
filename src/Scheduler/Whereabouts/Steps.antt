-- ===== src/Scheduler/Whereabouts/Steps.antt =====
-- The other steps of engine/native/scheduler.go, and the requests.
use Prim.Native.String.{String}
use mathlib.Core.Option.{some-injective}
use gbalancer.Prelude.{
  ℕ, ◌+◌, ◌≤◌, ◌<◌, ◌==◌, ◌≡◌, refl, sym, ap, subst, ◌∙◌, Bool, true, Bool-cases, Option-cases, inl,
  inr, List, [], ◌∷◌, ◌++◌, none, some, arith, Option, if◌then◌else◌,
}
use gbalancer.Prelude.Lists.{mult, get_elem?, set}
use gbalancer.Backend.{Backend, ConnTunnel, Dialed, switch_spdy_conn, forwarder_new_connection}
use gbalancer.State.{Scheduler, Session, create_session, Env, Exec, Ends}
use gbalancer.Scheduler.{set_backend, finish, on_failed, on_ready, closing}
use gbalancer.Scheduler.Invariant.{Inv, mult-append}
use gbalancer.Scheduler.Ready.{on_ready-Inv, replace-Inv, with_tunnel, with_tunnel-SameEntry}
use gbalancer.Scheduler.Finish.{finish-Inv}
use gbalancer.Scheduler.Running.{drop_one, given_up, forward, complete}
use gbalancer.Scheduler.Running.Laws.{forward-Inv}
use gbalancer.Scheduler.Reach.{after}
use gbalancer.Scheduler.Stranded.{Always-after}
use gbalancer.Scheduler.Whereabouts.{
  OnDone, closings, closings-append, elsewhere, retries, IsAt, IsIn, IsAt-IsIn,
}
use gbalancer.Scheduler.Whereabouts.Requests.{finish-IsIn}
use gbalancer.Scheduler.Whereabouts.Backends.{IsAt-effects, enlist-IsIn}

-- a handler that returns
pub OnDone-at :
    (P : Scheduler → Type 0) {Q : Scheduler → Type 0} (e : Exec) (t : Scheduler)
    → Ends Q e
    → OnDone P e
    → after e ≡ some t
    → P t
OnDone-at P e t (u, ended, q) h at =
    let same : some u ≡ some t = sym (ap after ended) ∙ at in
    subst P (some-injective _ _ same) (subst (OnDone P) ended h)

-- in how many places a request is
abbrev pub places : ℕ → Scheduler → ℕ
places r t =
    mult r t.pending + mult r t.running + mult r t.finished + closings (t.requests r).conn t.effects

-- the request is in as many places as it was, but for `lost`
abbrev pub Stays : ℕ → ℕ → Scheduler → Scheduler → Type 0
Stays r lost s t = (t.next_request ≡ s.next_request) × (places r s ≤ places r t + lost)

module _ (r : ℕ) (s : Scheduler) where
  abbrev pub connection : ℕ
  connection = (s.requests r).conn

  pub IsAt-self : IsAt r connection s.next_request (elsewhere r connection s) s.pending s
  IsAt-self = record { conn = refl; next = refl; least = omega arith; waits = refl }

  IsIn-Stays :
      (lost w : ℕ) (t : Scheduler)
      → IsIn r connection s.next_request w t
      → places r s ≤ w + lost
      → Stays r lost s t
  IsIn-Stays lost w t h bound =
      (h.next, omega (arith, h.least, bound, ap (λ c. closings c t.effects) h.conn))

  pub IsAt-Stays :
      (t : Scheduler)
      → IsAt r connection s.next_request (elsewhere r connection s) s.pending t
      → Stays r 0 s t
  IsAt-Stays t h =
      IsIn-Stays 0 _ t (IsAt-IsIn r connection s.next_request _ s.pending t h) (omega arith)

mult-drop_one : (r x : ℕ) (xs : List ℕ) → mult r xs ≤ mult r (drop_one x xs) + mult r (x ∷ [])
unfolding drop_one
mult-drop_one r x [] = omega arith
mult-drop_one r x (y ∷ ys) = ground (arith, mult-drop_one r x ys)

module _ (r : ℕ) (s t : Scheduler) where
  pub forward-Stays :
      (create : ℕ → Option ℕ) (dial : String → Dialed) (x : ℕ)
      → Inv s
      → 0 < mult x s.running
      → after (forward create dial s x) ≡ some t
      → Stays r 0 s t
  unfolding forward
  forward-Stays create dial x i running at = IsAt-Stays r s t (
      OnDone-at (IsAt r (connection r s) s.next_request _ s.pending) (forward create dial s x) t
        (forward-Inv create dial s x i running)
        (elim (Option-cases (s.requests x).backend) [
          | inl nobody ↦ rw (nobody, forward) tt
          | inr (b, assigned) ↦
              let es = given_up b (forwarder_new_connection create dial (s.pool.mem b)).2 in
              rw (assigned, forward)
                (record {
                  conn = refl;
                  next = refl;
                  least = omega (arith, closings-append (connection r s) s.effects es);
                  waits = refl;
                })
        ])
        at)

  pub complete-Stays :
      (dialed : Dialed) (copied : Bool) (x : ℕ) → t ≡ complete dialed copied s x → Stays r 0 s t
  unfolding complete
  complete-Stays dialed copied x e =
      IsIn-Stays r s 0 (places r s) t
        (rw e (record {
          conn = elim (Bool-cases (x == r)) [
            | inl self ↦ rw self (ground (arith, self))
            | inr other ↦ rw other refl
          ];
          next = refl;
          least = omega (arith, mult-drop_one r x s.running, mult-append r s.finished (x ∷ []));
        }))
        (omega arith)

  pub finish-Stays :
      (env : Env) (x : ℕ) (rest : List ℕ)
      → Inv s
      → s.finished ≡ x ∷ rest
      → after (finish env (record s { finished = rest }) x) ≡ some t
      → Stays r (mult r (if retries (s.requests x).err then [] else x ∷ [])) s t
  finish-Stays env x rest i head at =
      IsIn-Stays r s _ _ t
        (OnDone-at _ (finish env (record s { finished = rest }) x) t
          (finish-Inv env s x rest i head)
          (finish-IsIn r (connection r s) s.next_request
            (elsewhere r (connection r s) (record s { finished = rest })) s.pending env
            (record s { finished = rest }) x
            (record { conn = refl; next = refl; least = omega arith; waits = refl }))
          at)
        (ground (arith, ap (mult r) head))

  pub on_failed-Stays : (x : Session) → after (on_failed s x) ≡ some t → Stays r 0 s t
  unfolding on_failed
  on_failed-Stays x at = IsAt-Stays r s t (
      Always-after (IsAt r (connection r s) s.next_request _ s.pending) (on_failed s x) t
        (elim (Option-cases (get_elem? (s.pool.mem x.backend).tunnel x.connindex)) [
          | inl out ↦ rw (out, on_failed) (IsAt-self r s)
          | inr (c, there) ↦ elim (Bool-cases c.switching) [
            | inl switching ↦ rw (there, on_failed, switching) (IsAt-self r s)
            | inr free ↦
                let v : Backend = record (s.pool.mem x.backend) {
                  tunnel =
                      set (s.pool.mem x.backend).tunnel x.connindex (record c { switching = true });
                } in
                rw (there, on_failed, free)
                  (IsAt-effects r (connection r s) s.next_request _ s.pending s x.backend v
                    (create_session x.backend x.connindex ∷ []) (IsAt-self r s))
          ]
        ])
        at)

  panics :
      (env : Env) (x : Session)
      → (switch_spdy_conn (s.pool.mem x.backend) x.connindex x.spdy).1 ≡ none
      → after (on_ready env s x) ≡ some t
      → Stays r 0 s t
  unfolding on_ready
  panics env x lost at = IsAt-Stays r s t (
      Always-after (IsAt r (connection r s) s.next_request _ s.pending) (on_ready env s x) t
        (rw (on_ready, lost)
          (record {
            conn = refl;
            next = refl;
            least = omega (
              arith,
              closings-append (connection r s) s.effects
                  (closing (switch_spdy_conn (s.pool.mem x.backend) x.connindex x.spdy).0),
            );
            waits = refl;
          }))
        at)

  switches :
      (env : Env) (x : Session)
      → Inv s
      → (to from : ConnTunnel) → x.spdy ≡ some to
      → get_elem? (s.pool.mem x.backend).tunnel x.connindex ≡ some from
      → x.backend < s.next_backend
      → s.pool.len < s.pool.cap
      → after (on_ready env s x) ≡ some t
      → Stays r 0 s t
  unfolding on_ready switch_spdy_conn
  switches env x i to from made there old room at =
      let v = with_tunnel (s.pool.mem x.backend) x.connindex to in
      let es = closing (switch_spdy_conn (s.pool.mem x.backend) x.connindex x.spdy).0 in
      let u = set_backend (record s { effects = s.effects ++ es }) x.backend v in
      let w = elsewhere r (connection r s) s in
      let h : IsAt r (connection r s) s.next_request w s.pending u =
        IsAt-effects r (connection r s) s.next_request w s.pending s x.backend v es
          (IsAt-self r s) in
      let same = with_tunnel-SameEntry (s.pool.mem x.backend) x.connindex to in
      IsIn-Stays r s 0 (mult r s.pending + w) t
        (OnDone-at (IsIn r (connection r s) s.next_request (mult r s.pending + w))
          (on_ready env s x) t (on_ready-Inv env s i x to from made there old room)
          (rw (on_ready, switch_spdy_conn, there, made)
            (enlist-IsIn r (connection r s) s.next_request w s.pending env u x.backend
              (replace-Inv s x.backend v (s.effects ++ es) i same) old room h))
          at)
        (omega arith)

  pub on_ready-Stays :
      (env : Env) (x : Session)
      → Inv s
      → x.backend < s.next_backend
      → s.pool.len < s.pool.cap
      → after (on_ready env s x) ≡ some t
      → Stays r 0 s t
  unfolding on_ready switch_spdy_conn
  on_ready-Stays env x i old room at =
      elim (Option-cases (get_elem? (s.pool.mem x.backend).tunnel x.connindex)) [
        | inl out ↦ panics env x (rw (switch_spdy_conn, out) refl) at
        | inr (from, there) ↦ elim (Option-cases x.spdy) [
          | inl nobody ↦ panics env x (rw (switch_spdy_conn, there, nobody) refl) at
          | inr (to, made) ↦ switches env x i to from made there old room at
        ]
      ]
