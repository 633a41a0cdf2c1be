-- ===== src/Scheduler/Whereabouts.antt =====
-- Where a request of engine/native/scheduler.go is: in the list of those that wait, in a goroutine, in
-- the channel done, or its client was closed.
pub mod Requests
pub mod Backends
pub mod Steps
pub mod Accounted
use gbalancer.Prelude.{
  ℕ, ◌+◌, ◌≤◌, ◌==◌, ◌≡◌, ap, Bool, false, List, [], ◌∷◌, ◌++◌, Option, none, some, Run, ok, panic,
  exhausted, arith, if◌then◌else◌,
}
use gbalancer.Prelude.Lists.{mult}
use gbalancer.Backend.{GoError}
use gbalancer.Pool.{Pool}
use gbalancer.State.{
  Effect, close_client, close_spdy, create_session, fail_session, Scheduler, Exec, done, died,
  stuck, ◌>>◌, on_pool,
}
use gbalancer.Scheduler.{set_pool, is_dial}

-- what holds of the state when the handler returns
abbrev pub OnDone {ℓ} : (Scheduler → Type ℓ) → Exec → Type ℓ
OnDone P (done t) = P t
OnDone P (died t) = Unit
OnDone P stuck = Unit

pub OnDone->> {ℓ κ} :
    (P : Scheduler → Type ℓ) (Q : Scheduler → Type κ) (e : Exec) (k : Scheduler → Exec)
    → OnDone P e
    → ((t : Scheduler) → P t → OnDone Q (k t))
    → OnDone Q (e >> k)
OnDone->> P Q (done t) k h more = more t h
OnDone->> P Q (died t) k h more = tt
OnDone->> P Q stuck k h more = tt

pub OnDone-map {ℓ κ} :
    (P : Scheduler → Type ℓ) (Q : Scheduler → Type κ) (e : Exec)
    → ((t : Scheduler) → P t → Q t)
    → OnDone P e
    → OnDone Q e
OnDone-map P Q (done t) more h = more t h
OnDone-map P Q (died t) more h = tt
OnDone-map P Q stuck more h = tt

pub OnDone-on_pool {ℓ κ} :
    {A : Type κ} (P : Scheduler → Type ℓ) (t : Scheduler) (run : Run A) (k : A → Exec)
    → ((a : A) → OnDone P (k a))
    → OnDone P (on_pool t run k)
OnDone-on_pool P t (ok a) k more = more a
OnDone-on_pool P t panic k more = tt
OnDone-on_pool P t exhausted k more = tt

-- how often the connection of a client was closed by dispatch
abbrev pub closings : ℕ → List Effect → ℕ
closings c [] = 0
closings c (close_client d ∷ es) = (if d == c then 1 else 0) + closings c es
closings c (close_spdy d ∷ es) = closings c es
closings c (create_session b i ∷ es) = closings c es
closings c (fail_session b i ∷ es) = closings c es

pub closings-append :
    (c : ℕ) (es fs : List Effect) → closings c (es ++ fs) ≡ closings c es + closings c fs
closings-append c [] fs = omega arith
closings-append c (close_client d ∷ es) fs = omega (arith, closings-append c es fs)
closings-append c (close_spdy d ∷ es) fs = closings-append c es fs
closings-append c (create_session b i ∷ es) fs = closings-append c es fs
closings-append c (fail_session b i ∷ es) fs = closings-append c es fs

-- the error of a failed dial, for which finish dispatches the request again
abbrev pub retries : Option GoError → Bool
retries none = false
retries (some e) = is_dial e

-- the places of a request with the connection `c` besides the list of those that wait
abbrev pub elsewhere : ℕ → ℕ → Scheduler → ℕ
elsewhere r c t = mult r t.running + mult r t.finished + closings c t.effects

-- A request `r` with the connection `c` is in `w` places at least besides those that wait, which are
-- `p`, and `m` requests were made.
pub record IsAt (r c m w : ℕ) (p : List ℕ) (t : Scheduler) : Type 0 where
  pub conn : (t.requests r).conn ≡ c
  pub next : t.next_request ≡ m
  pub least : w ≤ elsewhere r c t
  pub waits : t.pending ≡ p

-- the same with the waiting ones among its places
pub record IsIn (r c m w : ℕ) (t : Scheduler) : Type 0 where
  pub conn : (t.requests r).conn ≡ c
  pub next : t.next_request ≡ m
  pub least : w ≤ mult r t.pending + elsewhere r c t

pub IsAt-IsIn :
    (r c m w : ℕ) (p : List ℕ) (t : Scheduler) → IsAt r c m w p t → IsIn r c m (mult r p + w) t
IsAt-IsIn r c m w p t h = record {
  conn = h.conn;
  next = h.next;
  least = omega (arith, ap (mult r) h.waits, h.least);
}

module _ (r c m w : ℕ) (p : List ℕ) where
  -- another pool
  pub IsAt-set_pool : (t : Scheduler) (q : Pool) → IsAt r c m w p t → IsAt r c m w p (set_pool t q)
  IsAt-set_pool t q h = record { conn = h.conn; next = h.next; least = h.least; waits = h.waits }
