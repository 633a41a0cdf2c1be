-- ===== src/Scheduler/Kept.antt =====
-- dispatch, finish, on_failed and run of engine/native/scheduler.go, and the registry.
use gbalancer.Prelude.{
  ℕ, ◌==◌, refl, inl, inr, Bool-cases, Option-cases, Run, ok, panic, exhausted, leb,
}
use gbalancer.Prelude.Lists.{get_elem?}
use gbalancer.Heap.{add, take_top, remove}
use gbalancer.State.{
  Session, Scheduler, Env, Exec, done, died, stuck, ◌>>◌, on_pool, max_forwarders_per_backend,
}
use gbalancer.Scheduler.{
  enter, leave, set_pool, start, admit, dispatch, take_off, put_on, is_dial, finish, on_failed,
}
use gbalancer.Scheduler.Waiting.{Kept}

-- what holds of the state when the handler returns or panics
abbrev pub Always {ℓ} : (Scheduler → Type ℓ) → Exec → Type ℓ
Always P (done t) = P t
Always P (died t) = P t
Always P stuck = Unit

-- the handler keeps the registry
abbrev pub Keeps : Scheduler → Exec → Type 0
Keeps s = Always (Kept s)

pub Always->> {ℓ} :
    (P : Scheduler → Type ℓ) (e : Exec) (k : Scheduler → Exec)
    → Always P e
    → ((t : Scheduler) → P t → Always P (k t))
    → Always P (e >> k)
Always->> P (done t) k h more = more t h
Always->> P (died t) k h more = h
Always->> P stuck k h more = tt

pub Always-on_pool {ℓ κ} :
    {A : Type κ} (P : Scheduler → Type ℓ) (t : Scheduler) (run : Run A) (k : A → Exec)
    → P t
    → ((a : A) → Always P (k a))
    → Always P (on_pool t run k)
Always-on_pool P t (ok a) k h more = more a
Always-on_pool P t panic k h more = h
Always-on_pool P t exhausted k h more = tt

Keeps-admit : (env : Env) (s t : Scheduler) (b r : ℕ) → Kept s t → Keeps s (admit env t b r)
unfolding admit start
Keeps-admit env s t b r h =
    elim (Bool-cases (leb max_forwarders_per_backend (t.pool.mem b).ongoing)) [
      | inl full ↦ rw full (Always-on_pool (Kept s) t (add t.pool b) _ h (λ p. h))
      | inr room ↦
          rw room (Always-on_pool (Kept s) (enter t b) (add (enter t b).pool b) _ h (λ p. h))
    ]

pub Keeps-dispatch : (env : Env) (s t : Scheduler) (r : ℕ) → Kept s t → Keeps s (dispatch env t r)
unfolding dispatch
Keeps-dispatch env s t r h = elim (Bool-cases (t.pool.len == 0)) [
  | inl nobody ↦ rw nobody h
  | inr some_up ↦ rw some_up (
      Always-on_pool (Kept s) t (take_top t.pool) _ h
        (λ (b, p). Keeps-admit env s (set_pool t p) b r h))
]

Keeps-take_off : (s : Scheduler) (b : ℕ) → Keeps s (take_off s b)
Keeps-take_off s b = elim (Option-cases (s.pool.mem b).index) [
  | inl off ↦ rw (off, take_off) (refl, refl)
  | inr (i, at) ↦
      rw (at, take_off)
        (Always-on_pool (Kept s) s (remove s.pool i) _ (refl, refl) (λ (x, p). (refl, refl)))
]

Keeps-put_on : (s t : Scheduler) (b : ℕ) → Kept s t → Keeps s (put_on t b)
Keeps-put_on s t b h = Always-on_pool (Kept s) t (add t.pool b) _ h (λ p. h)

pub Keeps-finish : (env : Env) (s : Scheduler) (r : ℕ) → Keeps s (finish env s r)
unfolding finish
Keeps-finish env s r = elim (Option-cases (s.requests r).backend) [
  | inl nobody ↦ rw (nobody, finish) (refl, refl)
  | inr (b, at) ↦ elim (Option-cases (s.requests r).err) [
    | inr (e, failed) ↦
        rw (at, finish, failed)
          (Always->> (Kept s) (take_off s b) _ (Keeps-take_off s b) (λ t h.
            elim (Bool-cases (is_dial e)) [
              | inl dial ↦ rw dial (Keeps-dispatch env s (leave t b) r h)
              | inr other ↦ rw other h
            ]))
    | inl fine ↦ elim (Option-cases (s.pool.mem b).index) [
      | inl off ↦ rw (at, finish, fine, off) (refl, refl)
      | inr (i, on) ↦
          rw (at, finish, fine, on)
            (Always->> (Kept s) (take_off s b) (λ t. put_on (leave t b) b) (Keeps-take_off s b)
              (λ t h. Keeps-put_on s (leave t b) b h))
    ]
  ]
]

pub Keeps-on_failed : (s : Scheduler) (x : Session) → Keeps s (on_failed s x)
unfolding on_failed
Keeps-on_failed s x = elim (Option-cases (get_elem? (s.pool.mem x.backend).tunnel x.connindex)) [
  | inl out ↦ rw (out, on_failed) (refl, refl)
  | inr (c, there) ↦ elim (Bool-cases c.switching) [
    | inl switching ↦ rw (there, on_failed, switching) (refl, refl)
    | inr free ↦ rw (there, on_failed, free) (refl, refl)
  ]
]
