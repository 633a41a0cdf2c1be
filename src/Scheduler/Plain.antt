-- ===== src/Scheduler/Plain.antt =====
-- engine/native/scheduler.go without tunnels: dispatch, finish, and what they call.
use Prim.Native.String.{String}
use gbalancer.Prelude.{
  ℕ, zero, suc, ◌+◌, ◌==◌, ◌-◌, ◌%◌, ◌^◌, ◌||◌, ◌≡◌, ap, ◌∙◌, Bool-cases, Option-cases, inl, inr,
  List, [], ◌∷◌, ◌++◌, Option, none, Run, ok, panic, exhausted, ltb, leb, update,
}
use mathlib.Core.List.{append_assoc}
use gbalancer.Prelude.Lists.{get_elem?}
use gbalancer.Backend.{
  Backend, precreate, five_seconds, spdy_check_stream_id, forward_loop, forwarder_new_connection,
  Dialed,
}
use gbalancer.Pool.{Pool}
use gbalancer.Heap.{add, take_top, remove}
use gbalancer.Heap.Frame.{OnReturn, Every, add-Every, take_top-Every, remove-Every}
use gbalancer.State.{Scheduler, Env, Exec, on_pool, max_forwarders_per_backend}
use gbalancer.Scheduler.{
  set_pool, enter, leave, start, admit, dispatch, take_off, put_on, is_dial, finish,
}
use gbalancer.Scheduler.Kept.{Always, Always->>}

abbrev pub HasNone : Backend → Type 0
HasNone v = v.tunnel ≡ []

HasNone-stable : (v : Backend) (i : Option ℕ) → HasNone v → HasNone (record v { index = i })
HasNone-stable v i h = h

abbrev EveryNone : Pool → Type 0
EveryNone = Every HasNone HasNone-stable

-- No backend has a tunnel, and those that waited wait still, in front of the ones that came since.
pub record IsPlain (waiting : List ℕ) (t : Scheduler) : Type 0 where
  pub tunnels : t.tunnels ≡ 0
  pub untunnelled : (b : ℕ) → HasNone (t.pool.mem b)
  pub waits : (since : List ℕ) × (t.pending ≡ waiting ++ since)

on_pool-Always {ℓ κ μ} :
    {A : Type κ} (P : Scheduler → Type ℓ) (Q : A → Type μ) (t : Scheduler) (run : Run A)
    (k : A → Exec)
    → OnReturn Q run
    → P t
    → ((a : A) → Q a → Always P (k a))
    → Always P (on_pool t run k)
on_pool-Always P Q t (ok a) k q h more = more a q
on_pool-Always P Q t panic k q h more = h
on_pool-Always P Q t exhausted k q h more = tt

pub update-HasNone :
    (mem : ℕ → Backend) (b : ℕ) (v : Backend)
    → ((c : ℕ) → HasNone (mem c))
    → HasNone v
    → (c : ℕ) → HasNone (update mem b v c)
update-HasNone mem b v h n c = elim (Bool-cases (b == c)) [
  | inl self ↦ rw self n
  | inr other ↦ rw other (h c)
]

spdy_check_stream_id-HasNone :
    (peek : ℕ → ℕ) (now check_time : ℕ) (v : Backend)
    → HasNone v
    → HasNone (spdy_check_stream_id peek now check_time v).0
unfolding spdy_check_stream_id precreate
spdy_check_stream_id-HasNone peek now check_time v h =
    elim (Bool-cases (v.tunnels == 0 || ltb (now - check_time) five_seconds)) [
      | inl kept ↦ rw kept h
      | inr renews ↦ rw renews (ap (λ ts. (precreate peek 0 ts).0) h)
    ]

forward_loop-HasNone :
    (create : ℕ → Option ℕ) (k i cnt : ℕ) (v : Backend) (failed : List (ℕ × ℕ))
    → HasNone v
    → HasNone (forward_loop create k i cnt v failed).backend
unfolding forward_loop
forward_loop-HasNone create zero i cnt v failed h = h
forward_loop-HasNone create (suc k) i cnt v failed h =
    let out : get_elem? v.tunnel ((cnt + i) % 2 ^ 64 % v.tunnels) ≡ none =
      ap (λ l. get_elem? l ((cnt + i) % 2 ^ 64 % v.tunnels)) h in
    rw (out, forward_loop) (forward_loop-HasNone create k (i + 1) cnt v failed h)

pub forwarder_new_connection-HasNone :
    (create : ℕ → Option ℕ) (dial : String → Dialed) (v : Backend)
    → HasNone v
    → HasNone (forwarder_new_connection create dial v).1
unfolding forwarder_new_connection
forwarder_new_connection-HasNone create dial v h = elim (Bool-cases (v.tunnels == 0)) [
  | inl plain ↦ rw plain h
  | inr tunnelled ↦ rw tunnelled (forward_loop-HasNone create v.tunnels 0 v.count v [] h)
]

module _ (waiting : List ℕ) where
  -- the pool is another one without tunnels
  IsPlain-set_pool :
      (t : Scheduler) (p : Pool) → IsPlain waiting t → EveryNone p → IsPlain waiting (set_pool t p)
  IsPlain-set_pool t p h n = record { tunnels = h.tunnels; untunnelled = n; waits = h.waits }

  IsPlain-leave : (t : Scheduler) (b : ℕ) → IsPlain waiting t → IsPlain waiting (leave t b)
  IsPlain-leave t b h = record {
    tunnels = h.tunnels;
    untunnelled = update-HasNone t.pool.mem b _ h.untunnelled (h.untunnelled b);
    waits = h.waits;
  }

  start-IsPlain :
      (env : Env) (t : Scheduler) (b r : ℕ) → IsPlain waiting t → IsPlain waiting (start env t b r)
  unfolding start
  start-IsPlain env t b r h = record {
    tunnels = h.tunnels;
    untunnelled = update-HasNone t.pool.mem b _ h.untunnelled (
        spdy_check_stream_id-HasNone env.peek_next_stream_id env.now t.check_time (t.pool.mem b)
          (h.untunnelled b));
    waits = h.waits;
  }

  admit-IsPlain :
      (env : Env) (t : Scheduler) (b r : ℕ)
      → IsPlain waiting t
      → Always (IsPlain waiting) (admit env t b r)
  unfolding admit
  admit-IsPlain env t b r h =
      elim (Bool-cases (leb max_forwarders_per_backend (t.pool.mem b).ongoing)) [
        | inl full ↦ rw full (
            on_pool-Always (IsPlain waiting) EveryNone t (add t.pool b) _
              (add-Every HasNone HasNone-stable t.pool b h.untunnelled) h
              (λ p n. record { tunnels = h.tunnels; untunnelled = n; waits = h.waits }))
        | inr room ↦
            let i : IsPlain waiting (enter t b) = record {
              tunnels = h.tunnels;
              untunnelled = update-HasNone t.pool.mem b _ h.untunnelled (h.untunnelled b);
              waits = h.waits;
            } in
            rw room (
              on_pool-Always (IsPlain waiting) EveryNone (enter t b) (add (enter t b).pool b) _
                (add-Every HasNone HasNone-stable (enter t b).pool b i.untunnelled) i
                (λ p n. start-IsPlain env (set_pool t p) b r (IsPlain-set_pool t p h n)))
      ]

  pub dispatch-IsPlain :
      (env : Env) (t : Scheduler) (r : ℕ)
      → IsPlain waiting t
      → Always (IsPlain waiting) (dispatch env t r)
  unfolding dispatch
  dispatch-IsPlain env t r h = elim (Bool-cases (t.pool.len == 0)) [
    | inl nobody ↦
        let (since, e) = h.waits in
        rw nobody (record {
          tunnels = h.tunnels;
          untunnelled = h.untunnelled;
          waits = (since ++ r ∷ [], ap (λ l. l ++ r ∷ []) e ∙ append_assoc waiting since (r ∷ []));
        })
    | inr some_up ↦ rw some_up (
        on_pool-Always (IsPlain waiting) (λ (b, p). EveryNone p) t (take_top t.pool) _
          (take_top-Every HasNone HasNone-stable t.pool h.untunnelled) h
          (λ (b, p) n. admit-IsPlain env (set_pool t p) b r (IsPlain-set_pool t p h n)))
  ]

  pub take_off-IsPlain :
      (t : Scheduler) (b : ℕ) → IsPlain waiting t → Always (IsPlain waiting) (take_off t b)
  take_off-IsPlain t b h = elim (Option-cases (t.pool.mem b).index) [
    | inl off ↦ rw (off, take_off) h
    | inr (i, at) ↦
        rw (at, take_off)
          (on_pool-Always (IsPlain waiting) (λ (b, p). EveryNone p) t (remove t.pool i) _
            (remove-Every HasNone HasNone-stable t.pool i h.untunnelled) h
            (λ (b, p) n. IsPlain-set_pool t p h n))
  ]

  pub put_on-IsPlain :
      (t : Scheduler) (b : ℕ) → IsPlain waiting t → Always (IsPlain waiting) (put_on t b)
  put_on-IsPlain t b h =
      on_pool-Always (IsPlain waiting) EveryNone t (add t.pool b) _
        (add-Every HasNone HasNone-stable t.pool b h.untunnelled) h
        (λ p n. IsPlain-set_pool t p h n)

  pub finish-IsPlain :
      (env : Env) (t : Scheduler) (r : ℕ)
      → IsPlain waiting t
      → Always (IsPlain waiting) (finish env t r)
  unfolding finish
  finish-IsPlain env t r h = elim (Option-cases (t.requests r).backend) [
    | inl nobody ↦ rw (nobody, finish) h
    | inr (b, at) ↦ elim (Option-cases (t.requests r).err) [
      | inr (e, failed) ↦
          rw (at, finish, failed)
            (Always->> (IsPlain waiting) (take_off t b) _ (take_off-IsPlain t b h) (λ u k.
              elim (Bool-cases (is_dial e)) [
                | inl dial ↦ rw dial (dispatch-IsPlain env (leave u b) r (IsPlain-leave u b k))
                | inr other ↦ rw other (IsPlain-leave u b k)
              ]))
      | inl fine ↦ elim (Option-cases (t.pool.mem b).index) [
        | inl off ↦ rw (at, finish, fine, off) (IsPlain-leave t b h)
        | inr (i, on) ↦
            rw (at, finish, fine, on)
              (Always->> (IsPlain waiting) (take_off t b) (λ u. put_on (leave u b) b)
                (take_off-IsPlain t b h)
                (λ u k. put_on-IsPlain (leave u b) b (IsPlain-leave u b k)))
      ]
    ]
  ]
