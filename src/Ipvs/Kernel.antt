-- ===== src/Ipvs/Kernel.antt =====
-- The kernel's table of a virtual server, as the director's commands leave it.
use Prim.Native.String.{String}
use text.Mathlib.Text.{◌==◌ as str_eq}
use gbalancer.Prelude.{
  ℕ, ◌≡◌, refl, ap, ◌∙◌, Bool, true, false, not, ◌&&◌, ◌||◌, List, [], ◌∷◌, ◌++◌, arith,
  Option-cases, inl, inr,
}
use gbalancer.Prelude.Dict.{Dict, lookup, delete, has, lookup-insert, lookup-delete}
use gbalancer.Ipvs.{
  Ipvs, new_ipvs, service, add_backend, remove_backend, review, add_all, on_status, event_loop,
}
use gbalancer.Ipvs.Loop.{event_loop_keys}

-- What ipvsadm does to the kernel. `serves k t a` says that the virtual server `t` of the kernel `k`
-- has the real server `a`. Adding one that is there and deleting one that is not change nothing.
pub record Kernel : Type 1 where
  pub State : Type 0
  pub run : List String → State → State
  pub exists : State → String → Bool
  pub serves : State → String → String → Bool
  pub add_exists :
      (k : State) (t a : String)
      → exists k t ≡ true
      → exists (run ("ipvsadm" ∷ "-a" ∷ "-t" ∷ t ∷ "-r" ∷ a ∷ "-m" ∷ []) k) t ≡ true
  pub add_serves :
      (k : State) (t a x : String)
      → exists k t ≡ true
      → serves (run ("ipvsadm" ∷ "-a" ∷ "-t" ∷ t ∷ "-r" ∷ a ∷ "-m" ∷ []) k) t x
        ≡ (str_eq a x || serves k t x)
  pub delete_exists :
      (k : State) (t a : String)
      → exists k t ≡ true
      → exists (run ("ipvsadm" ∷ "-d" ∷ "-t" ∷ t ∷ "-r" ∷ a ∷ []) k) t ≡ true
  pub delete_serves :
      (k : State) (t a x : String)
      → exists k t ≡ true
      → serves (run ("ipvsadm" ∷ "-d" ∷ "-t" ∷ t ∷ "-r" ∷ a ∷ []) k) t x
        ≡ (not (str_eq a x) && serves k t x)

module _ (K : Kernel) where
  -- the kernel after some commands, oldest first
  abbrev pub run_all : List (List String) → K.State → K.State
  run_all [] k = k
  run_all (words ∷ later) k = run_all later (K.run words k)

  run_all-append :
      (xs ys : List (List String)) (k : K.State) → run_all (xs ++ ys) k ≡ run_all ys (run_all xs k)
  run_all-append [] ys k = refl
  run_all-append (x ∷ xs) ys k = run_all-append xs ys (K.run x k)

  module _ (t : String) (start : K.State) where
    -- the kernel that ran the director's commands has the virtual server with the director's backends
    record Agrees (i : Ipvs) : Type 0 where
      same : service i ≡ t
      up : K.exists (run_all i.commands start) t ≡ true
      table : (x : String) → K.serves (run_all i.commands start) t x ≡ has (lookup x i.backends)

    add_backend-Agrees : (i : Ipvs) (a : String) → Agrees i → Agrees (add_backend i a)
    unfolding add_backend
    add_backend-Agrees i a h =
        let k = run_all i.commands start in
        let words = "ipvsadm" ∷ "-a" ∷ "-t" ∷ service i ∷ "-r" ∷ a ∷ "-m" ∷ [] in
        let after = run_all-append i.commands (words ∷ []) start in
        let here = ap (λ u. K.run ("ipvsadm" ∷ "-a" ∷ "-t" ∷ u ∷ "-r" ∷ a ∷ "-m" ∷ []) k) h.same in
        record {
          same = h.same;
          up = ap (λ s. K.exists s t) (after ∙ here) ∙ K.add_exists k t a h.up;
          table = λ x.
              ap (λ s. K.serves s t x) (after ∙ here)
              ∙ K.add_serves k t a x h.up
              ∙ ground (arith, h.table x, lookup-insert a x a i.backends);
        }

    remove_backend-Agrees : (i : Ipvs) (a : String) → Agrees i → Agrees (remove_backend i a)
    unfolding remove_backend
    remove_backend-Agrees i a h = elim (Option-cases (lookup a i.backends)) [
      | inl out ↦ rw (out, remove_backend) h
      | inr (v, inside) ↦
          let k = run_all i.commands start in
          let words = "ipvsadm" ∷ "-d" ∷ "-t" ∷ service i ∷ "-r" ∷ a ∷ [] in
          let after = run_all-append i.commands (words ∷ []) start in
          let here = ap (λ u. K.run ("ipvsadm" ∷ "-d" ∷ "-t" ∷ u ∷ "-r" ∷ a ∷ []) k) h.same in
          rw (inside, remove_backend)
            (record {
              same = h.same;
              up = ap (λ s. K.exists s t) (after ∙ here) ∙ K.delete_exists k t a h.up;
              table = λ x.
                  ap (λ s. K.serves s t x) (after ∙ here)
                  ∙ K.delete_serves k t a x h.up
                  ∙ ground (arith, h.table x, lookup-delete a x i.backends);
            })
    ]

    review-Agrees :
        (known : Dict String) (active : Dict ℕ) (i : Ipvs)
        → Agrees i
        → Agrees (review known active i).0
    unfolding review
    review-Agrees [] active i h = h
    review-Agrees ((a, v) ∷ known) active i h = elim (Option-cases (lookup a active)) [
      | inl gone ↦
          rw (gone, review)
            (review-Agrees known active (remove_backend i a) (remove_backend-Agrees i a h))
      | inr (u, there) ↦ rw (there, review) (review-Agrees known (delete a active) i h)
    ]

    add_all-Agrees : (rest : Dict ℕ) (i : Ipvs) → Agrees i → Agrees (add_all rest i)
    unfolding add_all
    add_all-Agrees [] i h = h
    add_all-Agrees ((a, v) ∷ rest) i h =
        add_all-Agrees rest (add_backend i a) (add_backend-Agrees i a h)

    event_loop-Agrees :
        (messages : List (Dict ℕ)) (i : Ipvs) → Agrees i → Agrees (event_loop messages i)
    unfolding event_loop on_status
    event_loop-Agrees [] i h = h
    event_loop-Agrees (m ∷ later) i h = event_loop-Agrees later (on_status i m) (
        add_all-Agrees (review i.backends m i).1 (review i.backends m i).0
          (review-Agrees i.backends m i h))

  -- A kernel whose virtual server has no real servers has, once it has run the commands that a new
  -- director of that virtual server issues over any messages, the real servers of the last message and
  -- no others.
  pub event_loop-kernel :
      (addr port scheduler : String) (messages : List (Dict ℕ)) (last : Dict ℕ) (k : K.State)
      (a : String)
      → let i = new_ipvs addr port scheduler in
        K.exists k (service i) ≡ true
        → ((x : String) → K.serves k (service i) x ≡ false)
        → K.serves (run_all (event_loop (messages ++ last ∷ []) i).commands k) (service i) a
          ≡ has (lookup a last)
  unfolding new_ipvs lookup
  event_loop-kernel addr port scheduler messages last k a up none_yet =
      let i = new_ipvs addr port scheduler in
      let h : Agrees (service i) k i = record { same = refl; up = up; table = none_yet } in
      (event_loop-Agrees (service i) k (messages ++ last ∷ []) i h).table a
      ∙ event_loop_keys addr port scheduler messages last a
