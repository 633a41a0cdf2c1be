-- ===== src/Ipvs/Loop.antt =====
-- The director's event loop over several messages.
use Prim.Native.String.{String}
use gbalancer.Prelude.{ℕ, ◌≡◌, List, [], ◌∷◌, ◌++◌, Option-cases, inl, inr}
use gbalancer.Prelude.Dict.{Dict, lookup, delete, has, Distinct, insert-Distinct, delete-Distinct}
use gbalancer.Ipvs.{
  Ipvs, new_ipvs, add_backend, remove_backend, review, add_all, on_status, event_loop,
}
use gbalancer.Ipvs.Sync.{on_status_keys}

remove_backend-Distinct :
    (i : Ipvs) (addr : String) → Distinct i.backends → Distinct (remove_backend i addr).backends
unfolding remove_backend
remove_backend-Distinct i addr d = elim (Option-cases (lookup addr i.backends)) [
  | inl out ↦ rw (out, remove_backend) d
  | inr (v, inside) ↦ rw (inside, remove_backend) (delete-Distinct addr i.backends d)
]

review-Distinct :
    (known : Dict String) (active : Dict ℕ) (i : Ipvs)
    → Distinct i.backends
    → Distinct (review known active i).0.backends
unfolding review
review-Distinct [] active i d = d
review-Distinct ((k, v) ∷ known) active i d = elim (Option-cases (lookup k active)) [
  | inl gone ↦
      rw (gone, review)
        (review-Distinct known active (remove_backend i k) (remove_backend-Distinct i k d))
  | inr (u, there) ↦ rw (there, review) (review-Distinct known (delete k active) i d)
]

add_all-Distinct :
    (rest : Dict ℕ) (i : Ipvs) → Distinct i.backends → Distinct (add_all rest i).backends
unfolding add_all add_backend
add_all-Distinct [] i d = d
add_all-Distinct ((k, v) ∷ rest) i d =
    add_all-Distinct rest (add_backend i k) (insert-Distinct k k i.backends d)

event_loop-last :
    (messages : List (Dict ℕ)) (last : Dict ℕ) (i : Ipvs) (a : String)
    → Distinct i.backends
    → has (lookup a (event_loop (messages ++ last ∷ []) i).backends) ≡ has (lookup a last)
unfolding event_loop
event_loop-last [] last i a d = on_status_keys i last a d
event_loop-last (m ∷ messages) last i a d = event_loop-last messages last (on_status i m) a (
    unfold on_status in
    (add_all-Distinct (review i.backends m i).1 (review i.backends m i).0
      (review-Distinct i.backends m i d)))

-- A director that starts without backends has, after any messages, exactly the backends of the last
-- one.
pub event_loop_keys :
    (addr port scheduler : String) (messages : List (Dict ℕ)) (last : Dict ℕ) (a : String)
    → has (lookup a (event_loop (messages ++ last ∷ []) (new_ipvs addr port scheduler)).backends)
      ≡ has (lookup a last)
unfolding new_ipvs
event_loop_keys addr port scheduler messages last a =
    event_loop-last messages last (new_ipvs addr port scheduler) a tt
