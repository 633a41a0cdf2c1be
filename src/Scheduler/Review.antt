-- ===== src/Scheduler/Review.antt =====
-- The first loop of the status case.
use Prim.Native.String.{String}
use text.Mathlib.Text.{◌==◌ as str_eq}
use text.Mathlib.TextEquality.{eq_iff}
use gbalancer.Prelude.{
  ℕ, ◌+◌, ◌≤◌, ◌≡◌, refl, not, ◌&&◌, ◌||◌, inl, inr, [], ◌∷◌, none, some, arith, Option-cases,
  if◌then◌else◌,
}
use gbalancer.Prelude.Dict.{Dict, lookup, delete, has, Distinct, lookup-delete, delete-Distinct}
use gbalancer.Prelude.Lists.{length}
use gbalancer.State.{Scheduler, Exec, Ends}
use gbalancer.Scheduler.{review}
use gbalancer.Scheduler.Moves.{Moved, Moved-trans, Moved-refl, put_on-Moved, remove_backend-Moved}
use gbalancer.Scheduler.Names.{Registered, Registered-delete, length-delete-le}
use gbalancer.Scheduler.Invariant.{Places}

-- what the first loop leaves: the state `t` and the active backends `rest`
pub record Reviewed (s : Scheduler) (known active : Dict ℕ) (t : Scheduler) (rest : Dict ℕ)
    : Type 0 where
  pub moved : Moved (length known) s t
  pub kept :
      (a : String)
      → has (lookup a t.backends)
        ≡ (has (lookup a s.backends) && (not (has (lookup a known)) || has (lookup a active)))
  pub left : (a : String) → lookup a rest ≡ (if has (lookup a known) then none else lookup a active)
  pub distinct : Distinct rest
  pub shorter : length rest ≤ length active

-- one round of the first loop, before the others
Reviewed-step :
    (s t u : Scheduler) (a : String) (b : ℕ) (known active active' rest : Dict ℕ) (k : ℕ)
    → k ≤ 1
    → lookup a known ≡ none
    → length active' ≤ length active
    → Moved k s t
    → ((x : String)
        → has (lookup x t.backends)
          ≡ (has (lookup x s.backends) && (not (str_eq a x) || has (lookup a active))))
    → ((x : String) → lookup x active' ≡ (if str_eq a x then none else lookup x active))
    → Reviewed t known active' u rest
    → Reviewed s ((a, b) ∷ known) active u rest
unfolding lookup
Reviewed-step s t u a b known active active' rest k le out le' m kept left r =
    let both = Moved-trans k (length known) s t u m r.moved in
    record {
      moved = record {
        apart = both.apart;
        places = both.places;
        grows = omega (arith, both.grows);
      };
      kept = λ x. ground (arith, r.kept x, kept x, left x, eq_iff a x, out);
      left = λ x. ground (arith, r.left x, left x, eq_iff a x);
      distinct = r.distinct;
      shorter = omega (arith, r.shorter, le');
    }

pub review-Reviewed :
    (Q : Scheduler → Type 0) (k : Dict ℕ → Scheduler → Exec) (known active : Dict ℕ) (s : Scheduler)
    → Places s.pool s.backends s.next_backend
    → Registered s.backends known
    → Distinct active
    → s.pool.len + length known ≤ s.pool.cap
    → ((t : Scheduler) (rest : Dict ℕ) → Reviewed s known active t rest → Ends Q (k rest t))
    → Ends Q (review known active s k)
unfolding review
review-Reviewed Q k [] active s h r d room next = next s active (record {
  moved = Moved-refl s h;
  kept = λ a. unfold lookup in ground arith;
  left = λ a. unfold lookup in refl;
  distinct = d;
  shorter = omega arith;
})
review-Reviewed Q k ((a, b) ∷ known) active s h r d room next =
    elim (Option-cases (lookup a active)) [
      | inl down ↦
          let (t, run, (m, names)) = remove_backend-Moved s h a b r.0 in
          rw (down, review, run)
            (review-Reviewed Q k known active t m.places
              (rw names (Registered-delete s.backends a known r.1 r.2)) d
              (omega (arith, m.grows, m.apart.cap))
              (λ u rest v. next u rest (
                Reviewed-step s t u a b known active active rest 0 (omega arith) r.1 (omega arith) m
                  (λ x. ground (arith, names, lookup-delete a x s.backends, down))
                  (λ x. ground (arith, down, eq_iff a x)) v)))
      | inr (v, up) ↦ elim (Option-cases (s.pool.mem b).index) [
        | inr (i, placed) ↦
            rw (up, review, placed)
              (review-Reviewed Q k known (delete a active) s h r.2 (delete-Distinct a active d)
                (omega arith)
                (λ u rest w. next u rest (
                  Reviewed-step s s u a b known active (delete a active) rest 0 (omega arith) r.1
                    (length-delete-le a active) (Moved-refl s h) (λ x. ground (arith, up))
                    (λ x. lookup-delete a x active) w)))
        | inl off ↦
            let listed : lookup (s.pool.mem b).address s.backends ≡ some b =
              rw (h.named a b r.0) r.0 in
            let (t, run, (m, names)) = put_on-Moved s h b listed off (omega arith) in
            rw (up, review, off, run)
              (review-Reviewed Q k known (delete a active) t m.places (rw names r.2)
                (delete-Distinct a active d) (omega (arith, m.grows, m.apart.cap))
                (λ u rest w. next u rest (
                  Reviewed-step s t u a b known active (delete a active) rest 1 (omega arith) r.1
                    (length-delete-le a active) m (λ x. ground (arith, names, up))
                    (λ x. lookup-delete a x active) w)))
      ]
    ]
