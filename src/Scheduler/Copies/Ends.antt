-- ===== src/Scheduler/Copies/Ends.antt =====
-- The three goroutines of a connection come to an end, whatever order they run in.
use gbalancer.Prelude.{
  ℕ, Bool-cases, ◌+◌, ◌-◌, ◌⊎◌, inl, inr, ◌≡◌, refl, true, false, List, [], ◌∷◌, Option, none,
  arith, ap, if◌then◌else◌,
}
use gbalancer.Prelude.Lists.{length, length-append}
use gbalancer.Backend.{GoError}
use gbalancer.Scheduler.Copies.{
  Copy, copying, copied, closed, sent, Splice, start, Step, client_copied, client_closed,
  client_sent, backend_copied, backend_closed, backend_sent, received, finished, Reaches, here,
  later,
}
use gbalancer.Scheduler.Copies.Laws.{sends, Inv, Reaches-Inv, sends_le}

-- the steps that a copy has left
abbrev pub rest_of : Copy → ℕ
rest_of copying = 3
rest_of (copied e) = 2
rest_of (closed e) = 1
rest_of (sent e) = 0

-- the steps that are left, but for those of `run`
abbrev pub left : Splice → ℕ
left s =
    rest_of s.to_client + rest_of s.to_backend + (2 - length s.got) + (if s.is_sent then 0 else 1)

abbrev pub steps : {s t : Splice} → Reaches s t → ℕ
steps here = 0
steps (later r step) = steps r + 1

Step-left : (before : Option GoError) (s t : Splice) → Inv before s → Step s t → left t + 1 ≡ left s
Step-left before s t h (client_copied e at to) = rw to (ground (arith, at))
Step-left before s t h (client_closed e at to) = rw to (ground (arith, at))
Step-left before s t h (client_sent e at room to) = rw to (ground (arith, at))
Step-left before s t h (backend_copied e at to) = rw to (ground (arith, at))
Step-left before s t h (backend_closed e at to) = rw to (ground (arith, at))
Step-left before s t h (backend_sent e at room to) = rw to (ground (arith, at))
Step-left before s t h (received e rest at more to) =
    rw to (omega (arith, length-append s.got (e ∷ []), more))
Step-left before s t h (finished open_yet all to) = rw to (ground (arith, open_yet, all))

Reaches-left :
    (before : Option GoError) (t : Splice) (r : Reaches (start before) t) → steps r + left t ≡ 9
Reaches-left before t here = refl
Reaches-left before t (later r step) =
    omega (arith, Reaches-left before _ r, Step-left before _ t (Reaches-Inv before _ r) step)

Copy-cases :
    (p : Copy)
    → (p ≡ copying)
      ⊎ (((e : Option GoError) × (p ≡ copied e))
          ⊎ (((e : Option GoError) × (p ≡ closed e)) ⊎ ((e : Option GoError) × (p ≡ sent e))))
Copy-cases copying = inl refl
Copy-cases (copied e) = inr (inl (e, refl))
Copy-cases (closed e) = inr (inr (inl (e, refl)))
Copy-cases (sent e) = inr (inr (inr (e, refl)))

-- run goes on once both copies are at their end
run_goes_on :
    (t : Splice) (c : List (Option GoError))
    → t.c ≡ c
    → length t.got + length c ≡ 2
    → t.is_sent ≡ false
    → (u : Splice) × Step t u
run_goes_on t [] e two open_yet = (_, finished open_yet (omega arith) refl)
run_goes_on t (x ∷ rest) e two open_yet = (_, received x rest e (omega arith) refl)

goes_on :
    (before : Option GoError) (t : Splice)
    → Inv before t
    → t.is_sent ≡ false
    → (u : Splice) × Step t u
goes_on before t h open_yet =
    let most = sends_le t.to_client in
    let most' = sends_le t.to_backend in
    elim (Copy-cases t.to_client) [
      | inl at ↦ (_, client_copied none at refl)
      | inr (inl (e, at)) ↦ (_, client_closed e at refl)
      | inr (inr (inl (e, at))) ↦
          let unsent : sends t.to_client ≡ 0 = ap sends at in
          (_, client_sent e at (omega (arith, h.count, unsent, most')) refl)
      | inr (inr (inr (e, at))) ↦ elim (Copy-cases t.to_backend) [
        | inl at' ↦ (_, backend_copied none at' refl)
        | inr (inl (f, at')) ↦ (_, backend_closed f at' refl)
        | inr (inr (inl (f, at'))) ↦
            let unsent : sends t.to_backend ≡ 0 = ap sends at' in
            (_, backend_sent f at' (omega (arith, h.count, unsent, most)) refl)
        | inr (inr (inr (f, at'))) ↦
            let one : sends t.to_client ≡ 1 = ap sends at in
            let one' : sends t.to_backend ≡ 1 = ap sends at' in
            run_goes_on t t.c refl (omega (arith, h.count, one, one')) open_yet
      ]
    ]

-- The three goroutines make nine steps in all, in whatever order, and until run has sent the request
-- one of them can go on; that io.Copy returns is taken for granted.
pub splice-ends :
    (before : Option GoError) (t : Splice) (r : Reaches (start before) t)
    → (steps r + left t ≡ 9) × ((t.is_sent ≡ true) ⊎ ((u : Splice) × Step t u))
splice-ends before t r = (
  Reaches-left before t r,
  elim (Bool-cases t.is_sent) [
    | inl ended ↦ inl ended
    | inr open_yet ↦ inr (goes_on before t (Reaches-Inv before t r) open_yet)
  ],
)
