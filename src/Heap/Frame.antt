-- ===== src/Heap/Frame.antt =====
-- The objects of the pool of engine/native/pool.go under the calls of container/heap.
use gbalancer.Prelude.{
  ℕ, zero, suc, ◌+◌, ◌-◌, ◌*◌, Bool-cases, ◌&&◌, inl, inr, Option, none, some, Run, ok, panic,
  exhausted, ◌>>=◌, ltb, ◌==◌,
}
use gbalancer.Backend.{Backend}
use gbalancer.Pool.{Pool, set_index, less, swap, push, pop}
use gbalancer.Heap.{parent, up_loop, up, smaller_child, down_loop, down, add, take_top, remove}

-- what holds of the value, if the call returns one
abbrev pub OnReturn {ℓ κ} : {A : Type ℓ} → (A → Type κ) → Run A → Type κ
OnReturn Q (ok a) = Q a
OnReturn Q panic = Unit
OnReturn Q exhausted = Unit

pub OnReturn->>= {ℓ κ μ ν} :
    {A : Type ℓ} {B : Type κ} (Q : A → Type μ) (R : B → Type ν) (m : Run A) (f : A → Run B)
    → OnReturn Q m
    → ((a : A) → Q a → OnReturn R (f a))
    → OnReturn R (m >>= f)
OnReturn->>= Q R (ok a) f h more = more a h
OnReturn->>= Q R panic f h more = tt
OnReturn->>= Q R exhausted f h more = tt

-- a property of a backend that its index has no part in
module _ {ℓ} (P : Backend → Type ℓ)
    (stable : (v : Backend) (i : Option ℕ) → P v → P (record v { index = i })) where
  abbrev pub Every : Pool → Type ℓ
  Every p = (b : ℕ) → P (p.mem b)

  set_index-Every :
      (mem : ℕ → Backend) (b : ℕ) (i : Option ℕ)
      → ((c : ℕ) → P (mem c))
      → (c : ℕ) → P (set_index mem b i c)
  set_index-Every mem b i h c = elim (Bool-cases (b == c)) [
    | inl self ↦ rw self (stable (mem b) i (h b))
    | inr other ↦ rw other (h c)
  ]

  swap-Every : (p : Pool) (i j : ℕ) → Every p → OnReturn Every (swap p i j)
  unfolding swap
  swap-Every p i j h = elim (Bool-cases (ltb i p.len && ltb j p.len)) [
    | inl fits ↦ rw fits (set_index-Every _ _ (some j) (set_index-Every p.mem _ (some i) h))
    | inr out ↦ rw out tt
  ]

  push-Every : (p : Pool) (b : ℕ) → Every p → OnReturn Every (push p b)
  unfolding push
  push-Every p b h = elim (Bool-cases (ltb p.len p.cap)) [
    | inl room ↦ rw room (set_index-Every p.mem b (some p.len) h)
    | inr full ↦ rw full tt
  ]

  pop-Every : (p : Pool) → Every p → OnReturn (λ (b, q). Every q) (pop p)
  unfolding pop
  pop-Every p h = elim (Bool-cases (ltb 0 p.len)) [
    | inl filled ↦ rw filled (set_index-Every p.mem (p.slots (p.len - 1)) none h)
    | inr empty ↦ rw empty tt
  ]

  -- a call that touches nothing, and then a way on for each of its values
  read-Every {κ} :
      {A : Type κ} (m : Run A) (f : A → Run Pool)
      → ((a : A) → OnReturn Every (f a))
      → OnReturn Every (m >>= f)
  read-Every (ok a) f h = h a
  read-Every panic f h = tt
  read-Every exhausted f h = tt

  up_loop-Every : (k : ℕ) (p : Pool) (j : ℕ) → Every p → OnReturn Every (up_loop k p j)
  unfolding up_loop
  up_loop-Every zero p j h = tt
  up_loop-Every (suc k) p j h = elim (Bool-cases (parent j == j)) [
    | inl top ↦ rw top h
    | inr inside ↦ rw inside (
        read-Every (less p j (parent j)) _ (λ below. elim (Bool-cases below) [
          | inl rises ↦ rw rises (
              OnReturn->>= Every Every (swap p (parent j) j) (λ q. up_loop k q (parent j))
                (swap-Every p (parent j) j h) (λ q h'. up_loop-Every k q (parent j) h'))
          | inr rests ↦ rw rests h
        ]))
  ]

  down_loop-Every : (k : ℕ) (p : Pool) (i n : ℕ) → Every p → OnReturn Every (down_loop k p i n)
  unfolding down_loop
  down_loop-Every zero p i n h = tt
  down_loop-Every (suc k) p i n h = elim (Bool-cases (ltb (2 * i + 1) n)) [
    | inr leaf ↦ rw leaf h
    | inl inner ↦ rw inner (
        read-Every (smaller_child p i n) _ (λ j. read-Every (less p j i) _ (λ below.
          elim (Bool-cases below) [
            | inl sinks ↦ rw sinks (
                OnReturn->>= Every Every (swap p i j) (λ q. down_loop k q j n) (swap-Every p i j h)
                  (λ q h'. down_loop-Every k q j n h'))
            | inr rests ↦ rw rests h
          ])))
  ]

  pub add-Every : (p : Pool) (b : ℕ) → Every p → OnReturn Every (add p b)
  unfolding add up
  add-Every p b h =
      OnReturn->>= Every Every (push p b) (λ q. up q (q.len - 1)) (push-Every p b h)
        (λ q h'. up_loop-Every (q.len - 1 + 1) q (q.len - 1) h')

  pub take_top-Every : (p : Pool) → Every p → OnReturn (λ (b, q). Every q) (take_top p)
  unfolding take_top down
  take_top-Every p h = elim (Bool-cases (p.len == 0)) [
    | inl empty ↦ rw empty tt
    | inr filled ↦ rw filled (
        OnReturn->>= Every (λ (b, q). Every q) (swap p 0 (p.len - 1)) _
          (swap-Every p 0 (p.len - 1) h)
          (λ q h'.
            OnReturn->>= Every (λ (b, r). Every r) (down q 0 (p.len - 1)) pop
              (down_loop-Every (p.len - 1 + 1) q 0 (p.len - 1) h') pop-Every))
  ]

  sifted-Every :
      (p : Pool) (i n : ℕ)
      → Every p
      → OnReturn Every (swap p i n >>= λ q. down q i n >>= λ r. up r i)
  unfolding down up
  sifted-Every p i n h = OnReturn->>= Every Every (swap p i n) _ (swap-Every p i n h) (λ q h'.
      OnReturn->>= Every Every (down q i n) (λ r. up r i) (down_loop-Every (n + 1) q i n h')
        (λ r h''. up_loop-Every (i + 1) r i h''))

  pub remove-Every : (p : Pool) (i : ℕ) → Every p → OnReturn (λ (b, q). Every q) (remove p i)
  unfolding remove
  remove-Every p i h = elim (Bool-cases (p.len == 0)) [
    | inl empty ↦ rw empty tt
    | inr filled ↦ rw filled (
        OnReturn->>= Every (λ (b, q). Every q) _ pop
          (elim (Bool-cases (p.len - 1 == i)) [
            | inl last ↦ rw last h
            | inr inner ↦ rw inner (sifted-Every p i (p.len - 1) h)
          ])
          pop-Every)
  ]
