-- ===== src/Cluster/Election.antt =====
-- Several processes that contend for one key, and the rest of the world.
use Prim.Native.String.{String}
use gbalancer.Prelude.{
  ℕ, ◌≤◌, ◌<◌, ◌≡◌, ◌≢◌, ◌⊎◌, inl, inr, none, some, Option-cases, arith, update,
}
use gbalancer.Cluster.{Etcd, lock, refresh}
use gbalancer.Cluster.Laws.{Store}

-- a process before Lock, after it with the index of its last response, or ended by its goroutine
pub data Phase : Type 0 where
  outside dead : Phase
  holding : ℕ → Phase

pub record World (E : Etcd) : Type 0 where
  pub store : E.State
  pub phase : ℕ → Phase

abbrev pub moves : {E : Etcd} → World E → ℕ → E.State → Phase → World E
moves w p u f = record { store = u; phase = update w.phase p f }

module _ (E : Etcd) (D : Store E) (key : String) (ttl : ℕ) (id : ℕ → String) where
  -- One step: a process gets the key, renews it or fails to, or the rest of the world changes the
  -- store. Then a key keeps its entry, loses it, or has one with a higher index.
  pub data Step (w t : World E) : Type 0 where
    contends :
        (p : ℕ) (u : E.State) (i : ℕ)
        → w.phase p ≡ outside
        → lock E key (id p) ttl w.store ≡ some (u, i)
        → t ≡ moves w p u (holding i)
        → Step w t
    renews :
        (p i : ℕ) (u : E.State) (j : ℕ)
        → w.phase p ≡ holding i
        → refresh E key (id p) ttl i w.store ≡ some (u, j)
        → t ≡ moves w p u (holding j)
        → Step w t
    dies :
        (p i : ℕ)
        → w.phase p ≡ holding i
        → refresh E key (id p) ttl i w.store ≡ none
        → t ≡ moves w p w.store dead
        → Step w t
    elsewhere :
        (u : E.State)
        → D.index w.store ≤ D.index u
        → ((v : String) (i : ℕ)
            → D.entry u key ≡ some (v, i)
            → (D.entry w.store key ≡ some (v, i)) ⊎ (D.index w.store < i))
        → t ≡ record w { store = u }
        → Step w t

  pub data Reaches (w : World E) : World E → Type 0 where
    here : Reaches w w
    later : {t u : World E} → Reaches w t → Step t u → Reaches w u

  -- every process that holds the key knows an index of its own
  record Inv (w : World E) : Type 0 where
    known : (p i : ℕ) → w.phase p ≡ holding i → i ≤ D.index w.store
    own : (p q i : ℕ) → w.phase p ≡ holding i → w.phase q ≡ holding i → p ≡ q

  -- a process gets a new index
  moves-Inv :
      (w : World E) (p : ℕ) (u : E.State) (i : ℕ)
      → Inv w
      → D.index w.store < i
      → D.index u ≡ i
      → Inv (moves w p u (holding i))
  moves-Inv w p u i h new top = record {
    known = λ q j e. ground (arith, h.known q j);
    own = λ q r j e f. ground (arith, h.known q j, h.known r j, h.own q r j);
  }

  Step-Inv : (w t : World E) → Inv w → Step w t → Inv t
  unfolding lock refresh
  Step-Inv w t h (contends p u i free got e) =
      let (there, new, top) = D.created w.store u key (id p) ttl i got in
      rw e (moves-Inv w p u i h new top)
  Step-Inv w t h (renews p i u j held got e) =
      let (was, there, new, top) = D.swapped w.store u key (id p) (id p) ttl j i got in
      rw e (moves-Inv w p u j h new top)
  Step-Inv w t h (dies p i held lost e) = rw e (record {
    known = λ q j f. ground (arith, h.known q j);
    own = λ q r j f g. ground (arith, h.own q r j);
  })
  Step-Inv w t h (elsewhere u grows keeps e) =
      rw e (record { known = λ q j f. omega (arith, h.known q j f, grows); own = h.own })

  Reaches-Inv : (w t : World E) → Inv w → Reaches w t → Inv t
  Reaches-Inv w t h here = h
  Reaches-Inv w t h (later before step) = Step-Inv _ t (Reaches-Inv w _ h before) step

  -- nobody holds the key
  abbrev pub start : E.State → World E
  start s = record { store = s; phase = λ p. outside }

  start-Inv : (s : E.State) → Inv (start s)
  start-Inv s = record { known = λ p i e. cc; own = λ p q i e f. cc }

  -- the index belongs to an entry that is gone
  record IsLost (i : ℕ) (w : World E) : Type 0 where
    past : i ≤ D.index w.store
    gone : (v : String) → D.entry w.store key ≢ some (v, i)

  moves-IsLost :
      (w : World E) (p i j : ℕ) (u : E.State) (f : Phase) (v : String)
      → IsLost i w
      → D.entry u key ≡ some (v, j)
      → D.index w.store < j
      → D.index u ≡ j
      → IsLost i (moves w p u f)
  moves-IsLost w p i j u f v h there new top = record {
    past = omega (arith, h.past);
    gone = λ x e. ground (arith, h.past);
  }

  Step-IsLost : (i : ℕ) (w t : World E) → IsLost i w → Step w t → IsLost i t
  unfolding lock refresh
  Step-IsLost i w t h (contends p u j free got e) =
      let (there, new, top) = D.created w.store u key (id p) ttl j got in
      rw e (moves-IsLost w p i j u (holding j) (id p) h there new top)
  Step-IsLost i w t h (renews p k u j held got e) =
      let (was, there, new, top) = D.swapped w.store u key (id p) (id p) ttl j k got in
      rw e (moves-IsLost w p i j u (holding j) (id p) h there new top)
  Step-IsLost i w t h (dies p k held lost e) = rw e (record { past = h.past; gone = h.gone })
  Step-IsLost i w t h (elsewhere u grows keeps e) = rw e (record {
    past = omega (arith, h.past, grows);
    gone = λ v there. elim (keeps v i there) [
      | inl same ↦ h.gone v same
      | inr higher ↦ omega (arith, h.past)
    ];
  })

  Reaches-IsLost : (i : ℕ) (w t : World E) → IsLost i w → Reaches w t → IsLost i t
  Reaches-IsLost i w t h here = h
  Reaches-IsLost i w t h (later before step) =
      Step-IsLost i _ t (Reaches-IsLost i w _ h before) step

  -- In every state that the processes reach from one in which none holds the key, at most one of them
  -- can renew its lock, even if several have the same address.
  pub one_leader :
      (s : E.State) (w : World E) (p q i j : ℕ) (a b : E.State × ℕ)
      → Reaches (start s) w
      → w.phase p ≡ holding i
      → w.phase q ≡ holding j
      → refresh E key (id p) ttl i w.store ≡ some a
      → refresh E key (id q) ttl j w.store ≡ some b
      → p ≡ q
  unfolding refresh
  one_leader s w p q i j (t, m) (u, n) r hp hq ep eq =
      let h = Reaches-Inv (start s) w (start-Inv s) r in
      let x = (D.swapped w.store t key (id p) (id p) ttl m i ep).0 in
      let y = (D.swapped w.store u key (id q) (id q) ttl n j eq).0 in
      let same : i ≡ j = cc in h.own p q i hp (rw same hq)

  -- Once another process has got the key, a former holder fails at its next renewal, however late
  -- that comes and whatever happens until then.
  pub overthrown :
      (s u : E.State) (w t : World E) (p q i j : ℕ)
      → Reaches (start s) w
      → w.phase p ≡ holding i
      → lock E key (id q) ttl w.store ≡ some (u, j)
      → Reaches (moves w q u (holding j)) t
      → t.phase p ≡ holding i
      → refresh E key (id p) ttl i t.store ≡ none
  unfolding lock refresh
  overthrown s u w t p q i j r hp got r' still =
      let h = Reaches-Inv (start s) w (start-Inv s) r in
      let (there, new, top) = D.created w.store u key (id q) ttl j got in
      let old = h.known p i hp in
      let lost : IsLost i (moves w q u (holding j)) = record {
        past = omega arith;
        gone = λ v e. ground arith;
      } in
      let final = Reaches-IsLost i (moves w q u (holding j)) t lost r' in
      elim (Option-cases (refresh E key (id p) ttl i t.store)) [
        | inl fails ↦ fails
        | inr ((x, m), e) ↦
            absurd (final.gone (id p) (D.swapped t.store x key (id p) (id p) ttl m i e).0)
      ]
