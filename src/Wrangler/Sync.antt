-- ===== src/Wrangler/Sync.antt =====
-- What ValidBackends does to the map of the backends and to the channel.
use Prim.Native.String.{String}
use text.Mathlib.TextEquality.{eq_iff}
use gbalancer.Prelude.{
  ℕ, ◌≡◌, refl, [], ◌∷◌, none, arith, if◌then◌else◌, Option-cases, inl, inr, not, ◌&&◌, ◌||◌,
}
use gbalancer.Prelude.Dict.{Dict, lookup, insert, delete, lookup-insert, lookup-delete, has}
use gbalancer.Wrangler.{Wrangler, drop_failed, add_new, take_answer}

lookup-drop_failed :
    (active known m : Dict ℕ) (a : String)
    → lookup a (drop_failed active known m)
      ≡ (if has (lookup a known) && not (has (lookup a active)) then none else lookup a m)
unfolding drop_failed lookup
lookup-drop_failed active [] m a = refl
lookup-drop_failed active ((b, v) ∷ rest) m a = elim (Option-cases (lookup b active)) [
  | inl gone ↦
      rw (gone, lookup-drop_failed active rest (delete b m) a, lookup-delete b a m)
        (ground (arith, eq_iff b a))
  | inr (u, there) ↦ rw (there, lookup-drop_failed active rest m a) (ground (arith, eq_iff b a))
]

has-add_new :
    (active m : Dict ℕ) (a : String)
    → has (lookup a (add_new active m)) ≡ (has (lookup a m) || has (lookup a active))
unfolding add_new lookup
has-add_new [] m a = ground arith
has-add_new ((b, v) ∷ rest) m a = elim (Option-cases (lookup b m)) [
  | inl new ↦
      rw (new, has-add_new rest (insert b v m) a, lookup-insert b a v m)
        (ground (arith, eq_iff b a))
  | inr (u, old) ↦ rw (old, has-add_new rest m a) (ground (arith, eq_iff b a))
]

-- After ValidBackends with an answer of the driver the map has exactly the keys of the answer.
pub take_answer_keys :
    (w : Wrangler) (active : Dict ℕ) (a : String)
    → has (lookup a (take_answer w (active, none)).backends) ≡ has (lookup a active)
unfolding take_answer
take_answer_keys w active a =
    rw
      (
        has-add_new active (drop_failed active w.backends w.backends) a,
        lookup-drop_failed active w.backends w.backends a,
      )
      (ground arith)
