-- ===== src/Scheduler/Latest.antt =====
-- engine/native/scheduler.go without tunnels: the registry and the wrangler's latest message.
use Prim.Native.String.{String}
use gbalancer.Prelude.{ℕ, ◌≡◌, refl, ap, ◌∙◌, Bool, false, ◌&&◌, ltb, List, [], ◌∷◌, none, arith}
use gbalancer.Prelude.Dict.{Dict, lookup, has}
use gbalancer.Prelude.Lists.{get_elem?}
use gbalancer.Backend.{Backend}
use gbalancer.State.{Scheduler, Request, Session}
use gbalancer.Scheduler.{new_scheduler}
use gbalancer.Scheduler.Reach.{
  Step, job, forwarding, completing, finishing, status, failing, ready, Reaches, here, later,
}
use gbalancer.Scheduler.Trace.{seen, expected, brings, registry_follows}
use gbalancer.Scheduler.Plain.{IsPlain}
use gbalancer.Scheduler.Stranded.{Reaches-IsPlain, new_scheduler-IsPlain}

-- a step takes a message from the wrangler, or none
abbrev pub heard : {s t : Scheduler} → Step s t → List (Dict ℕ) → List (Dict ℕ)
heard (job env conn e) before = before
heard (forwarding create dial r h new e) before = before
heard (completing dialed copied r h noted e) before = before
heard (finishing env r rest head e) before = before
heard (status env active f d room e) before = active ∷ before
heard (failing x e) before = before
heard (ready env x old room e) before = before

-- the messages that the steps took, the latest first
abbrev pub all_heard : {s t : Scheduler} → Reaches s t → List (Dict ℕ)
all_heard here = []
all_heard (later before step) = heard step (all_heard before)

-- before the first message nothing is listed
abbrev pub latest : List (Dict ℕ) → Dict ℕ
latest [] = []
latest (m ∷ before) = m

-- no session brings anything
brings-none : (s : Scheduler) (x : Session) → IsPlain [] s → brings s x ≡ false
brings-none s x h = ap (λ l. has (get_elem? l x.connindex) && has x.spdy) (h.untunnelled x.backend)

seen-heard :
    {s t : Scheduler} (step : Step s t) (before : List (Dict ℕ)) (a : String)
    → IsPlain [] s
    → seen step a (has (lookup a (latest before))) ≡ has (lookup a (latest (heard step before)))
seen-heard (job env conn e) before a h = refl
seen-heard (forwarding create dial r k new e) before a h = refl
seen-heard (completing dialed copied r k noted e) before a h = refl
seen-heard (finishing env r rest head e) before a h = refl
seen-heard {s} (status env active f d room e) before a h =
    let plain : ltb 0 s.tunnels ≡ false = rw h.tunnels refl in ground (arith, plain)
seen-heard (failing x e) before a h = refl
seen-heard {s} (ready env x old room e) before a h = ground (arith, brings-none s x h)

module _ (lw : Bool) (mem : ℕ → Backend) (requests : ℕ → Request)
    (none_yet : (b : ℕ) → (mem b).tunnel ≡ []) where
  expected-heard :
      {t : Scheduler} (steps : Reaches (new_scheduler lw 0 mem requests) t) (a : String)
      → expected steps a ≡ has (lookup a (latest (all_heard steps)))
  unfolding lookup
  expected-heard here a = refl
  expected-heard (later {t = u} before step) a =
      ap (seen step a) (expected-heard before a)
      ∙ seen-heard step (all_heard before) a
          (Reaches-IsPlain [] _ u (new_scheduler-IsPlain lw mem requests none_yet) before)

  -- A new scheduler without tunnels is given objects that hold no requests, are off the heap and have
  -- no tunnel. After any steps the registered addresses are those of the latest message of the
  -- wrangler, whatever happened to the requests and whatever the sessions did.
  pub registry_latest :
      (t : Scheduler)
      → ((b : ℕ) → ((mem b).ongoing ≡ 0) × ((mem b).index ≡ none))
      → (steps : Reaches (new_scheduler lw 0 mem requests) t) → (a : String)
      → has (lookup a t.backends) ≡ has (lookup a (latest (all_heard steps)))
  registry_latest t h steps a =
      registry_follows lw 0 mem requests t h steps a ∙ expected-heard steps a
