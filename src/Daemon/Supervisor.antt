-- ===== src/Daemon/Supervisor.antt =====
-- daemon/supervisor.go: the process between the daemon and its worker. Times are in nanoseconds.
use text.Mathlib.Text.{◌==◌ as str_eq}
use gbalancer.Prelude.{
  ℕ, zero, suc, ◌+◌, ◌-◌, ◌*◌, ◌^◌, Bool, true, false, List, [], ◌∷◌, if◌then◌else◌, ltb,
}
use gbalancer.Daemon.{
  Signal, hup, interrupt, quit, term, chld, System, notify, supervises, exits, Process, ended, act,
  ◌>>◌, sink, unsetenv,
}

-- Sink of a Supervisor
unfoldable pub supervisor_sink : System → Process → Process
unfolding sink
supervisor_sink sys p =
    if str_eq p.environ.supervisor_mode ""
    then (sink sys p >> λ q.
        if q.daemon.foreground
        then q
        else if sys.can_setenv
        then ended supervises (
            act (notify (chld ∷ []))
              (record q { environ = record (q.environ) { supervisor_mode = "worker" } }))
        else ended (exits 1) q)
    else if str_eq p.environ.supervisor_mode "worker"
    then record p { environ = unsetenv (λ e. record e { supervisor_mode = "" }) p.environ }
    else ended (exits 1) p

-- how startWorker ends: the worker has ended, the process ends, or it goes on waiting for a signal
pub data Watch : Type 0 where
  worker_ended waits : Watch
  gives_up : ℕ → List Signal → Watch

-- the loop over the signals, with what is sent on to the worker
unfoldable pub watch_signals : List Signal → Watch
watch_signals [] = waits
watch_signals (chld ∷ sigs) = worker_ended
watch_signals (term ∷ sigs) = gives_up 0 (term ∷ [])
watch_signals (hup ∷ sigs) = watch_signals sigs
watch_signals (interrupt ∷ sigs) = watch_signals sigs
watch_signals (quit ∷ sigs) = watch_signals sigs

-- startWorker, given whether the start of the program succeeds
unfoldable pub start_worker : Bool → List Signal → Watch
unfolding watch_signals
start_worker can_start sigs = if can_start then watch_signals sigs else gives_up 1 []

abbrev pub second : ℕ
second = 10 ^ 9

-- The inner loop of supervise and of runLoop at time `now`, with its sleeps left: it sleeps for seconds
-- until more than five have passed since the start.
unfoldable pub pause : ℕ → ℕ → ℕ → ℕ
pause zero start now = now
pause (suc k) start now = elim (ltb (5 * second) (now - start)) [
  | true ↦ now
  | false ↦ pause k start (now + second)
]

-- What happens to one worker: whether it starts, the signals that come, and how long it lives.
pub record Round : Type 0 where
  pub can_start : Bool
  pub signals : List Signal
  pub lives : ℕ

-- supervise from a time on: the times at which the start of a worker was tried, and how it ends
unfoldable pub supervise : ℕ → List Round → List ℕ × Watch
unfolding start_worker pause
supervise now [] = ([], waits)
supervise now (r ∷ rounds) =
    let (later, last) = supervise (pause 6 now (now + r.lives)) rounds in
    elim (start_worker r.can_start r.signals) [
      | worker_ended ↦ (now ∷ later, last)
      | waits ↦ (now ∷ [], waits)
      | gives_up code sent ↦ (now ∷ [], gives_up code sent)
    ]
