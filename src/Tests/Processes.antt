-- ===== src/Tests/Processes.antt =====
-- The theorems on pid files and processes at concrete inputs.
use Prim.Native.String.{String}
use gbalancer.Prelude.{ℕ, ◌≡◌, refl, true, false, List, [], ◌∷◌, Option, none, some, arith}
use gbalancer.Prelude.Lists.{length}
use gbalancer.Texts.{bytes}
use gbalancer.Decimal.{pos, itoa}
use gbalancer.Pidfile.{Os, taken, write_pid, create}
use gbalancer.Pidfile.Laws.{write_pid-excludes}
use gbalancer.Daemon.{System, Files}
use gbalancer.Daemon.Setup.{HasPidfile, CanFork}
use gbalancer.Daemon.Loop.{IsSpaced, run_forever, run_loop_lem, runs_until, first_panic}
use gbalancer.Streamd
use gbalancer.Streamd.{Host, listens, main, leave}
use gbalancer.Streamd.Laws.{main-excludes}

-- a system on which no process lives
abbrev pub quiet : Os
quiet = record { can_create = true; can_open = true; alive = λ n. false }

-- one on which all live
abbrev pub busy : Os
busy = record { can_create = true; can_open = true; alive = λ n. true }

abbrev pub no_files : Files
no_files name = none

write_pid-excludes_example :
    write_pid busy 5 (some (bytes "4711")) ≡ (taken (pos 4711), some (bytes "4711"))
unfolding write_pid create itoa
write_pid-excludes_example =
    write_pid-excludes quiet busy 4711 5 none (some (bytes "4711")) (omega arith) refl refl refl

-- the process with the pid `own`, on a machine with the program at /gb
abbrev pub machine : Os → ℕ → System
machine os own = record {
  os = os;
  own = own;
  has_dir = λ name. true;
  abs = λ name. some name;
  can_setenv = true;
  can_start = true;
  quits = false;
  open_log = λ path. some 0;
  program = "/gb";
}

abbrev pub has_pidfile : (os : Os) (own : ℕ) → HasPidfile (machine os own) "/pid" "/pid"
has_pidfile os own = record { named = refl; has_dir = refl; resolved = refl; proper = refl }

abbrev pub can_fork : (os : Os) (own : ℕ) → CanFork (machine os own) "/gb"
can_fork os own = record { found = refl; can_setenv = refl; can_start = refl; stays = refl }

abbrev two_runs : List (Option String × ℕ)
two_runs = (none, 100) ∷ (some "out of range", 100) ∷ (none, 1) ∷ []

run_loop_lem_example :
    let l = run_forever 9 two_runs in
    IsSpaced 9 l.calls
    × (length l.calls ≡ length (runs_until two_runs))
    × (l.ended ≡ first_panic two_runs)
    × (l.logged ≡ [])
run_loop_lem_example = run_loop_lem 9 two_runs

abbrev agent : Os → ℕ → Host
agent os own = record { os = os; own = own; can_listen = λ address. true; can_remove = true }

main-excludes_example :
    (after : Files) × (same : Files) × (main (agent quiet 4711) "/pid" ":6900" no_files
      ≡ listens after)
    × (after "/pid" ≡ some (itoa 4711))
    × (main (agent busy 5) "/pid" ":6901" after ≡ Streamd.exits same)
    × ((x : String) → same x ≡ after x)
    × (leave (agent quiet 4711) "/pid" after "/pid" ≡ none)
unfolding write_pid create itoa
main-excludes_example =
    main-excludes (agent quiet 4711) (agent busy 5) "/pid" ":6900" ":6901" no_files
      (some (bytes "4711")) refl refl refl refl (omega arith) refl refl
