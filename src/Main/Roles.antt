-- ===== src/Main/Roles.antt =====
-- Which of the processes of a daemon runs the Server.
use Prim.Native.String.{String}
use gbalancer.Prelude.{
  ◌+◌, ◌==◌, if◌then◌else◌, Bool-cases, ℕ, sym, ◌≡◌, refl, ap, ◌∙◌, true, false, arith, Bool, ◌&&◌,
  not, inl, inr, Option, none, some,
}
use gbalancer.Texts.{Text}
use gbalancer.Decimal.{itoa}
use gbalancer.Config.{Configuration, load_config, check_file}
use gbalancer.Pidfile.{written, write_pid}
use gbalancer.Daemon.{Environ, clean, System, new_daemon, proceeds, Process, Files}
use gbalancer.Daemon.Log.{LogFile}
use gbalancer.Daemon.Supervisor.{supervisor_sink}
use gbalancer.Daemon.Setup.{born, configured, HasPidfile}
use gbalancer.Daemon.Launch.{foreground_cycle}
use gbalancer.Engine.{Server, new_server, serve, stop, Reaches, stops}
use gbalancer.Engine.Stop.{
  loops, directors, Counted, serve-Counted, Step-Counted, Reaches-Counted, Reaches-closed,
}
use gbalancer.Main.{Command, Host, serving, handle, serve_main, after_sink, start, main, shut_down}

abbrev pub no_log : LogFile
no_log = record { path = ""; offset = 0 }

-- A command line that loads a configuration under which the engine starts as `s`.
pub record IsReady (cmd : Command) (host : Host) (c : Configuration) (s : Server) : Type 0 where
  pub runs : cmd.print_version ≡ false
  pub stands : check_file host.stat cmd.config_file ≡ true
  pub loads : load_config host.opened ≡ some (c, true)
  pub starts :
      serve cmd.engine host.can_listen (host.string c.addr) (host.string c.port) c.listen new_server
      ≡ some s

-- main up to Start
main-start :
    (cmd : Command) (host : Host) (c : Configuration) (s : Server) (sys : System) (e : Environ)
    (files : Files)
    → IsReady cmd host c s
    → main cmd host sys (born new_daemon e files)
      ≡ start host cmd.engine c sys
          (born (configured cmd.pid_file (not cmd.daemon_mode) no_log) e files)
unfolding main handle new_daemon
main-start cmd host c s sys e files h =
    let stands : (cmd.daemon_mode && not (check_file host.stat cmd.config_file)) ≡ false =
      ground (arith, h.stands) in
    rw (main, h.runs, h.loads, stands) refl

start-serving :
    (cmd : Command) (host : Host) (c : Configuration) (s : Server) (sys : System) (p : Process)
    → IsReady cmd host c s
    → (supervisor_sink sys p).fate ≡ proceeds
    → start host cmd.engine c sys p ≡ serving (supervisor_sink sys p) s
unfolding start after_sink serve_main
start-serving cmd host c s sys p h goes =
    ap (λ f. after_sink host cmd.engine c f (supervisor_sink sys p)) goes
    ∙ rw (serve_main, h.starts) refl

-- a file of one process or of the other, as a count is zero or not
file_while :
    (n m : ℕ) (a b : Process) (path : String) (own : Option Text)
    → n ≡ m
    → a.files path ≡ none
    → b.files path ≡ own
    → (if n == 0 then a else b).files path ≡ (if m == 0 then none else own)
file_while n m a b path own same gone kept = elim (Bool-cases (n == 0)) [
  | inl zero_now ↦ rw (zero_now, ap (λ x. x == 0) (sym same) ∙ zero_now) gone
  | inr some_left ↦ rw (some_left, ap (λ x. x == 0) (sym same) ∙ some_left) kept
]

-- Without -daemon, a configuration that can be served, and a pid file that can be written and removed:
-- the process itself runs the Server with its pid in the pid file. A signal comes after any steps of
-- what Serve started, and `done` is closed; after any steps that follow, the pid file is gone if and
-- only if every loop that accepts and the director have returned, and has the pid until then.
pub serves_alone :
    (cmd : Command) (host : Host) (c : Configuration) (s t : Server) (sys : System) (path : String)
    (files : Files) (content : Option Text) (can_remove : String → Bool) (goes_on : Server → Server)
    → cmd.daemon_mode ≡ false
    → IsReady cmd host c s
    → HasPidfile sys cmd.pid_file path
    → write_pid sys.os sys.own (files path) ≡ (written, content)
    → can_remove path ≡ true
    → Reaches s t
    → Reaches (stop t) (goes_on (stop t))
    → (p : Process) × (main cmd host sys (born new_daemon clean files) ≡ serving p s)
      × (p.files path ≡ some (itoa sys.own))
      × (let (q, u) = shut_down can_remove goes_on p t in
          (u.closed ≡ true)
          × (q.files path ≡ (
              if loops u.listeners + directors u.director == 0 then none else some (itoa sys.own))))
unfolding shut_down
serves_alone cmd host c s t sys path files content can_remove goes_on alone h hp wrote removable
      before after =
    let d = configured cmd.pid_file true no_log in
    let (goes, own, gone) =
      foreground_cycle sys cmd.pid_file path path no_log files hp can_remove content wrote
        removable in
    let u = goes_on (stop t) in
    let counted : Counted u =
      Reaches-Counted (stop t) u
        (Step-Counted t (stop t) (Reaches-Counted s t (serve-Counted _ _ _ _ _ s h.starts) before)
          (stops refl))
        after in
    (
      supervisor_sink sys (born d clean files),
      main-start cmd host c s sys clean files h
          ∙ ap
              (λ x.
                start host cmd.engine c sys
                  (born (configured cmd.pid_file (not x) no_log) clean files))
              alone
          ∙ start-serving cmd host c s sys (born d clean files) h goes,
      own,
      (
        Reaches-closed (stop t) u (unfold stop in refl) after,
        file_while u.count (loops u.listeners + directors u.director) _ _ path (some (itoa sys.own))
            counted gone own,
      ),
    )
