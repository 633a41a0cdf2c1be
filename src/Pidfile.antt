-- ===== src/Pidfile.antt =====
-- utils/utils.go: WritePid, over a pid file of which `none` says that it does not exist.
pub mod Laws
use gbalancer.Prelude.{ℕ, zero, suc, Bool, List, [], ◌∷◌, Option, none, some, if◌then◌else◌}
use gbalancer.Texts.{Text}
use gbalancer.Decimal.{ℤ, pos, itoa, atoi}

-- What os does: whether the file can be created and opened, and whether signal 0 reaches a process.
pub record Os : Type 0 where
  pub can_create : Bool
  pub can_open : Bool
  pub alive : ℤ → Bool

-- nil, or an error: a call of os failed, or a process is running
pub data Pid : Type 0 where
  written : Pid
  failed : Pid
  taken : ℤ → Pid

-- `file.Read` into a slice of `n` bytes
abbrev pub read : ℕ → Text → Text
read zero t = []
read (suc n) [] = []
read (suc n) (c ∷ t) = c ∷ read n t

-- `pid, err := strconv.Atoi(..)`, where an error goes with 0
abbrev pub pid_of : Option ℤ → ℤ
pid_of none = pos 0
pid_of (some n) = n

-- os.Create, which empties a file, and the print of the own pid, which is taken to succeed
unfoldable pub create : Os → ℕ → Option Text → Pid × Option Text
create os own file = if os.can_create then (written, some (itoa own)) else (failed, file)

-- WritePid. A read at the end of the file is an error.
unfoldable pub write_pid : Os → ℕ → Option Text → Pid × Option Text
unfolding create
write_pid os own none = create os own none
write_pid os own (some content) =
    if os.can_open
    then elim (read 8 content) [
      | [] ↦ (failed, some content)
      | c ∷ t ↦
          let pid = pid_of (atoi (c ∷ t)) in
          if os.alive pid then (taken pid, some content) else create os own (some content)
    ]
    else (failed, some content)
