-- ===== src/Shell.antt =====
-- utils/utils.go: RunCommand and EnsureCommands, and the sandboxes of utils/sandbox.go that use them.
pub mod Laws
use Prim.Native.String.{String, ◌++◌ as ◌<>◌}
use gbalancer.Prelude.{Bool, true, false, List, [], ◌∷◌, ◌++◌}
use gbalancer.Texts.{fields}

-- What comes of some commands, with the words of each that ran, oldest first: nil, an error of the
-- last one, or a panic, since the words of a blank line have no first one.
pub data Ran : Type 0 where
  succeeded failed panicked : List (List String) → Ran

-- RunCommand, given which commands work
unfoldable pub run_command : (List String → Bool) → String → Ran
run_command works line = elim (fields line) [
  | [] ↦ panicked []
  | w ∷ ws ↦ elim (works (w ∷ ws)) [
    | true ↦ succeeded ((w ∷ ws) ∷ [])
    | false ↦ failed ((w ∷ ws) ∷ [])
  ]
]

-- what is before and what comes after
unfoldable pub put_before : List (List String) → Ran → Ran
put_before past (succeeded ran) = succeeded (past ++ ran)
put_before past (failed ran) = failed (past ++ ran)
put_before past (panicked ran) = panicked (past ++ ran)

-- EnsureCommands
unfoldable pub ensure_commands : (List String → Bool) → List String → Ran
unfolding run_command put_before
ensure_commands works [] = succeeded []
ensure_commands works (c ∷ cmds) = elim (run_command works c) [
  | succeeded ran ↦ put_before ran (ensure_commands works cmds)
  | failed ran ↦ failed ran
  | panicked ran ↦ panicked ran
]

pub record Sandbox : Type 0 where
  pub name : String
  pub network : String
  pub command : String
  pub args : List String
  pub addr : String

-- NewSandbox
unfoldable pub new_sandbox : String → String → String → Sandbox
new_sandbox name network cmd = record {
  name = name;
  network = network;
  command = cmd;
  args = [];
  addr = "";
}

-- the command that creates the service of a sandbox
unfoldable pub create_line : Sandbox → String
create_line s =
    "virt-sandbox-service create --network address=" <> s.addr <> "/24,source=" <> s.network <> " "
    <> s.name <> " -- " <> s.command

-- RunService
unfoldable pub run_service : (List String → Bool) → Sandbox → Ran
unfolding create_line ensure_commands
run_service works s = ensure_commands works (create_line s ∷ ("virsh start " <> s.name) ∷ [])

-- Run
unfoldable pub run : (List String → Bool) → Sandbox → Ran
unfolding run_command
run works s = run_command works (
    "virt-sandbox --network address=" <> s.addr <> "/24,source=" <> s.network <> "  -n " <> s.name
    <> " " <> s.command)
