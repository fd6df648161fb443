-- ===== src/Command.antt =====
-- The command that worker/bash.go (`runBash`) and worker/process.go (`Start`) run: the same lines
-- stand in both.
use remote_hands.Shared.{
  Bool, true, false, List, [], ◌∷◌, ◌++◌, map, Option, none, some, Text, codes, is_empty, Map,
  if◌then◌else◌,
}

-- `*exec.Cmd`, as far as it is set. An empty `env` stands for the parent's environment.
pub record Command : Type 0 where
  pub args : List Text
  pub dir : Text
  pub env : List Text
  pub setpgid : Bool

-- `CmdCustomizer`
abbrev pub CmdCustomizer : Type 0
CmdCustomizer = Command → Command

abbrev pub assignment : Text × Text → Text
assignment (k, v) = k ++ b'=' ∷ v

-- `exec.Command("bash", "-c", command)`, the merged environment, the customizer, and the process
-- group at the end. `environ` is `cmd.Environ()`.
unfoldable pub build_command :
    Option CmdCustomizer → List Text → Text → Text → Map Text Text → Command
build_command customizer environ command work_dir env =
    let plain : Command = record {
      args = codes "bash" ∷ codes "-c" ∷ command ∷ [];
      dir = work_dir;
      env = if is_empty env then [] else environ ++ map assignment env;
      setpgid = false;
    } in
    let custom : Command = elim customizer [ none ↦ plain | some f ↦ f plain ] in
    record custom { setpgid = true }
