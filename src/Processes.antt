-- ===== src/Processes.antt =====
-- processes.py: the processes that the supervisor starts, and how their output becomes log lines.
pub mod Logs
use yeetllm.Common.{
  ℕ, Bool, true, false, Option, none, some, List, [], ◌∷◌, ◌++◌, text_eq, if◌then◌else◌,
}
use yeetllm.Common.Int.{ℤ}
use yeetllm.Common.Dict.{Dict, insert}
use yeetllm.Common.Text.{Text, codes}
use yeetllm.Common.Text.Decimal.{decimal}

-- The fields of `ManagedProcess` that decide anything: `pid` is none until `start` has made a process.
pub record ManagedProcess : Type 0 where
  pub name : Text
  pub argv : List Text
  pub env : Dict Text Text
  pub run_as_service_user : Bool
  pub pid : Option ℕ

-- What the system says of a process that was started: its return code, once it has exited.
abbrev pub Exits : Type 0
Exits = Text → Option ℤ

abbrev pub returncode : Exits → ManagedProcess → Option ℤ
returncode exits p = elim p.pid [ none ↦ none | some pid ↦ exits p.name ]

abbrev pub has_not_exited : Option ℤ → Bool
has_not_exited none = true
has_not_exited (some code) = false

unfoldable pub running : Exits → ManagedProcess → Bool
running exits p = elim p.pid [ none ↦ false | some pid ↦ has_not_exited (exits p.name) ]

-- The user and the group of the service account.
pub record Account : Type 0 where
  pub uid : ℕ
  pub gid : ℕ

-- `service_argv`; the account is given where the effective user is root
unfoldable pub service_argv : Option Account → List Text → List Text
service_argv none argv = argv
service_argv (some account) argv =
    codes "/usr/bin/setpriv"
    ∷ (codes "--reuid=" ++ decimal account.uid)
    ∷ (codes "--regid=" ++ decimal account.gid)
    ∷ codes "--init-groups"
    ∷ codes "--no-new-privs"
    ∷ codes "--bounding-set=-all"
    ∷ codes "--inh-caps=-all"
    ∷ codes "--ambient-caps=-all"
    ∷ codes "--"
    ∷ argv

-- What `start` hands to `create_subprocess_exec`: the argument list and the environment.
unfoldable pub start_argv : Option Account → ManagedProcess → List Text
unfolding service_argv
start_argv account p = if p.run_as_service_user then service_argv account p.argv else p.argv

unfoldable pub start_env : ManagedProcess → Dict Text Text
start_env p =
    if p.run_as_service_user
    then insert (codes "USER") (codes "vllm") (insert (codes "HOME") (codes "/home/vllm") p.env)
    else p.env
