-- ===== src/Ssh.antt =====
-- ssh.py: whether the SSH server is started, and with which keys. What the module reads from outside
-- are arguments; the file `authorized_keys` is the text that it holds, if it is there.
-- That the file cannot be written is left out.
pub mod Keys
use yeetllm.Common.{
  ℕ, zero, suc, ◌+◌, Bool, true, false, not, ◌&&◌, ◌||◌, Option, none, some, List, [], ◌∷◌, ◌++◌,
  leb, ltb, ◌==◌, nat_eq, text_eq, keep, length, Result, ok, err, ◌>>=◌, if◌then◌else◌,
}
use yeetllm.Common.Dict.{Dict, lookup}
use yeetllm.Common.Text.{
  Text, codes, is_empty, is_space, drop_while, strip, onto_first, starts_with, has_infix,
}
use yeetllm.Common.Text.Decimal.{decimal}
use yeetllm.Config.Types.{SshConfig, SshEnable, detect, always}

pub record SshLaunch : Type 0 where
  pub enabled : Bool
  pub argv : Option (List Text)
  pub key_source : Option Text

-- The `RuntimeValidationError`s, the failed commands, and the `OSError` of a command that does not run.
pub data SshError : Type 0 where
  unreadable : SshError
  no_key : SshError
  private_key : Text → SshError
  invalid_key : Text → SshError
  command_failed : SshError
  os_error : SshError

abbrev pub no_launch : SshLaunch
no_launch = record { enabled = false; argv = none; key_source = none }

-- The first candidate with a value that is not blank, stripped and ended with `\n`.
unfoldable pub first_key : List (Text × Option Text) → Option (Text × Text)
first_key [] = none
first_key ((name, none) ∷ rest) = first_key rest
first_key ((name, some value) ∷ rest) =
    let later = first_key rest in
    if is_empty (strip value) then later else some (name, strip value ++ codes "\n")

-- The mounted file: its text if it is a file, or an `OSError`.
abbrev pub Mounted : Type 0
Mounted = Result SshError (Option Text)

abbrev pub candidates : Dict Text Text → Text → Option Text → List (Text × Option Text)
candidates env mounted_path mounted =
    (codes "YEETLLM_SSH_AUTHORIZED_KEYS", lookup (codes "YEETLLM_SSH_AUTHORIZED_KEYS") env)
    ∷ (codes "SSH_PUBLIC_KEY", lookup (codes "SSH_PUBLIC_KEY") env)
    ∷ (mounted_path, mounted)
    ∷ (codes "PUBLIC_KEY", lookup (codes "PUBLIC_KEY") env)
    ∷ []

unfoldable pub select_authorized_keys :
    Dict Text Text → Text → Mounted → Result SshError (Option (Text × Text))
unfolding first_key lookup
select_authorized_keys env mounted_path mounted =
    mounted >>= λ value. ok (first_key (candidates env mounted_path value))

abbrev pub is_filled : Option Text → Bool
is_filled none = false
is_filled (some s) = not (is_empty s)

unfoldable pub is_runpod : Dict Text Text → Bool
unfolding lookup
is_runpod env =
    is_filled (lookup (codes "RUNPOD_POD_ID") env)
    || is_filled (lookup (codes "RUNPOD_TCP_PORT_22") env)

-- the line boundaries of `splitlines`
abbrev pub is_break : ℕ → Bool
is_break c = (leb 10 c && leb c 13) || (leb 28 c && leb c 30) || c == 133 || c == 8232 || c == 8233

abbrev pub is_cr_before_lf : ℕ → Text → Bool
is_cr_before_lf c [] = false
is_cr_before_lf c (d ∷ s) = c == 13 && d == 10

unfoldable pub splitlines : Text → List Text
splitlines [] = []
splitlines (c ∷ s) =
    let rest = splitlines s in
    if is_cr_before_lf c s then rest else if is_break c then [] ∷ rest else onto_first c rest

abbrev pub is_line : Text → Bool
is_line line = not (is_empty (strip line))

-- `line.strip() and not line.lstrip().startswith("#")`
abbrev pub is_key_line : Text → Bool
is_key_line line = is_line line && not (starts_with (drop_while is_space line) (codes "#"))

-- `ssh-keygen -l` on the file: its exit status and its standard output.
pub record Listing : Type 0 where
  pub status : ℕ
  pub stdout : Text

-- the checks of what `ssh-keygen` printed
abbrev pub check_listing : Text → Text → Listing → Result SshError (Unit {0})
check_listing content source_name listing =
    let expected = length (keep is_key_line (splitlines content)) in
    let actual = length (keep is_line (splitlines listing.stdout)) in
    if not (listing.status == 0)
    then err (invalid_key source_name)
    else if ltb expected 1 || not (actual == expected)
    then err (invalid_key source_name)
    else ok tt

abbrev pub checked_listing : Text → Text → Option Listing → Result SshError (Unit {0})
checked_listing content source_name none = err os_error
checked_listing content source_name (some listing) = check_listing content source_name listing

-- `validate_key_file`, on the text that was written; `keygen` gives nothing where `subprocess.run`
-- raises an `OSError`
unfoldable pub validate_key_file :
    (Text → Option Listing) → Text → Text → Result SshError (Unit {0})
unfolding splitlines keep starts_with drop_while
validate_key_file keygen content source_name = checked_listing content source_name (keygen content)

-- `config.enable is True` raises, where `auto` leaves SSH disabled
abbrev pub or_raise : SshEnable → SshError → Result SshError SshLaunch
or_raise (always true) e = err e
or_raise (always false) e = ok no_launch
or_raise detect e = ok no_launch

abbrev pub sshd_argv : Text → ℕ → List Text
sshd_argv sshd_config port =
    codes "/usr/sbin/sshd"
    ∷ codes "-D"
    ∷ codes "-e"
    ∷ codes "-f"
    ∷ sshd_config
    ∷ codes "-o"
    ∷ (codes "Port=" ++ decimal port)
    ∷ []

-- What `prepare_ssh` reads: `hosts_keys` is whether `ssh-keygen` makes the host keys, and `accepts`
-- whether `sshd -t` exits with 0.
pub record Machine : Type 0 where
  pub env : Dict Text Text
  pub mounted_path : Text
  pub mounted : Mounted
  pub sshd_config : Text
  pub keygen : Text → Option Listing
  pub hosts_keys : Bool
  pub accepts : Bool

abbrev pub launch_sshd : Machine → SshConfig → Text → Result SshError SshLaunch
launch_sshd machine config source_name =
    if not (machine.hosts_keys && machine.accepts)
    then err command_failed
    else ok (record {
      enabled = true;
      argv = some (sshd_argv machine.sshd_config config.port);
      key_source = some source_name;
    })

-- behind `write_private_text`: the file is removed where its keys are refused, and stays where the
-- validation ends with an `OSError`, which is not caught
abbrev pub with_written :
    Machine
    → SshConfig
    → Text
    → Text
    → Result SshError (Unit {0})
    → Result SshError SshLaunch × Option Text
with_written machine config source_name key_text (err os_error) = (err os_error, some key_text)
with_written machine config source_name key_text (err e) = (or_raise config.enable e, none)
with_written machine config source_name key_text (ok valid) =
    (launch_sshd machine config source_name, some key_text)

abbrev pub with_selected :
    Machine
    → SshConfig
    → Option Text
    → Option (Text × Text)
    → Result SshError SshLaunch × Option Text
with_selected machine config file none = (or_raise config.enable no_key, file)
with_selected machine config file (some (source_name, key_text)) =
    if has_infix key_text (codes "PRIVATE KEY-----")
    then (or_raise config.enable (private_key source_name), file)
    else with_written machine config source_name key_text
        (validate_key_file machine.keygen key_text source_name)

abbrev pub with_selection :
    Machine
    → SshConfig
    → Option Text
    → Result SshError (Option (Text × Text))
    → Result SshError SshLaunch × Option Text
with_selection machine config file (err e) = (err e, file)
with_selection machine config file (ok selected) = with_selected machine config file selected

abbrev pub is_off : SshEnable → Bool
is_off (always b) = not b
is_off detect = false

-- `prepare_ssh`, with the file `authorized_keys` before and behind it
unfoldable pub prepare_ssh :
    Machine → SshConfig → Bool → Option Text → Result SshError SshLaunch × Option Text
unfolding select_authorized_keys validate_key_file has_infix
prepare_ssh machine config primary file =
    if not primary || is_off config.enable
    then (ok no_launch, file)
    else with_selection machine config file
        (select_authorized_keys machine.env machine.mounted_path machine.mounted)
