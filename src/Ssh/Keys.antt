-- ===== src/Ssh/Keys.antt =====
-- Which keys the SSH server is started with.
use yeetllm.Common.{
  ◌≡◌, refl, sym, ◌∙◌, ◌⊎◌, inl, inr, arith, Bool, true, false, not, ◌&&◌, ◌||◌, Option, none, some,
  Bool-cases, Result, ok, err,
}
use yeetllm.Common.Text.{Text, codes, has_infix}
use yeetllm.Config.Types.{SshConfig, SshEnable, detect, always}
use yeetllm.Ssh.{
  SshLaunch, SshError, unreadable, no_key, private_key, invalid_key, command_failed, os_error,
  no_launch, Machine, or_raise, is_off, launch_sshd, with_written, with_selected, with_selection,
  select_authorized_keys, validate_key_file, prepare_ssh, sshd_argv,
}

-- Keys that were selected from a source, hold no private key, and passed the validation.
pub record IsAccepted (machine : Machine) (source_name key_text : Text) : Type 0 where
  pub selected :
      select_authorized_keys machine.env machine.mounted_path machine.mounted
      ≡ ok (some (source_name, key_text))
  pub public : has_infix key_text (codes "PRIVATE KEY-----") ≡ false
  pub valid : validate_key_file machine.keygen key_text source_name ≡ ok tt

-- Keys that were selected from a source and hold no private key, whose validation could not be run.
pub record IsUnvalidated (machine : Machine) (source_name key_text : Text) : Type 0 where
  pub selected :
      select_authorized_keys machine.env machine.mounted_path machine.mounted
      ≡ ok (some (source_name, key_text))
  pub public : has_infix key_text (codes "PRIVATE KEY-----") ≡ false
  pub failed : validate_key_file machine.keygen key_text source_name ≡ err os_error

-- What `prepare_ssh` gives, and the file that it leaves.
abbrev pub Outcome : Type 0
Outcome = Result SshError SshLaunch × Option Text

-- The server is started with accepted keys, on a primary where it is not switched off.
abbrev pub IsStarted : Machine → SshConfig → Bool → Outcome → Type 0
IsStarted machine config primary (r, file') =
    (launch : SshLaunch)
    → r ≡ ok launch
    → launch.enabled ≡ true
    → (primary ≡ true)
      × (is_off config.enable ≡ false)
      × ((source_name : Text) × (key_text : Text) × IsAccepted machine source_name key_text
          × (file' ≡ some key_text)
          × (launch.key_source ≡ some source_name)
          × (launch.argv ≡ some (sshd_argv machine.sshd_config config.port)))

-- The file is as it was, is removed, or holds accepted keys, or it holds keys whose validation ended
-- with an `OSError`, and this error is what is given.
abbrev pub IsKept : Machine → Option Text → Outcome → Type 0
IsKept machine file (r, file') =
    (file' ≡ file)
    ⊎ ((file' ≡ none)
        ⊎ (((source_name : Text) × (key_text : Text) × IsAccepted machine source_name key_text
              × (file' ≡ some key_text))
            ⊎ ((source_name : Text) × (key_text : Text) × IsUnvalidated machine source_name key_text
                × (file' ≡ some key_text)
                × (r ≡ err os_error))))

or_raise_disabled :
    (enable : SshEnable) (e : SshError) (launch : SshLaunch)
    → or_raise enable e ≡ ok launch
    → launch.enabled ≡ false
or_raise_disabled (always true) e launch h = cc
or_raise_disabled (always false) e launch h =
    let same : no_launch ≡ launch = cc h in rw (← same) refl
or_raise_disabled detect e launch h = let same : no_launch ≡ launch = cc h in rw (← same) refl

launch_sshd_ok :
    (machine : Machine) (config : SshConfig) (source_name : Text) (launch : SshLaunch)
    → launch_sshd machine config source_name ≡ ok launch
    → (launch.key_source ≡ some source_name)
      × (launch.argv ≡ some (sshd_argv machine.sshd_config config.port))
launch_sshd_ok machine config source_name launch h =
    elim (Bool-cases (machine.hosts_keys && machine.accepts)) [
      | inr bad ↦ let e : err command_failed ≡ ok launch = rw bad at h in absurd (cc e)
      | inl good ↦
          let e : ok (record {
            enabled = true;
            argv = some (sshd_argv machine.sshd_config config.port);
            key_source = some source_name;
          })
              ≡ ok launch =
            rw good at h in
          let same : record {
            enabled = true;
            argv = some (sshd_argv machine.sshd_config config.port);
            key_source = some source_name;
          }
              ≡ launch =
            cc e in
          rw (← same) (refl, refl)
    ]

-- Both facts.
abbrev pub IsSafe : Machine → SshConfig → Bool → Option Text → Outcome → Type 0
IsSafe machine config primary file o = IsStarted machine config primary o × IsKept machine file o

-- A launch that is not enabled starts nothing.
disabled_IsStarted :
    (machine : Machine) (config : SshConfig) (primary : Bool) (e : SshError) (file : Option Text)
    → IsStarted machine config primary (or_raise config.enable e, file)
disabled_IsStarted machine config primary e file launch h on =
    let off = or_raise_disabled config.enable e launch h in
    let bad : true ≡ false = sym on ∙ off in absurd (cc bad)

with_written-IsSafe :
    (machine : Machine) (config : SshConfig) (primary : Bool) (file : Option Text)
    (source_name key_text : Text) (r : Result SshError (Unit {0}))
    → primary ≡ true
    → is_off config.enable ≡ false
    → (r ≡ ok tt → IsAccepted machine source_name key_text)
    → (r ≡ err os_error → IsUnvalidated machine source_name key_text)
    → IsSafe machine config primary file (with_written machine config source_name key_text r)
with_written-IsSafe machine config primary file source_name key_text (err os_error) first on
      accepted left =
    ((λ launch h. absurd (cc h)), inr (inr (inr (source_name, key_text, left refl, refl, refl))))
with_written-IsSafe machine config primary file source_name key_text (err unreadable) first on
      accepted left =
    (disabled_IsStarted machine config primary unreadable none, inr (inl refl))
with_written-IsSafe machine config primary file source_name key_text (err no_key) first on accepted
      left =
    (disabled_IsStarted machine config primary no_key none, inr (inl refl))
with_written-IsSafe machine config primary file source_name key_text (err (private_key name)) first
      on accepted left =
    (disabled_IsStarted machine config primary (private_key name) none, inr (inl refl))
with_written-IsSafe machine config primary file source_name key_text (err (invalid_key name)) first
      on accepted left =
    (disabled_IsStarted machine config primary (invalid_key name) none, inr (inl refl))
with_written-IsSafe machine config primary file source_name key_text (err command_failed) first on
      accepted left =
    (disabled_IsStarted machine config primary command_failed none, inr (inl refl))
with_written-IsSafe machine config primary file source_name key_text (ok valid) first on accepted
      left =
    let keys = accepted refl in
    (
      (λ launch h enabled.
          let (source, argv) = launch_sshd_ok machine config source_name launch h in
          (first, on, (source_name, key_text, keys, refl, source, argv))),
      inr (inr (inl (source_name, key_text, keys, refl))),
    )

with_selected-IsSafe :
    (machine : Machine) (config : SshConfig) (primary : Bool) (file : Option Text)
    (o : Option (Text × Text))
    → primary ≡ true
    → is_off config.enable ≡ false
    → select_authorized_keys machine.env machine.mounted_path machine.mounted ≡ ok o
    → IsSafe machine config primary file (with_selected machine config file o)
with_selected-IsSafe machine config primary file none first on chosen =
    (disabled_IsStarted machine config primary no_key file, inl refl)
with_selected-IsSafe machine config primary file (some (source_name, key_text)) first on chosen =
    elim (Bool-cases (has_infix key_text (codes "PRIVATE KEY-----"))) [
      | inl private ↦
          rw private
            (disabled_IsStarted machine config primary (private_key source_name) file, inl refl)
      | inr public ↦ rw public (
          with_written-IsSafe machine config primary file source_name key_text
            (validate_key_file machine.keygen key_text source_name) first on
            (λ valid. record { selected = chosen; public = public; valid = valid })
            (λ failed. record { selected = chosen; public = public; failed = failed }))
    ]

with_selection-IsSafe :
    (machine : Machine) (config : SshConfig) (primary : Bool) (file : Option Text)
    (r : Result SshError (Option (Text × Text)))
    → primary ≡ true
    → is_off config.enable ≡ false
    → select_authorized_keys machine.env machine.mounted_path machine.mounted ≡ r
    → IsSafe machine config primary file (with_selection machine config file r)
with_selection-IsSafe machine config primary file (err e) first on chosen =
    ((λ launch h. absurd (cc h)), inl refl)
with_selection-IsSafe machine config primary file (ok o) first on chosen =
    with_selected-IsSafe machine config primary file o first on chosen

-- `prepare_ssh` enables a launch only on a primary where SSH is not switched off, with the command line
-- of its port and with keys that were selected from the source it names, hold no private-key marker and
-- passed the validation; these keys are then what the file `authorized_keys` holds. In every case this file is
-- as it was before, whatever it held, or is removed, or holds such keys, or it holds selected keys
-- without a private-key marker whose validation ended with an `OSError`, and then `prepare_ssh` ends
-- with this error.
pub prepare_ssh-IsSafe :
    (machine : Machine) (config : SshConfig) (primary : Bool) (file : Option Text)
    → IsSafe machine config primary file (prepare_ssh machine config primary file)
unfolding prepare_ssh
prepare_ssh-IsSafe machine config primary file =
    elim (Bool-cases (not primary || is_off config.enable)) [
      | inl off ↦ rw off (
        (λ launch h on.
            let same : no_launch ≡ launch = cc h in
            let disabled : launch.enabled ≡ false = rw (← same) refl in
            let bad : true ≡ false = sym on ∙ disabled in absurd (cc bad)),
        inl refl,
      )
      | inr on ↦ rw on (
          with_selection-IsSafe machine config primary file
            (select_authorized_keys machine.env machine.mounted_path machine.mounted) (ground arith)
            (ground arith) refl)
    ]
