-- ===== src/Client/Launch/Tmux.antt =====
-- `--tmux` puts the remote command in double quotes, which the command builder refuses.
use undying_terminal.Prelude.{
  ℕ, ◌≡◌, refl, ap, ◌∙◌, Bool, true, false, not, ◌||◌, List, [], ◌∷◌, ◌++◌, ◌==◌, Bytes, Bool-cases,
  inl, inr,
}
use undying_terminal.Text.{codes, is_empty, contains}
use undying_terminal.SshCommand.{SshCommandBuilder, add_option, has_unsafe_char, build}
use undying_terminal.Client.Quoting.{wrap_with_tmux}
use undying_terminal.Client.Arguments.{SshArguments}
use undying_terminal.Client.Launch.{
  option_if, remote_command, first_builder, jump_command, jump_builder, start_ssh,
}

contains-append : (c : ℕ) (s t : Bytes) → contains c t ≡ true → contains c (s ++ t) ≡ true
unfolding contains
contains-append c [] t h = h
contains-append c (a ∷ s) t h = rw (contains-append c s t h) (or_true (a == c))
  where
    or_true : (b : Bool) → (b || true) ≡ true
    or_true true = refl
    or_true false = refl

contains-wrap_with_tmux :
    (command session : Bytes) → contains b'"' (wrap_with_tmux command session) ≡ true
unfolding wrap_with_tmux contains
contains-wrap_with_tmux command session = contains-append b'"' session _ (refl)

build_refuses : (b : SshCommandBuilder) → contains b'"' b.remote_command ≡ true → build b ≡ []
unfolding build
build_refuses b h =
    elim (Bool-cases (is_empty b.host || has_unsafe_char b.host || has_unsafe_char b.user)) [
      | inl y ↦ rw y
      | inr n ↦ elim (Bool-cases (contains b'"' b.identity_file)) [
        | inl y ↦ rw (n, y)
        | inr k ↦ rw (n, k, h)
      ]
    ]

option_if-command :
    (test : Bool) (option : Bytes) (b : SshCommandBuilder)
    → (option_if test option b).remote_command ≡ b.remote_command
unfolding add_option
option_if-command true option b = refl
option_if-command false option b = refl

not_started :
    (creates : List ℕ → Bool) (b : SshCommandBuilder)
    → contains b'"' b.remote_command ≡ true
    → start_ssh creates (build b) ≡ false
unfolding start_ssh
not_started creates b h = rw (build_refuses b h)

remote_command-quoted :
    (a : SshArguments) (idpasskey : Bytes)
    → a.tmux_enabled ≡ true
    → contains b'"' (remote_command a idpasskey) ≡ true
unfolding remote_command
remote_command-quoted a idpasskey h = simp h (contains-wrap_with_tmux _ a.tmux_session)

jump_command-quoted :
    (a : SshArguments) (client_id passkey : Bytes)
    → a.tmux_enabled ≡ true
    → contains b'"' (jump_command a client_id passkey) ≡ true
unfolding jump_command
jump_command-quoted a client_id passkey h =
    simp h (contains-wrap_with_tmux _ (a.tmux_session ++ codes "-jump"))

first_builder-command :
    (a : SshArguments) (idpasskey : Bytes)
    → (first_builder a idpasskey).remote_command ≡ remote_command a idpasskey
unfolding first_builder
first_builder-command a idpasskey =
    option_if-command (not (is_empty a.jumphost_arg)) _ _
    ∙ option_if-command a.ssh_agent_enabled _ _
    ∙ option_if-command (not (is_empty a.ssh_proxy_jump)) _ _

jump_builder-command :
    (a : SshArguments) (client_id passkey : Bytes)
    → (jump_builder a client_id passkey).remote_command ≡ jump_command a client_id passkey
unfolding jump_builder
jump_builder-command a client_id passkey = option_if-command a.ssh_agent_enabled _ _

-- With --tmux neither run of ssh starts, whatever the other arguments and the ids.
pub tmux_never_starts :
    (creates : List ℕ → Bool) (a : SshArguments) (idpasskey client_id passkey : Bytes)
    → a.tmux_enabled ≡ true
    → (start_ssh creates (build (first_builder a idpasskey)) ≡ false)
      × (start_ssh creates (build (jump_builder a client_id passkey)) ≡ false)
tmux_never_starts creates a idpasskey client_id passkey h = (
  not_started creates (first_builder a idpasskey) (
      ap (contains b'"') (first_builder-command a idpasskey) ∙ remote_command-quoted a idpasskey h),
  not_started creates (jump_builder a client_id passkey) (
      ap (contains b'"') (jump_builder-command a client_id passkey)
      ∙ jump_command-quoted a client_id passkey h),
)
