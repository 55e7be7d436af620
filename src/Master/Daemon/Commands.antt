-- ===== src/Master/Daemon/Commands.antt =====
-- `Run`, `KillDaemon`, `ReloadDaemon` and `CheckStatus` of mpic/master_linux.cc.
use mpic.Prelude.{
  ℕ, ◌≡◌, refl, Bool, true, false, ◌&&◌, ◌||◌, List, [], ◌∷◌, ◌++◌, ℤ, pos, is_zero, is_positive,
  is_empty, if◌then◌else◌, Bool-cases, inl, inr,
}
use mathlib.Core.List.{append_assoc}
use mpic.Prelude.State.{Outcome, Returns, returned}
use mpic.Os.{
  Os, Call, sigterm, sighup, daemon_pid_file_is_running, daemon_pid_file_kill,
  daemon_pid_file_kill_wait,
}
use mpic.Os.Machine.{called}
use mpic.Options.{get_exe_name}
use mpic.Master.{State, lift}
use mpic.Master.Frame.{calls, calls-append}
use mpic.Master.Daemon.{run, kill_daemon, reload_daemon, check_status, name_for_message}

-- The command that the options ask for: kill comes before reload, and reload before status.
pub data Command : Type 0 where
  kill reload status : Command

abbrev pub command_of : Bool → Bool → Command
command_of true r = kill
command_of false true = reload
command_of false false = status

-- What goes to a daemon that is running.
abbrev pub order_of : Command → List Call
order_of kill = daemon_pid_file_kill_wait sigterm 5 ∷ []
order_of reload = daemon_pid_file_kill sighup ∷ []
order_of status = []

-- Whether the call for the command succeeds in a world.
abbrev pub obeyed : (os : Os) → Command → os.World → Bool
obeyed os kill w = is_zero (os.sys (daemon_pid_file_kill_wait sigterm 5) w).0
obeyed os reload w = is_zero (os.sys (daemon_pid_file_kill sighup) w).0
obeyed os status w = true

-- A state's calls go on with some, its options and maps are kept, and the code is this.
abbrev pub Answer : {os : Os} → State os → List Call → ℤ → ℤ → State os → Type 0
Answer s cs expected code t =
    (code ≡ expected)
    × (calls t.machine.events ≡ calls s.machine.events ++ cs)
    × (t.running ≡ s.running)
    × (t.exiting ≡ s.exiting)

-- Once the static name is set, `GetExeName` changes nothing.
pub name_known :
    (os : Os) (s : State os)
    → is_empty s.machine.exe_name ≡ false
    → name_for_message os s ≡ returned tt s
unfolding name_for_message get_exe_name
name_known os s h = rw (h, lift)

module _ (os : Os) (s : State os) (known : is_empty s.machine.exe_name ≡ false) where
  abbrev pub asked : ℤ × os.World
  asked = os.sys daemon_pid_file_is_running s.machine.world

  -- The state after the question whether the daemon runs.
  abbrev after_asking : State os
  after_asking = record s {
    machine = record s.machine {
      world = asked.1;
      events = s.machine.events ++ (called daemon_pid_file_is_running ∷ []);
    };
  }

  abbrev pub Answers : Command → Outcome ℤ (State os) → Type 0
  Answers c = Returns (
      Answer s (daemon_pid_file_is_running ∷ (if is_positive asked.0 then order_of c else []))
        (if is_positive asked.0 && obeyed os c asked.1 then pos 0 else pos 1))

  down_calls :
      calls (s.machine.events ++ (called daemon_pid_file_is_running ∷ []))
      ≡ calls s.machine.events ++ daemon_pid_file_is_running ∷ []
  down_calls = calls-append s.machine.events (called daemon_pid_file_is_running ∷ [])

  up_calls :
      (c : Call)
      → calls ((s.machine.events ++ (called daemon_pid_file_is_running ∷ [])) ++ (called c ∷ []))
        ≡ calls s.machine.events ++ daemon_pid_file_is_running ∷ c ∷ []
  up_calls c = simp (calls-append, append_assoc)

  kill_daemon-Answers : Answers kill (kill_daemon os s)
  unfolding kill_daemon
  kill_daemon-Answers = elim (Bool-cases (is_positive asked.0)) [
    | inl up ↦
        rw (name_known os after_asking known, up)
          (refl, up_calls (daemon_pid_file_kill_wait sigterm 5), refl, refl)
    | inr down ↦ rw (name_known os after_asking known, down) (refl, down_calls, refl, refl)
  ]

  reload_daemon-Answers : Answers reload (reload_daemon os s)
  unfolding reload_daemon
  reload_daemon-Answers = elim (Bool-cases (is_positive asked.0)) [
    | inl up ↦
        rw (name_known os after_asking known, up)
          (refl, up_calls (daemon_pid_file_kill sighup), refl, refl)
    | inr down ↦ rw (name_known os after_asking known, down) (refl, down_calls, refl, refl)
  ]

  check_status-Answers : Answers status (check_status os s)
  unfolding check_status
  check_status-Answers = elim (Bool-cases (is_positive asked.0)) [
    | inl up ↦ rw (name_known os after_asking known, up) (refl, down_calls, refl, refl)
    | inr down ↦ rw (name_known os after_asking known, down) (refl, down_calls, refl, refl)
  ]

  choice-Answers :
      (k r st : Bool) (other : Outcome ℤ (State os))
      → (k || (r || st)) ≡ true
      → Answers (command_of k r) (
          if k
          then kill_daemon os s
          else if r
          then reload_daemon os s
          else if st
          then check_status os s
          else other)
  choice-Answers true r st other h = kill_daemon-Answers
  choice-Answers false true st other h = reload_daemon-Answers
  choice-Answers false false true other h = check_status-Answers
  choice-Answers false false false other h = cc

  -- With one or more of the options kill, reload and status, and the static name known, `Run` asks
  -- whether the daemon is running, and only if it is makes the one call of the first of these
  -- options (none for status). It returns 0 if the daemon runs and that call succeeds, and 1
  -- otherwise. No process is started, and the maps are as they were.
  pub run-Answers :
      (rounds fuel : ℕ)
      → (s.option.kill || (s.option.reload || s.option.status)) ≡ true
      → Answers (command_of s.option.kill s.option.reload) (run os rounds fuel s)
  unfolding run
  run-Answers rounds fuel h = choice-Answers s.option.kill s.option.reload s.option.status _ h
