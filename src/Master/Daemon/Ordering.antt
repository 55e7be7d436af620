-- ===== src/Master/Daemon/Ordering.antt =====
-- `Run` of mpic/master_linux.cc for a command, over a system of which it is known whether a daemon is up
-- and whether it obeys.
use mpic.Prelude.{
  ◌≡◌, subst, ◌∷◌, [], ℕ, Bool, true, false, ◌&&◌, ◌||◌, List, ℤ, pos, is_empty, is_positive,
  if◌then◌else◌,
}
use mpic.Prelude.State.{Returns}
use mpic.Os.{Os, Call, daemon_pid_file_is_running}
use mpic.Master.{State}
use mpic.Master.Daemon
use mpic.Master.Daemon.Commands.{Command, command_of, order_of, obeyed, Answer, run-Answers}

-- The question to the system, and the order if a daemon is up.
abbrev pub commanding : Command → Bool → List Call
commanding c up = daemon_pid_file_is_running ∷ (if up then order_of c else [])

abbrev pub verdict : Bool → Bool → ℤ
verdict up done = if up && done then pos 0 else pos 1

pub run-Answer :
    {os : Os} (v : State os) (c : Command) (up done : Bool) (rounds fuel : ℕ)
    → is_empty v.machine.exe_name ≡ false
    → (v.option.kill || (v.option.reload || v.option.status)) ≡ true
    → command_of v.option.kill v.option.reload ≡ c
    → ((w : os.World) → is_positive (os.sys daemon_pid_file_is_running w).0 ≡ up)
    → ((w : os.World) → obeyed os c w ≡ done)
    → Returns (Answer v (commanding c up) (verdict up done)) (Daemon.run os rounds fuel v)
run-Answer {os} v c up done rounds fuel known ordered e is_up is_done =
    let r = os.sys daemon_pid_file_is_running v.machine.world in
    subst (λ d. Returns (Answer v (commanding c up) (verdict up d)) (Daemon.run os rounds fuel v))
      (is_done r.1)
      (subst
        (λ u.
          Returns (Answer v (commanding c u) (verdict u (obeyed os c r.1)))
            (Daemon.run os rounds fuel v))
        (is_up v.machine.world)
        (subst
          (λ k.
            Returns
              (Answer v (commanding k (is_positive r.0))
                (verdict (is_positive r.0) (obeyed os k r.1)))
              (Daemon.run os rounds fuel v))
          e (run-Answers os v known rounds fuel ordered)))
