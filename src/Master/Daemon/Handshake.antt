-- ===== src/Master/Daemon/Handshake.antt =====
-- `RunAsDaemon` of mpic/master_linux.cc after the fork, in the process that waits and in the daemon.
use mpic.Prelude.{
  ℕ, zero, suc, ◌≡◌, refl, ap, ◌∙◌, subst, sym, Bool, true, false, ◌&&◌, Option, none, some, List,
  [], ◌∷◌, ◌++◌, ℤ, pos, is_empty, if◌then◌else◌, Bool-cases, inl, inr,
}
use mathlib.Core.List.{append_assoc}
use mpic.Prelude.State.{Outcome, Returns, and_then}
use mpic.Os.{
  Os, Call, daemon_close_all, daemon_pid_file_create, daemon_retval_send, daemon_retval_wait, umask,
}
use mpic.Os.Machine.{called}
use mpic.Options.{Options, value_or}
use mpic.Master.{State}
use mpic.Master.Frame.{calls, calls-append}
use mpic.Master.Daemon.{in_daemon, in_parent, after_daemon_fork, run_main_routine, finish}
use mpic.Master.Daemon.Commands.{Answer, name_known}
use mpic.Master.Daemon.Failing.{after_call, closes, creates, failed_calls, in_daemon_fails}

-- The first number that a process sends to the one that waits for it.
abbrev pub first_sent : List Call → Option ℕ
first_sent [] = none
first_sent (daemon_retval_send n ∷ cs) = some n
first_sent (_ ∷ cs) = first_sent cs

-- The calls of a start that succeeds, up to `RunMainRoutine`.
abbrev pub served_calls : List Call
served_calls = daemon_close_all ∷ daemon_pid_file_create ∷ daemon_retval_send 0 ∷ umask 0o022 ∷ []

module _ (os : Os) (t : State os) where
  -- The calls of the daemon, up to `RunMainRoutine` or to its end.
  abbrev pub start_calls : List Call
  start_calls =
      if closes os t
      then (if creates os t then served_calls else failed_calls os t)
      else failed_calls os t

  -- The state in which the daemon begins to serve.
  abbrev pub served : State os
  served = after_call os (umask 0o022) (
      after_call os (daemon_retval_send 0)
        (after_call os daemon_pid_file_create (after_call os daemon_close_all t)))

  -- What the daemon comes to, by the number that it sends first: it serves, or it fails.
  abbrev pub Begins : ℕ → ℕ → ℕ → Options → Outcome ℤ (State os) → Type 0
  Begins zero rounds fuel op o =
      (o ≡ and_then (run_main_routine os rounds fuel op served) (λ _. finish os 0))
      × (calls served.machine.events ≡ calls t.machine.events ++ served_calls)
  Begins (suc w) rounds fuel op o = Returns (Answer t (failed_calls os t) (pos (suc w))) o

  pub in_daemon-Begins :
      (w rounds fuel : ℕ) (op : Options)
      → is_empty t.machine.exe_name ≡ false
      → first_sent start_calls ≡ some w
      → Begins w rounds fuel op (in_daemon os rounds fuel op t)
  unfolding in_daemon
  in_daemon-Begins w rounds fuel op known sent = elim (Bool-cases (closes os t)) [
    | inr c ↦ begins 1 (rw c refl) (fails false c (rw c refl))
    | inl c ↦ elim (Bool-cases (creates os t)) [
      | inr d ↦ begins 2 (rw (c, d) refl) (fails true c (rw (c, d) refl))
      | inl d ↦
          begins 0 (rw (c, d) refl)
            (rw (c, d, name_known os before known) refl, simp (calls-append, append_assoc))
    ]
  ]
    where
      fails :
          (b : Bool)
          → closes os t ≡ b
          → (closes os t && creates os t) ≡ false
          → Returns
              (Answer t (failed_calls os t) (if b then pos 2 else pos 1))
              (in_daemon os rounds fuel op t)
      fails b c h =
          subst
            (λ b.
              Returns (Answer t (failed_calls os t) (if b then pos 2 else pos 1))
                (in_daemon os rounds fuel op t))
            c (in_daemon_fails os t rounds fuel op known h)

      before : State os
      before =
          after_call os (daemon_retval_send 0)
            (after_call os daemon_pid_file_create (after_call os daemon_close_all t))

      begins :
          (n : ℕ)
          → first_sent start_calls ≡ some n
          → Begins n rounds fuel op (in_daemon os rounds fuel op t)
          → Begins w rounds fuel op (in_daemon os rounds fuel op t)
      begins n e b =
          subst (λ v. Begins v rounds fuel op (in_daemon os rounds fuel op t))
            (ap (value_or 0) (sym e ∙ sent)) b

in_parent-Answer :
    (os : Os) (s : State os) (w : ℕ)
    → is_empty s.machine.exe_name ≡ false
    → (os.sys (daemon_retval_wait 10) s.machine.world).0 ≡ pos w
    → Returns (Answer s (daemon_retval_wait 10 ∷ []) (pos w)) (in_parent os s)
unfolding in_parent
in_parent-Answer os s w known told =
    rw (told, name_known os (after_call os (daemon_retval_wait 10) s) known)
      (refl, calls-append s.machine.events (called (daemon_retval_wait 10) ∷ []), refl, refl)

-- After a fork that succeeds, with the static name known on both sides, and where the wait gives the
-- number that the daemon sends first: the process that waits returns that number. If it is 0 the
-- daemon has closed its descriptors and written its pid file, and goes on to `RunMainRoutine`, after
-- which only the removal of the pid file is left. If it is not, the daemon returns the same number
-- without serving.
pub after_daemon_fork-Begins :
    (os : Os) (s t : State os) (child w rounds fuel : ℕ) (op : Options)
    → is_empty s.machine.exe_name ≡ false
    → is_empty t.machine.exe_name ≡ false
    → first_sent (start_calls os t) ≡ some w
    → (os.sys (daemon_retval_wait 10) s.machine.world).0 ≡ pos w
    → Returns
        (Answer s (daemon_retval_wait 10 ∷ []) (pos w))
        (after_daemon_fork os rounds fuel op (pos (suc child)) s)
      × Begins os t w rounds fuel op (after_daemon_fork os rounds fuel op (pos 0) t)
unfolding after_daemon_fork
after_daemon_fork-Begins os s t child w rounds fuel op known known' sent told =
    (in_parent-Answer os s w known told, in_daemon-Begins os t w rounds fuel op known' sent)
