-- ===== src/Master/Daemon/Failing.antt =====
-- `RunAsDaemon` of mpic/master_linux.cc, in the daemon, where its start fails.
use mpic.Prelude.{
  ℕ, suc, ◌≡◌, refl, ap, ◌∙◌, Bool, false, ◌&&◌, List, [], ◌∷◌, ◌++◌, ℤ, pos, is_zero, is_empty,
  arith, if◌then◌else◌, Bool-cases, inl, inr,
}
use mathlib.Core.List.{append_assoc}
use mpic.Prelude.State.{Outcome, Returns, Returns-mono}
use mpic.Os.{
  Os, Call, daemon_close_all, daemon_pid_file_create, daemon_retval_send, daemon_pid_file_remove,
}
use mpic.Os.Machine.{called}
use mpic.Options.{Options}
use mpic.Master.{State}
use mpic.Master.Frame.{calls, calls-append}
use mpic.Master.Daemon.{in_daemon, finish}
use mpic.Master.Daemon.Commands.{Answer, name_known}

module _ (os : Os) where
  -- The state after a call.
  abbrev pub after_call : Call → State os → State os
  after_call c s = record s {
    machine = record s.machine {
      world = (os.sys c s.machine.world).1;
      events = s.machine.events ++ (called c ∷ []);
    };
  }

  -- From `finish` on, with a number that is not 0.
  finish-Answer :
      (n : ℕ) (s : State os)
      → is_empty s.machine.exe_name ≡ false
      → Returns
          (Answer s (daemon_retval_send (suc n) ∷ daemon_pid_file_remove ∷ []) (pos (suc n)))
          (finish os (suc n) s)
  unfolding finish
  finish-Answer n s known =
      rw (name_known os (after_call (daemon_retval_send (suc n)) s) known)
        (refl, simp (calls-append, append_assoc), refl, refl)

  -- A call before the rest.
  then_Answer :
      (c : Call) (cs : List Call) (code : ℤ) (s : State os) (o : Outcome ℤ (State os))
      → Returns (Answer (after_call c s) cs code) o
      → Returns (Answer s (c ∷ cs) code) o
  then_Answer c cs code s o p =
      Returns-mono (Answer (after_call c s) cs code) (Answer s (c ∷ cs) code) o p (λ r t a. (
        a.0,
        a.1
            ∙ (ap (λ ds. ds ++ cs) (calls-append s.machine.events (called c ∷ []))
                ∙ append_assoc (calls s.machine.events) (c ∷ []) cs),
        a.2,
        a.3,
      ))

module _ (os : Os) (s : State os) where
  -- Whether each of the two steps succeeds.
  abbrev pub closes : Bool
  closes = is_zero (os.sys daemon_close_all s.machine.world).0

  abbrev pub creates : Bool
  creates = is_zero (os.sys daemon_pid_file_create (os.sys daemon_close_all s.machine.world).1).0

  -- The calls of a start that fails.
  abbrev pub failed_calls : List Call
  failed_calls =
      daemon_close_all
      ∷ (if closes
          then daemon_pid_file_create ∷ daemon_retval_send 2 ∷ daemon_pid_file_remove ∷ []
          else daemon_retval_send 1 ∷ daemon_pid_file_remove ∷ [])

  -- With the static name known, if the daemon cannot close its descriptors or cannot write its pid
  -- file, it returns 1 in the first case and 2 in the second, after it has sent that number to the
  -- process that waits for it. It starts no process and keeps its maps. In both cases it removes
  -- the pid file, though it has not made it.
  pub in_daemon_fails :
      (rounds fuel : ℕ) (op : Options)
      → is_empty s.machine.exe_name ≡ false
      → (closes && creates) ≡ false
      → Returns
          (Answer s failed_calls (if closes then pos 2 else pos 1))
          (in_daemon os rounds fuel op s)
  unfolding in_daemon finish
  in_daemon_fails rounds fuel op known h = elim (Bool-cases closes) [
    | inl c ↦
        let d : creates ≡ false = ground (arith, c, h) in
        rw (c, d)
          (then_Answer os daemon_close_all _ (pos 2) s _ (
            then_Answer os daemon_pid_file_create _ (pos 2) (after_call os daemon_close_all s) _ (
              finish-Answer os 1
                (after_call os daemon_pid_file_create (after_call os daemon_close_all s)) known)))
    | inr c ↦ rw c (
        then_Answer os daemon_close_all _ (pos 1) s _
          (finish-Answer os 0 (after_call os daemon_close_all s) known))
  ]
