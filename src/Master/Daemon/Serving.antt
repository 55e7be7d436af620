-- ===== src/Master/Daemon/Serving.antt =====
-- The daemon of mpic/master_linux.cc, from the fork of `RunAsDaemon` to the main loop of `RunMaster`.
use mpic.Prelude.{ℕ, ◌≡◌, refl, ap, ◌∙◌, true, false, List, [], ◌++◌, pos, if_not}
use mpic.Prelude.State.{and_then}
use mpic.Os.{Os, umask, daemon_close_all, daemon_pid_file_create, daemon_retval_send}
use mpic.Os.Kernel.{IsKernel}
use mpic.Farewell.Title.{Named}
use mpic.Master.{State, Routine}
use mpic.Master.Frame.{calls}
use mpic.Master.Loader.Lifecycle.{Loads}
use mpic.Master.Signals.{main_loop, run_master}
use mpic.Master.Signals.Launch.{Launched, run_master-Launched}
use mpic.Master.Daemon.{after_daemon_fork, run_main_routine, finish}
use mpic.Master.Daemon.Failing.{closes, creates}
use mpic.Master.Daemon.Handshake.{served, served_calls, in_daemon-Begins}

module _ {os : Os} (K : IsKernel os) (t : State os) where
  -- The state in which `RunMaster` begins.
  abbrev pub serving : State os
  serving = record (served os t) {
    machine = record (served os t).machine { flags_log_dir = t.option.log_dir };
  }

  served-child : (p : ℕ) → K.child serving.machine.world p ≡ K.child t.machine.world p
  served-child p =
      K.sys_child (umask 0o022) _ p refl
      ∙ K.sys_child (daemon_retval_send 0) _ p refl
      ∙ K.sys_child daemon_pid_file_create _ p refl
      ∙ K.sys_child daemon_close_all _ p refl

  main_routine :
      (rounds fuel : ℕ)
      → t.option.foreground ≡ false
      → run_main_routine os rounds fuel t.option (served os t)
        ≡ run_master os rounds fuel t.option serving
  unfolding run_main_routine
  main_routine rounds fuel fg =
      ap
        (λ (f : Routine os (Unit {0})).
          and_then (f serving) (λ _. run_master os rounds fuel t.option))
        (if_not _ _ t.option.foreground fg)

  -- In the daemon after the fork of `RunAsDaemon`, on a kernel where every fork succeeds: if it can
  -- close its descriptors and write its pid file, and, over a library that loads, with the static
  -- name known, the title's space set up, not in the foreground, with empty maps and no children, it
  -- comes to the main loop of `RunMaster`. It has told the waiting process 0 before that; the
  -- option's number of workers runs, and they are the kernel's children. When the loop ends, only the
  -- end of `RunAsDaemon`, which removes the pid file, is left.
  pub after_daemon_fork-Launched :
      (rounds fuel p : ℕ) (ps : List ℕ) (L : Loads os t.option.module_file)
      → Named p ps t.machine
      → t.option.foreground ≡ false
      → closes os t ≡ true
      → creates os t ≡ true
      → t.running ≡ []
      → t.exiting ≡ []
      → ((p : ℕ) → K.child t.machine.world p ≡ false)
      → (u : State os) × (after_daemon_fork os rounds fuel t.option (pos 0) t
          ≡ and_then (main_loop os rounds fuel t.option false u) (λ _. finish os 0))
        × Launched K t.option serving L u
        × (calls serving.machine.events ≡ calls t.machine.events ++ served_calls)
  unfolding after_daemon_fork
  after_daemon_fork-Launched rounds fuel p ps L h fg c d r e none =
      let (u, eq, a) =
        run_master-Launched K t.option rounds fuel p ps serving L h fg r e
          (λ q. served-child q ∙ none q) in
      let (b, sent) = in_daemon-Begins os t 0 rounds fuel t.option h.0 (rw (c, d) refl) in
      (u, b ∙ ap (λ o. and_then o (λ _. finish os 0)) (main_routine rounds fuel fg ∙ eq), a, sent)
