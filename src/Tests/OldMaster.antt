-- ===== src/Tests/OldMaster.antt =====
-- The theorems on the master of examples/master-workers, at two workers.
use mpic.Prelude.{ℕ, ℤ, ◌≡◌, refl, true, false, ◌||◌, [], ◌∷◌, pos, arith, bytes}
use mpic.Prelude.State.{Returns, map_state, returned}
use mpic.Os.{kill, sigterm}
use mpic.Master.Frame.{calls}
use mpic.Master.Processes.{has}
use mpic.Master.Signals
use mpic.MasterWorkers.{
  State, Routine, run_master, main_loop, handle_sigchld, handle_sighub, kill_all_children,
}
use mpic.MasterWorkers.CommandLine.{Options, new_options, Flags, default_flags, init}
use mpic.MasterWorkers.Likeness.{likeness, handle_sigchld-likeness}
use mpic.MasterWorkers.Killing.{Renewed, kill_all_children_forgets, handle_sighub-Renewed}
use mpic.MasterWorkers.Launch.{Manned, run_master-Manned}
use mpic.MasterWorkers.Settings.{Settled, init-Settled}
use mpic.Tests.Posix.{posix, kernel}
use mpic.Tests.Starting.{machine, world}
use mpic.Tests.Titles.{before}
use mpic.Tests.Supervision.{op, processes, two_running, half_exiting}

abbrev two_workers : Options
two_workers = record new_options { worker_processes = pos 2 }

abbrev worker : Routine posix ℤ
worker s = returned (pos 0) s

handle_sigchld-likeness_example :
    handle_sigchld posix worker 3 two_workers (likeness two_workers (two_running (101 ∷ []) []))
    ≡ map_state
        (likeness two_workers)
        (Signals.handle_sigchld posix 3 op (two_running (101 ∷ []) []))
handle_sigchld-likeness_example =
    handle_sigchld-likeness kernel worker two_workers op 3 (two_running (101 ∷ []) [])

-- 101 runs, and 102 is exiting.
abbrev half : State posix
half = likeness two_workers (half_exiting [] [])

kill_all_children_forgets_example :
    Returns
      (λ _ u.
        (u.running ≡ [])
        × (u.exiting ≡ processes (101 ∷ []))
        × (calls u.machine.events ≡ kill 101 sigterm ∷ [])
        × ((p : ℕ)
            → has half.exiting p ≡ true
            → (kernel.child u.machine.world p ≡ true)
              × ((has u.running p || has u.exiting p) ≡ false)))
      (kill_all_children posix half)
unfolding has
kill_all_children_forgets_example =
    kill_all_children_forgets kernel half (λ p. ground arith) (λ p. ground arith)

abbrev both : State posix
both = likeness two_workers (two_running [] [])

handle_sighub-Renewed_example :
    Returns (λ _ u. Renewed kernel 2 both u) (handle_sighub posix worker two_workers both)
unfolding has
handle_sighub-Renewed_example = handle_sighub-Renewed kernel worker both refl (λ p. ground arith)

-- Two workers to start, and the title's space.
abbrev started : State posix
started = record {
  machine = record (machine posix world) { title = before };
  option = two_workers;
  running = [];
  exiting = [];
}

run_master-Manned_example :
    (t : State posix) × (run_master posix worker 9 5 two_workers started
      ≡ main_loop posix worker 9 5 two_workers false t)
    × Manned kernel worker started t
run_master-Manned_example =
    run_master-Manned kernel worker 9 5 100 (104 ∷ []) started (refl, refl, omega arith) refl refl
      (λ p. ground arith)

-- No name, so that of the configuration file.
abbrev flags : Flags
flags = record default_flags { config_file = bytes "/etc/echo.conf"; kill = true; debug = true }

init-Settled_example :
    Returns
      (Settled flags [] (machine posix world))
      (init posix flags [] new_options (machine posix world))
init-Settled_example = init-Settled flags [] (machine posix world) (omega arith)
