-- ===== src/Tests/Monitoring.antt =====
-- The theorems on the monitor, at one worker.
use mpic.Prelude.{◌≡◌, refl, false, true, List, [], ◌∷◌, ℤ, pos, bytes, arith, ◌==◌}
use mpic.Prelude.State.{Leaves, returned}
use mpic.Os.{Signal, sighup, sigterm, sigchld, kill, fork}
use mpic.Os.Machine.{Machine, M}
use mpic.Master.Frame.{calls}
use mpic.Monitor.{main_loop, run_monitor}
use mpic.Monitor.Launch.{run_monitor-Watched}
use mpic.Monitor.Watching.{IsOnly, Watched}
use mpic.Monitor.Stopping.{Ordered, main_loop-Ordered}
use mpic.Monitor.Reloading.{restarted, main_loop_restarts}
use mpic.Tests.Posix.{posix, kernel}
use mpic.Tests.Titles.{before}

-- Child 101 runs, and these signals come.
abbrev monitor : List Signal → Machine posix
monitor signals = record {
  world = record { next = 101; live = λ p. p == 101; dead = []; signals = signals };
  events = [];
  exe_name = bytes "monitor";
  flags_log_dir = [];
  title = record { mem = λ a. 0; argv = []; environ = []; attached = true; g_last = 0 };
}

abbrev worker : M posix ℤ
worker m = returned (pos 0) m

monitor-IsOnly : (signals : List Signal) → IsOnly kernel 101 (monitor signals)
monitor-IsOnly signals p = ground arith

-- No child runs yet.
abbrev fresh : Machine posix
fresh = record (monitor (sighup ∷ sigchld ∷ [])) {
  world = record { next = 100; live = λ p. false; dead = []; signals = sighup ∷ sigchld ∷ [] };
  title = before;
}

run_monitor-Watched_example : Watched kernel (run_monitor posix 3 worker fresh)
run_monitor-Watched_example =
    run_monitor-Watched kernel worker 3 100 (104 ∷ []) fresh refl (omega arith) (λ q. ground arith)

main_loop-Ordered_example :
    Leaves
      (Ordered {os = posix} worker 101 [] 3)
      (main_loop posix 3 worker 101 true (monitor (sigterm ∷ sighup ∷ [])))
main_loop-Ordered_example = main_loop-Ordered worker 101 3 (monitor (sigterm ∷ sighup ∷ []))

main_loop_restarts_example :
    (main_loop posix 2 worker 101 false (monitor (sighup ∷ sigchld ∷ []))
      ≡ main_loop posix 0 worker 102 false
          (restarted kernel worker 100 (monitor (sighup ∷ sigchld ∷ []))))
    × IsOnly kernel 102 (restarted kernel worker 100 (monitor (sighup ∷ sigchld ∷ [])))
    × (calls (restarted kernel worker 100 (monitor (sighup ∷ sigchld ∷ []))).events
        ≡ kill 101 sigterm ∷ fork ∷ [])
main_loop_restarts_example =
    main_loop_restarts kernel worker 100 (monitor (sighup ∷ sigchld ∷ [])) 0 17 17
      (monitor-IsOnly (sighup ∷ sigchld ∷ [])) refl refl refl refl refl refl
