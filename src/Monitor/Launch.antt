-- ===== src/Monitor/Launch.antt =====
-- `RunMonitor` of examples/monitor-worker/monitor.cc, from a process without children.
use mpic.Prelude.{ℕ, suc, ◌≤◌, ◌≡◌, refl, ◌∙◌, false, ◌∷◌, ◌++◌, arith, ℤ, List, bytes}
use mpic.Os.{Os, block, catch_sigchld, fork}
use mpic.Os.Kernel.{IsKernel}
use mpic.Os.Machine.{Machine, M}
use mpic.Title.Writing.{set-shown}
use mpic.Farewell.Title.{set_title-done}
use mpic.Monitor.{run_monitor, sigset}
use mpic.Monitor.Watching.{IsOnly, Watched, after_call, spawn_child_worker_lem, main_loop-Watched}

module _ {os : Os} (K : IsKernel os) where
  -- The first child is the only one.
  forked-IsOnly :
      (m : Machine os)
      → ((q : ℕ) → K.child m.world q ≡ false)
      → IsOnly K (suc (K.fork_id m.world)) (after_call K fork m)
  forked-IsOnly m none q = ground (arith, K.fork_child m.world q, none q)

  -- With the title's space set up and no children, `RunMonitor` over any number of rounds and signals
  -- never ends the process: the monitor has exactly one child between the rounds, and at most one
  -- when it returns.
  pub run_monitor-Watched :
      (wm : M os ℤ) (rounds p : ℕ) (ps : List ℕ) (m : Machine os)
      → m.title.argv ≡ p ∷ ps
      → p ≤ m.title.g_last
      → ((q : ℕ) → K.child m.world q ≡ false)
      → Watched K (run_monitor os rounds wm m)
  unfolding run_monitor
  run_monitor-Watched wm rounds p ps m attached room none =
      let text = m.exe_name ++ bytes "(mpic): monitor process" in
      let (t, done, _, _, _, _) = set-shown text m.title p ps attached room in
      let u = after_call K catch_sigchld (after_call K (block sigset) (record m { title = t })) in
      let alone : (q : ℕ) → K.child u.world q ≡ false = λ q.
        K.sys_child catch_sigchld _ q refl ∙ K.sys_child (block sigset) m.world q refl ∙ none q in
      rw (set_title-done text m t done, spawn_child_worker_lem K wm u)
        (main_loop-Watched K wm rounds (suc (K.fork_id u.world)) false (after_call K fork u)
          (forked-IsOnly u alone))
