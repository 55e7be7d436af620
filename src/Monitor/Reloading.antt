-- ===== src/Monitor/Reloading.antt =====
-- A SIGHUP to the monitor of examples/monitor-worker/monitor.cc, and the end of its child after it.
use mpic.Prelude.{ℕ, suc, ◌≡◌, refl, ◌∙◌, true, false, [], ◌∷◌, ◌++◌, arith, pos, ◌==◌, ℤ}
use mathlib.Core.List.{append_assoc}
use mpic.Os.{Os, fork, kill, sigterm, sighup, sigchld}
use mpic.Os.Kernel.{IsKernel, reports_end}
use mpic.Os.Machine.{Machine, M, called}
use mpic.Master.Frame.{calls, calls-append}
use mpic.Monitor.{main_loop, after_wait, dispatch, after_waitpid, child_ended}
use mpic.Monitor.Watching.{
  IsOnly, after_call, signalled, waited, spawn_child_worker_lem, kill-IsOnly,
}

module _ {os : Os} (K : IsKernel os) (wm : M os ℤ) (c : ℕ) (m : Machine os) where
  -- After the SIGHUP, after the SIGCHLD and its `waitpid`, and after the new start.
  abbrev pub told : Machine os
  told = after_call K (kill (suc c) sigterm) (signalled K m)

  abbrev pub ended : Machine os
  ended = waited K (signalled K told)

  abbrev pub restarted : Machine os
  restarted = after_call K fork ended

  -- If the monitor takes a SIGHUP and next a SIGCHLD, and `waitpid` then reports the end of its
  -- one child, the loop goes on with a new one, which is then the one child in the kernel's table.
  -- In between it has made two calls: SIGTERM to the old child, and the fork of the new one.
  pub main_loop_restarts :
      (rounds k l : ℕ)
      → IsOnly K (suc c) m
      → (os.sigwaitinfo m.world).0.result ≡ pos k
      → (os.sigwaitinfo m.world).0.signo ≡ sighup
      → (os.sigwaitinfo told.world).0.result ≡ pos l
      → (os.sigwaitinfo told.world).0.signo ≡ sigchld
      → (os.waitpid (signalled K told).world).0.0 ≡ pos (suc c)
      → reports_end (os.waitpid (signalled K told).world).0.1 ≡ true
      → (main_loop os (suc (suc rounds)) wm (suc c) false m
          ≡ main_loop os rounds wm (suc (K.fork_id ended.world)) false restarted)
        × IsOnly K (suc (K.fork_id ended.world)) restarted
        × (calls restarted.events ≡ calls m.events ++ kill (suc c) sigterm ∷ fork ∷ [])
  unfolding main_loop after_wait dispatch after_waitpid child_ended
  main_loop_restarts rounds k l only r1 s1 r2 s2 p e = (
    rw (r1, s1, r2, s2, p, e, here, spawn_child_worker_lem K wm ended) refl,
    λ q. ground (arith, K.fork_child ended.world q, gone q),
    calls-append (signalled K told).events _
        ∙ rw (calls-append m.events (called (kill (suc c) sigterm) ∷ []))
            (append_assoc (calls m.events) (kill (suc c) sigterm ∷ []) (fork ∷ [])),
  )
    where
      here : (suc c == suc c) ≡ true
      here = ground arith

      alone : (q : ℕ) → K.child (signalled K told).world q ≡ (q == suc c)
      alone q =
          K.sigwaitinfo_child told.world q
          ∙ (kill-IsOnly K (suc c) (suc c) sigterm (signalled K m)
              (λ r. K.sigwaitinfo_child m.world r ∙ only r) q)

      -- The table once the old child has been waited for.
      gone : (q : ℕ) → K.child ended.world q ≡ false
      gone q = K.waitpid_child (signalled K told).world q ∙ rw (p, e) (ground (arith, alone q))
