-- ===== src/Monitor/Watching.antt =====
-- The children of the monitor in examples/monitor-worker/monitor.cc.
use mpic.Prelude.{
  ℕ, zero, suc, ◌≡◌, refl, ◌∙◌, Bool, true, false, not, [], ◌∷◌, ◌++◌, ◌&&◌, arith, ℤ, pos, negsuc,
  ◌==◌, if◌then◌else◌, pos_part, is_positive, inl, inr, Bool-cases,
}
use mpic.Prelude.State.{Outcome, returned, exited, aborted, unfinished, and_then, pure}
use mpic.Os.{
  Os, Call, fork, kill, Signal, sigterm, sighup, sigchld, sigint, sigquit, other, WaitStatus,
}
use mpic.Os.Kernel.{IsKernel, reports_end}
use mpic.Os.Machine.{Machine, M, called}
use mpic.Monitor.{
  Next, again, return_, spawn_child_worker, child_ended, after_waitpid, dispatch, after_wait,
  main_loop,
}

module _ {os : Os} (K : IsKernel os) where
  -- The kernel has the one child `c`, and at most one child.
  abbrev pub IsOnly : ℕ → Machine os → Type 0
  IsOnly c m = (p : ℕ) → K.child m.world p ≡ (p == c)

  abbrev pub AtMostOne : Machine os → Type 0
  AtMostOne m = (p q : ℕ) → K.child m.world p ≡ true → K.child m.world q ≡ true → p ≡ q

  -- What a round, and what the loop, may come to.
  abbrev pub RoundWatched : Outcome Next (Machine os) → Type 0
  RoundWatched (returned (again c e) m) = IsOnly c m
  RoundWatched (returned (return_ code) m) = AtMostOne m
  RoundWatched (exited code m) = ⊥
  RoundWatched (aborted m) = ⊥
  RoundWatched (unfinished m) = ⊥

  abbrev pub Watched : Outcome ℤ (Machine os) → Type 0
  Watched (returned code m) = AtMostOne m
  Watched (exited code m) = ⊥
  Watched (aborted m) = ⊥
  Watched (unfinished m) = (c : ℕ) × IsOnly c m

  only_one : (c : ℕ) (m : Machine os) → IsOnly c m → AtMostOne m
  only_one c m h p q a b = ground (arith, h p, h q)

  -- The machine after `fork` and after another call.
  abbrev pub after_call : Call → Machine os → Machine os
  after_call c m = record m { world = (os.sys c m.world).1; events = m.events ++ (called c ∷ []) }

  abbrev pub waited : Machine os → Machine os
  waited m = record m { world = (os.waitpid m.world).1 }

  abbrev pub signalled : Machine os → Machine os
  signalled m = record m { world = (os.sigwaitinfo m.world).1 }

  -- The parent's side of a spawn.
  pub spawn_child_worker_lem :
      (wm : M os ℤ) (m : Machine os)
      → spawn_child_worker os wm m ≡ returned (suc (K.fork_id m.world)) (after_call fork m)
  unfolding spawn_child_worker
  spawn_child_worker_lem wm m = rw (K.fork_result m.world) refl

  pub kill-IsOnly :
      (c p : ℕ) (s : Signal) (m : Machine os) → IsOnly c m → IsOnly c (after_call (kill p s) m)
  kill-IsOnly c p s m h q = K.sys_child (kill p s) m.world q refl ∙ h q

  -- The end of `pid`, with the table as `waitpid` leaves it.
  child_ended-Watched :
      (wm : M os ℤ) (c pid : ℕ) (exiting same : Bool) (m : Machine os)
      → (pid == c) ≡ same
      → ((p : ℕ) → K.child m.world p ≡ (not (p == pid) && (p == c)))
      → RoundWatched (child_ended os wm c exiting pid m)
  unfolding child_ended
  child_ended-Watched wm c pid true same m e h = λ p q a b. ground (arith, h p, h q)
  child_ended-Watched wm c pid false true m e h =
      rw (e, spawn_child_worker_lem wm m) (λ p. ground (arith, K.fork_child m.world p, h p))
  child_ended-Watched wm c pid false false m e h = rw e (λ p. ground (arith, h p))

  after_waitpid-Watched :
      (wm : M os ℤ) (c : ℕ) (exiting : Bool) (r : ℤ × WaitStatus) (m : Machine os)
      → ((p : ℕ)
          → K.child m.world p ≡ (
              if is_positive r.0 && reports_end r.1
              then not (p == pos_part r.0) && (p == c)
              else p == c))
      → RoundWatched (after_waitpid os wm c exiting r m)
  unfolding after_waitpid
  after_waitpid-Watched wm c exiting (negsuc n, st) m h = h
  after_waitpid-Watched wm c exiting (pos zero, st) m h = h
  after_waitpid-Watched wm c exiting (pos (suc n), st) m h = elim (Bool-cases (reports_end st)) [
    | inl e ↦ rw e (child_ended-Watched wm c (suc n) exiting _ m refl (λ p. ground (arith, h p)))
    | inr e ↦ rw e (λ p. ground (arith, h p))
  ]

  dispatch-Watched :
      (wm : M os ℤ) (c : ℕ) (exiting : Bool) (sig : Signal) (m : Machine os)
      → IsOnly c m
      → RoundWatched (dispatch os wm c exiting sig m)
  unfolding dispatch
  dispatch-Watched wm c exiting sigchld m h =
      after_waitpid-Watched wm c exiting (os.waitpid m.world).0 (waited m)
        (λ p. ground (arith, K.waitpid_child m.world p, h p))
  dispatch-Watched wm c exiting sighup m h = kill-IsOnly c c sigterm m h
  dispatch-Watched wm c exiting sigterm m h = kill-IsOnly c c sigterm m h
  dispatch-Watched wm c exiting sigint m h = kill-IsOnly c c sigterm m h
  dispatch-Watched wm c exiting sigquit m h = kill-IsOnly c c sigterm m h
  dispatch-Watched wm c exiting (other n) m h = kill-IsOnly c c sigterm m h

  interrupted-Watched :
      (b : Bool) (c : ℕ) (exiting : Bool) (m : Machine os)
      → IsOnly c m
      → RoundWatched (returned (if b then again c exiting else return_ (pos 1)) m)
  interrupted-Watched true c exiting m h = h
  interrupted-Watched false c exiting m h = only_one c m h

  after_wait-Watched :
      (wm : M os ℤ) (c : ℕ) (exiting : Bool) (r : ℤ) (b : Bool) (sig : Signal) (m : Machine os)
      → IsOnly c m
      → RoundWatched
          (after_wait os wm c exiting (record { result = r; interrupted = b; signo = sig }) m)
  unfolding after_wait
  after_wait-Watched wm c exiting (negsuc n) b sig m h = interrupted-Watched b c exiting m h
  after_wait-Watched wm c exiting (pos n) b sig m h = dispatch-Watched wm c exiting sig m h

  loop_on-Watched :
      (o : Outcome Next (Machine os)) (rest : ℕ → Bool → M os ℤ)
      → RoundWatched o
      → ((c : ℕ) (e : Bool) (m : Machine os) → IsOnly c m → Watched (rest c e m))
      → Watched (and_then o (λ next. elim next [ again c e ↦ rest c e | return_ code ↦ pure code ]))
  loop_on-Watched (returned (again c e) m) rest h ih = ih c e m h
  loop_on-Watched (returned (return_ code) m) rest h ih = h
  loop_on-Watched (exited code m) rest h ih = h
  loop_on-Watched (aborted m) rest h ih = h
  loop_on-Watched (unfinished m) rest h ih = absurd h

  -- With one child in the kernel's table, the monitor's, the loop over any number of rounds and
  -- whatever signals come never ends the process. While it goes on the table has exactly one
  -- child: one that ends is replaced at once. When it returns the table has at most one.
  pub main_loop-Watched :
      (wm : M os ℤ) (rounds c : ℕ) (exiting : Bool) (m : Machine os)
      → IsOnly c m
      → Watched (main_loop os rounds wm c exiting m)
  unfolding main_loop
  main_loop-Watched wm zero c exiting m h = (c, h)
  main_loop-Watched wm (suc rounds) c exiting m h =
      loop_on-Watched (after_wait os wm c exiting (os.sigwaitinfo m.world).0 (signalled m))
        (main_loop os rounds wm)
        (after_wait-Watched wm c exiting _ _ _ (signalled m)
          (λ p. K.sigwaitinfo_child m.world p ∙ h p))
        (main_loop-Watched wm rounds)
