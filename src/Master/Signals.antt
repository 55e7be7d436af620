-- ===== src/Master/Signals.antt =====
-- `RunMaster`, `HandleSIGHUB` and `HandleSIGCHLD` of mpic/master_linux.cc.
pub mod Supervised
pub mod Forgetting
pub mod Reaping
pub mod Replacing
pub mod Reload
pub mod Reloading
pub mod Shutdown
pub mod Calm
pub mod Lifetime
pub mod Refinement
pub mod Launch
use mpic.Prelude.{
  ℕ, zero, suc, Bool, true, false, not, is_empty, [], ◌++◌, ℤ, pos, negsuc, bytes, if◌then◌else◌,
}
use mpic.Prelude.State.{returned, unfinished, ◌>>=◌, ◌>>◌, pure, modify}
use mpic.Os.{
  Os, Signal, sigchld, sigterm, sighup, sigint, sigquit, other, WaitStatus, SigInfo, block,
  catch_sigchld, sleep, uninit,
}
use mpic.Os.Kernel.{reports_end}
use mpic.Os.Machine
use mpic.Os.Machine.{set_title}
use mpic.Options.{Options, get_exe_name}
use mpic.Master.{State, Routine, lift, sys, invoke}
use mpic.Master.Processes.{ProcessMap, has, erase}
use mpic.Master.Loader.{init_module, load_module}
use mpic.Master.Workers.{sigset, run_module, spawn_child_worker, spawn_child_workers, kill_children}

-- What a round of the main loop comes to: another round with this `exiting`, or a return.
pub data Next : Type 0 where
  again : Bool → Next
  return_ : ℤ → Next

module _ (os : Os) where
  -- The end of child `pid`, which has left the kernel's table.
  unfoldable pub forget : Options → ℕ → Routine os (Unit {0})
  forget op pid s =
      let s₁ : State os = record s { exiting = erase pid s.exiting } in
      if has s₁.running pid
      then (do _ ← spawn_child_worker os op; pure tt) (record s₁ { running = erase pid s₁.running })
      else returned tt s₁

  -- A round of the loop of `HandleSIGCHLD`; the result says whether there is another.
  unfoldable pub reap : Options → ℤ × WaitStatus → Routine os Bool
  unfolding forget
  reap op (negsuc n, st) = pure false
  reap op (pos zero, st) = pure false
  reap op (pos (suc n), st) =
      if reports_end st then (do forget op (suc n); pure true) else pure true

  unfoldable pub handle_sigchld : ℕ → Options → Routine os (Unit {0})
  unfolding reap
  handle_sigchld zero op = unfinished
  handle_sigchld (suc fuel) op = do
    r ← lift os (Machine.waitpid os)
    more ← reap op r
    elim more [ true ↦ handle_sigchld fuel op | false ↦ pure tt ]

  -- The part of `HandleSIGHUB` after the new module is in place.
  unfoldable pub replace_workers : Options → ProcessMap → Routine os (Unit {0})
  replace_workers op m = do
    modify (λ s. record s { running = [] })
    spawn_child_workers os op
    _ ← sys os (sleep 3)
    kill_children os m

  unfoldable pub handle_sighub : Options → Routine os (Unit {0})
  handle_sighub op s =
      if not (is_empty s.exiting)
      then returned tt s
      else (do
        ok ← init_module os
        if not ok
            then modify (λ t. record t { module_ptr = s.module_ptr })
            else do _ ← invoke os s.module_ptr (uninit s.module_ptr); replace_workers op s.running)
          s

  unfoldable pub handle_sigterm : Routine os (Unit {0})
  handle_sigterm s = (do kill_children os s.running; modify (λ t. record t { running = [] })) s

  -- `fuel` bounds the rounds of `HandleSIGCHLD`.
  unfoldable pub dispatch : ℕ → Options → Bool → Signal → Routine os Next
  unfolding handle_sigterm
  dispatch fuel op stopping sigchld = do
    handle_sigchld fuel op
    pure (if stopping then return_ (pos 0) else again false)
  dispatch fuel op stopping sighup = do handle_sighub op; pure (again stopping)
  dispatch fuel op stopping sigterm = do handle_sigterm; pure (again true)
  dispatch fuel op stopping sigint = pure (again stopping)
  dispatch fuel op stopping sigquit = pure (again stopping)
  dispatch fuel op stopping (other n) = pure (again stopping)

  unfoldable pub after_wait : ℕ → Options → Bool → SigInfo → Routine os Next
  unfolding dispatch
  after_wait fuel op stopping info = elim info.result [
    | negsuc n ↦ pure (if info.interrupted then again stopping else return_ (pos 1))
    | pos n ↦ dispatch fuel op stopping info.signo
  ]

  -- A round of `while (true)` in `RunMaster`.
  unfoldable pub round : ℕ → Options → Bool → Routine os Next
  unfolding after_wait
  round fuel op stopping = do
    info ← lift os (Machine.sigwaitinfo os)
    after_wait fuel op stopping info

  unfoldable pub main_loop : ℕ → ℕ → Options → Bool → Routine os ℤ
  unfolding round
  main_loop zero fuel op stopping = unfinished
  main_loop (suc rounds) fuel op stopping = do
    next ← round fuel op stopping
    elim next [ again e ↦ main_loop rounds fuel op e | return_ code ↦ pure code ]

  unfoldable pub run_workers : ℕ → ℕ → Options → Routine os ℤ
  unfolding main_loop
  run_workers rounds fuel op = do
    _ ← sys os (block sigset)
    _ ← sys os catch_sigchld
    spawn_child_workers os op
    main_loop rounds fuel op false

  unfoldable pub run_loaded : ℕ → ℕ → Options → Routine os ℤ
  unfolding run_workers
  run_loaded rounds fuel op s =
      if s.option.foreground then run_module os s else run_workers rounds fuel op s

  -- `RunMaster`. `rounds` bounds the signals that it takes.
  unfoldable pub run_master : ℕ → ℕ → Options → Routine os ℤ
  unfolding run_loaded
  run_master rounds fuel op = do
    exe ← lift os (get_exe_name os)
    lift os (
        set_title os
          (exe ++ (bytes "(" ++ (op.name ++ (bytes "): master process" ++ op.original_cmdline)))))
    loaded ← load_module os
    if not loaded then pure (pos 1) else run_loaded rounds fuel op
