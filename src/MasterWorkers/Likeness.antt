-- ===== src/MasterWorkers/Likeness.antt =====
-- What the master of examples/master-workers/master.cc shares with that of mpic/master_linux.cc.
use mpic.Prelude.{ℕ, zero, suc, ◌≡◌, refl, Bool, true, false, ℤ, pos, negsuc, inl, inr, Bool-cases}
use mpic.Prelude.State.{map_state, map_state-and_then, pure}
use mpic.Os.{Os, WaitStatus}
use mpic.Os.Kernel.{IsKernel, reports_end}
use mpic.Options
use mpic.Master
use mpic.Master.Processes.{has, erase}
use mpic.Master.Workers
use mpic.Master.Signals
use mpic.Master.Signals.Supervised.{waited}
use mpic.MasterWorkers
use mpic.MasterWorkers.{State, Routine}
use mpic.MasterWorkers.CommandLine.{Options}

-- The state of this master that has the machine and the maps of the other.
abbrev pub likeness : {os : Os} → Options → Master.State os → State os
likeness op s = record {
  machine = s.machine;
  option = op;
  running = s.running;
  exiting = s.exiting;
}

module _ {os : Os} (K : IsKernel os) (wm : Routine os ℤ) (o : Options) (op : Options.Options) where
  spawn_child_worker-likeness :
      (s : Master.State os)
      → MasterWorkers.spawn_child_worker os wm o (likeness o s)
        ≡ map_state (likeness o) (Workers.spawn_child_worker os op s)
  unfolding MasterWorkers.spawn_child_worker Workers.spawn_child_worker
  spawn_child_worker-likeness s = rw (K.fork_result s.machine.world) refl

  pub spawn_times-likeness :
      (n : ℕ) (s : Master.State os)
      → MasterWorkers.spawn_times os wm n o (likeness o s)
        ≡ map_state (likeness o) (Workers.spawn_times os n op s)
  unfolding MasterWorkers.spawn_times Workers.spawn_times
  spawn_times-likeness zero s = refl
  spawn_times-likeness (suc n) s = rw (spawn_child_worker-likeness s) (
      map_state-and_then (likeness o) (Workers.spawn_child_worker os op s)
        (λ _. Workers.spawn_times os n op) (λ _. MasterWorkers.spawn_times os wm n o)
        (λ _ t. spawn_times-likeness n t))

  forget-likeness :
      (p : ℕ) (s : Master.State os)
      → MasterWorkers.forget os wm o p (likeness o s)
        ≡ map_state (likeness o) (Signals.forget os op p s)
  unfolding MasterWorkers.forget Signals.forget
  forget-likeness p s = elim (Bool-cases (has s.running p)) [
    | inl h ↦
        let t : Master.State os = record s {
          running = erase p s.running;
          exiting = erase p s.exiting;
        } in
        rw (h, spawn_child_worker-likeness t)
          (map_state-and_then (likeness o) (Workers.spawn_child_worker os op t) (λ _. pure tt)
            (λ _. pure tt) (λ _ t. refl))
    | inr h ↦ rw h refl
  ]

  reap-likeness :
      (r : ℤ × WaitStatus) (s : Master.State os)
      → MasterWorkers.reap os wm o r (likeness o s)
        ≡ map_state (likeness o) (Signals.reap os op r s)
  unfolding MasterWorkers.reap Signals.reap
  reap-likeness (negsuc n, st) s = refl
  reap-likeness (pos zero, st) s = refl
  reap-likeness (pos (suc n), st) s = elim (Bool-cases (reports_end st)) [
    | inl h ↦
        rw (h, forget-likeness (suc n) s)
          (map_state-and_then (likeness o) (Signals.forget os op (suc n) s) (λ _. pure true)
            (λ _. pure true) (λ _ t. refl))
    | inr h ↦ rw h refl
  ]

  next_round-likeness :
      (rest : Routine os (Unit {0})) (rest' : Master.Routine os (Unit {0}))
      → ((t : Master.State os) → rest (likeness o t) ≡ map_state (likeness o) (rest' t))
      → (more : Bool) (t : Master.State os)
      → let step : Routine os (Unit {0}) = elim more [ true ↦ rest | false ↦ pure tt ] in
        let step' : Master.Routine os (Unit {0}) = elim more [ true ↦ rest' | false ↦ pure tt ] in
        step (likeness o t) ≡ map_state (likeness o) (step' t)
  next_round-likeness rest rest' h true t = h t
  next_round-likeness rest rest' h false t = refl

  -- On a kernel where every fork succeeds, with any fuel, options and routine, this master's loop
  -- over `waitpid` is `HandleSIGCHLD` of the library: it comes out the same way, and leaves the
  -- same machine and the same maps.
  pub handle_sigchld-likeness :
      (fuel : ℕ) (s : Master.State os)
      → MasterWorkers.handle_sigchld os wm fuel o (likeness o s)
        ≡ map_state (likeness o) (Signals.handle_sigchld os fuel op s)
  unfolding MasterWorkers.handle_sigchld Signals.handle_sigchld
  handle_sigchld-likeness zero s = refl
  handle_sigchld-likeness (suc fuel) s =
      let t : Master.State os = waited os s in
      let r = (os.waitpid s.machine.world).0 in
      rw (reap-likeness r t) (
        map_state-and_then (likeness o) (Signals.reap os op r t) _ _ (
          next_round-likeness (MasterWorkers.handle_sigchld os wm fuel o)
            (Signals.handle_sigchld os fuel op) (handle_sigchld-likeness fuel)))
