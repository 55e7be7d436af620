-- ===== src/MasterWorkers/Launch.antt =====
-- `RunMaster` of examples/master-workers/master.cc, up to its main loop.
use mpic.Prelude.{
  Bool, true, ℕ, ◌≡◌, refl, sym, ap, subst, ◌∙◌, ◌&&◌, ◌||◌, false, List, [], ◌∷◌, ◌++◌, arith,
  pos_part, ℤ, bytes, length, replicate,
}
use mathlib.Core.List.{append_assoc}
use mpic.Prelude.State.{and_then, map_state, returned, returned_with}
use mpic.Os.{Os, block, catch_sigchld, fork}
use mpic.Os.Machine.{called}
use mpic.Os.Kernel.{IsKernel}
use mpic.Options
use mpic.Title.{Title}
use mpic.Title.Writing.{set-shown}
use mpic.Farewell.Title.{Named, get_exe_name-known, set_title-done}
use mpic.Master.Processes.{IsMap, has}
use mpic.Master.Workers
use mpic.Master.Workers.Table.{Spawned, spawn_times-Spawned}
use mpic.MasterWorkers.{
  State, Routine, lift, sigset, spawn_child_workers, spawn_times, main_loop, run_master,
}
use mpic.MasterWorkers.Likeness.{likeness, spawn_times-likeness}
use mpic.MasterWorkers.Killing.{likened}

or_false : (b : Bool) → (b || false) ≡ b
or_false true = refl
or_false false = refl

module _ {os : Os} (K : IsKernel os) (wm : Routine os ℤ) where
  -- The option's number of workers.
  abbrev asked : State os → ℕ
  asked s = pos_part s.option.worker_processes

  -- The state in which the main loop begins.
  pub record Manned (s t : State os) : Type 0 where
    pub count : length t.running ≡ asked s
    pub exiting : t.exiting ≡ []
    pub exact : (p : ℕ) → K.child t.machine.world p ≡ has t.running p
    pub events :
        t.machine.events
        ≡ s.machine.events
          ++ (called (block sigset) ∷ called catch_sigchld ∷ replicate (asked s) (called fork))

  -- The state once the title and the signals are set up.
  abbrev listening : State os → Title → State os
  listening s t =
      let w = (os.sys (block sigset) s.machine.world).1 in
      record s {
        machine = record s.machine {
          world = (os.sys catch_sigchld w).1;
          events = (s.machine.events ++ called (block sigset) ∷ []) ++ called catch_sigchld ∷ [];
          title = t;
        };
      }

  spawning :
      (s : State os) (title : Title)
      → s.running ≡ []
      → s.exiting ≡ []
      → ((p : ℕ) → K.child s.machine.world p ≡ false)
      → (t : State os) × (spawn_times os wm (asked s) s.option (listening s title) ≡ returned tt t)
        × Manned s t
  unfolding has
  spawning s title r e none =
      let v = likened (listening s title) in
      let (_, t, eq, a) =
        returned_with (λ _ t. Spawned K (has []) (asked s) v t)
          (Workers.spawn_times os (asked s) Options.new_options v)
          (spawn_times-Spawned K (has []) Options.new_options (asked s) v (record {
            sorted = subst IsMap (sym r) tt;
            apart = λ p. ap (λ m. has m p && has [] p) r;
            exact = λ p.
                K.sys_child catch_sigchld _ p refl
                ∙ K.sys_child (block sigset) _ p refl
                ∙ none p
                ∙ sym (ap (λ m. has m p || has [] p) r);
          })) in
      (
        likeness s.option t,
        spawn_times-likeness K wm s.option Options.new_options (asked s) v
            ∙ ap (map_state (likeness s.option)) eq,
        record {
          count = omega (arith, a.count, ap length r);
          exiting = a.exiting ∙ e;
          exact = λ p. a.table.exact p ∙ or_false (has t.running p);
          events = a.events ∙ simp append_assoc;
        },
      )

  -- With the static name known, the title's space set up, empty maps and no children, `RunMaster`
  -- comes to its main loop, on a kernel where every fork succeeds. The option's number of workers
  -- runs, none is exiting, and the kernel's children are those workers. It has first blocked the
  -- signals, then set the handler of SIGCHLD, and only then forked, and made no other call.
  pub run_master-Manned :
      (rounds fuel p : ℕ) (ps : List ℕ) (s : State os)
      → Named p ps s.machine
      → s.running ≡ []
      → s.exiting ≡ []
      → ((p : ℕ) → K.child s.machine.world p ≡ false)
      → (t : State os) × (run_master os wm rounds fuel s.option s
          ≡ main_loop os wm rounds fuel s.option false t)
        × Manned s t
  unfolding run_master spawn_child_workers
  run_master-Manned rounds fuel p ps s h r e none =
      let text =
        s.machine.exe_name
        ++ (bytes "("
            ++ (s.option.name ++ (bytes "): master process" ++ s.option.original_cmdline))) in
      let (title, done, _, _, _, _) = set-shown text s.machine.title p ps h.1 h.2 in
      let (t, eq, a) = spawning s title r e none in
      (
        t,
        rw (lift, get_exe_name-known s.machine h.0, set_title-done text s.machine title done)
            (ap (λ o. and_then o (λ _. main_loop os wm rounds fuel s.option false)) eq),
        a,
      )
