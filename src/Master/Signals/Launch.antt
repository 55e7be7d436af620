-- ===== src/Master/Signals/Launch.antt =====
-- `RunMaster` of mpic/master_linux.cc, up to its main loop.
use mpic.Prelude.{
  ℕ, suc, ◌≡◌, refl, sym, ap, subst, ◌∙◌, false, ◌&&◌, ◌||◌, List, [], ◌∷◌, ◌++◌, arith, bytes,
  length, replicate, if_not,
}
use mathlib.Core.List.{append_assoc}
use mpic.Prelude.State.{and_then, returned_with}
use mpic.Os.{
  Os, block, catch_sigchld, fork, file_exists, file_readable, new_object, resource_init,
  set_resource, init_in_master,
}
use mpic.Os.Machine.{called}
use mpic.Os.Kernel.{IsKernel}
use mpic.Options.{Options}
use mpic.Title.{Title}
use mpic.Title.Writing.{set-shown}
use mpic.Farewell.Title.{Named, get_exe_name-known, set_title-done}
use mpic.Master.{State, lift}
use mpic.Master.Processes.{IsMap, has}
use mpic.Master.Loader.Lifecycle.{Loads, loading, with_module, load_module_lem}
use mpic.Master.Workers.{sigset, run_module, spawn_child_workers}
use mpic.Master.Workers.Table.{Table, Spawned, spawn_child_workers-Spawned}
use mpic.Master.Signals.{run_master, run_loaded, run_workers, main_loop}
use mpic.Master.Signals.Supervised.{Supervised}
use mpic.Master.Signals.Reloading.{workers}

module _ {os : Os} (K : IsKernel os) (op : Options) where
  -- The state in which the main loop begins.
  pub record Launched (s : State os) (L : Loads os s.option.module_file) (t : State os)
      : Type 0 where
    pub supervised : Supervised K (workers K op) t
    pub exiting : t.exiting ≡ []
    pub module_ptr : t.module_ptr ≡ suc L.module_ptr
    pub events :
        t.machine.events
        ≡ s.machine.events
          ++ (loading s L
              ++ (called (block sigset)
                  ∷ called catch_sigchld
                  ∷ replicate (workers K op) (called fork)))

  -- The kernel's children after `LoadModule` are those before it.
  with_module-child :
      (s : State os) (L : Loads os s.option.module_file) (p : ℕ)
      → K.child (with_module s L).machine.world p ≡ K.child s.machine.world p
  with_module-child s L p =
      K.method_child (init_in_master (suc L.module_ptr)) _ p
      ∙ K.method_child (set_resource (suc L.module_ptr) (suc L.resource)) _ p
      ∙ K.method_child (new_object (suc L.module_factory)) _ p
      ∙ K.dlsym_child (suc L.handle) (bytes "MPIC_NewModule") _ p
      ∙ K.method_child (resource_init (suc L.resource)) _ p
      ∙ K.method_child (new_object (suc L.resource_factory)) _ p
      ∙ K.dlsym_child (suc L.handle) (bytes "MPIC_NewResource") _ p
      ∙ K.dlopen_child s.option.module_file _ p
      ∙ K.sys_child (file_readable s.option.module_file) _ p refl
      ∙ K.sys_child (file_exists s.option.module_file) s.machine.world p refl

  -- The state once the signals are set up.
  abbrev listening : State os → State os
  listening s =
      let w = (os.sys (block sigset) s.machine.world).1 in
      record s {
        machine = record s.machine {
          world = (os.sys catch_sigchld w).1;
          events =
              (s.machine.events ++ (called (block sigset) ∷ [])) ++ (called catch_sigchld ∷ []);
        };
      }

  listening-Table :
      (s : State os) (L : Loads os s.option.module_file)
      → s.running ≡ []
      → s.exiting ≡ []
      → ((p : ℕ) → K.child s.machine.world p ≡ false)
      → Table K (has s.exiting) (listening (with_module s L))
  unfolding has
  listening-Table s L r e none = record {
    sorted = subst IsMap (sym r) tt;
    apart = λ p. ap (λ m. has m p && has s.exiting p) r;
    exact = λ p.
        K.sys_child catch_sigchld _ p refl
        ∙ K.sys_child (block sigset) _ p refl
        ∙ with_module-child s L p
        ∙ none p
        ∙ sym (ap (λ m. has m p || has s.exiting p) r ∙ ap (λ m. has m p) e);
  }

  run_workers-Launched :
      (rounds fuel : ℕ) (s : State os) (L : Loads os s.option.module_file)
      → s.running ≡ []
      → s.exiting ≡ []
      → ((p : ℕ) → K.child s.machine.world p ≡ false)
      → (t : State os) × (run_workers os rounds fuel op (with_module s L)
          ≡ main_loop os rounds fuel op false t)
        × Launched s L t
  unfolding run_workers
  run_workers-Launched rounds fuel s L r e none =
      let u = listening (with_module s L) in
      let (_, t, eq, a) =
        returned_with (λ _ t. Spawned K (has s.exiting) (workers K op) u t)
          (spawn_child_workers os op u)
          (spawn_child_workers-Spawned K (has s.exiting) op u (listening-Table s L r e none)) in
      (
        t,
        ap (λ o. and_then o (λ _. main_loop os rounds fuel op false)) eq,
        record {
          supervised = record {
            table = subst (λ m. Table K (has m) t) (sym a.exiting) a.table;
            sorted = subst IsMap (sym (a.exiting ∙ e)) tt;
            count = omega (arith, a.count, ap length r);
          };
          exiting = a.exiting ∙ e;
          module_ptr = a.same.module_ptr;
          events = a.events ∙ simp append_assoc;
        },
      )

  -- The state once the title is set.
  abbrev titled : State os → Title → State os
  titled s t = record s { machine = record s.machine { title = t } }

  -- Over a library that loads, with the static name known, the title's space set up, not in the
  -- foreground, with empty maps and no children, `RunMaster` comes to its main loop, in a state with
  -- the invariant: the option's number of workers runs, none is exiting, and the kernel's children
  -- are those workers. It has loaded the module first, then blocked the signals and set the handler
  -- of SIGCHLD, and only then forked the workers, and nothing else in between.
  pub run_master-Launched :
      (rounds fuel p : ℕ) (ps : List ℕ) (s : State os) (L : Loads os s.option.module_file)
      → Named p ps s.machine
      → s.option.foreground ≡ false
      → s.running ≡ []
      → s.exiting ≡ []
      → ((p : ℕ) → K.child s.machine.world p ≡ false)
      → (t : State os) × (run_master os rounds fuel op s ≡ main_loop os rounds fuel op false t)
        × Launched s L t
  unfolding run_master run_loaded
  run_master-Launched rounds fuel p ps s L h fg r e none =
      let text =
        s.machine.exe_name
        ++ (bytes "(" ++ (op.name ++ (bytes "): master process" ++ op.original_cmdline))) in
      let (title, done, _, _, _, _) = set-shown text s.machine.title p ps h.1 h.2 in
      let u = titled s title in
      let (t, eq, a) = run_workers-Launched rounds fuel u L r e none in
      (
        t,
        rw
              (
                lift,
                get_exe_name-known s.machine h.0,
                set_title-done text s.machine title done,
                load_module_lem u L,
              )
              refl
            ∙ (if_not (run_module os (with_module u L))
                  (run_workers os rounds fuel op (with_module u L)) s.option.foreground fg
                ∙ eq),
        record {
          supervised = a.supervised;
          exiting = a.exiting;
          module_ptr = a.module_ptr;
          events = a.events;
        },
      )
