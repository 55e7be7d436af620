-- ===== src/Master/Windows/Serving.antt =====
-- `Run` of mpic/master_win32.cc, from `LoadModule` to `Uninit`.
use mpic.Prelude.{
  Bytes, bytes, is_empty, if◌then◌else◌, ℤ, ◌≡◌, refl, subst, sym, not, Bool, true, false, suc,
  some, List, [], ◌∷◌, ◌++◌, pos,
}
use mathlib.Core.List.{append_assoc}
use mpic.Prelude.State.{and_then, ◌>>=◌, pure, Returns, Returns-mono}
use mpic.Os
use mpic.Os.{Os, init_in_worker, uninit}
use mpic.Os.Machine.{Event, invoked}
use mpic.Master.{State, lift}
use mpic.Master.Loader.Parts.{opened}
use mpic.Master.Loader.Lifecycle.{Loads, loading, with_module, load_module_lem}
use mpic.Options.Windows.{get_exe_name}
use mpic.Master.Windows.{serve, run_master, run_main_routine, run_foreground, run}

module _ {os : Os} (s : State os) (L : Loads os s.option.module_file) where
  -- The calls of the module that serve.
  abbrev pub serving : List Event
  serving =
      invoked (init_in_worker (suc L.module_ptr))
      ∷ invoked (Os.run (suc L.module_ptr))
      ∷ invoked (uninit (suc L.module_ptr))
      ∷ []

  -- What `RunMaster` returns and leaves.
  pub record Served (r : ℤ) (u : State os) : Type 0 where
    pub code : r ≡ pos 0
    pub events : u.machine.events ≡ s.machine.events ++ loading s L ++ serving
    pub module_ptr : u.module_ptr ≡ 0
    pub resource : u.resource ≡ 0
    pub dlmodule : u.dlmodule ≡ some (opened s.option.module_file L.handle)

  module _ (begun ran : ℤ)
      (begins : (w : os.World) → (os.method (init_in_worker (suc L.module_ptr)) w).0 ≡ some begun)
      (runs : (w : os.World) → (os.method (Os.run (suc L.module_ptr)) w).0 ≡ some ran) where
    serve-Served : Returns Served (serve os (with_module s L))
    unfolding serve
    serve-Served =
        let v = (os.method (init_in_worker (suc L.module_ptr)) (with_module s L).machine.world).1 in
        let w = (os.method (Os.run (suc L.module_ptr)) v).1 in
        rw (begins (with_module s L).machine.world, runs v, L.ends_module w)
          (record {
            code = refl;
            events = simp append_assoc;
            module_ptr = refl;
            resource = refl;
            dlmodule = refl;
          })

    run_master-Served : Returns Served (run_master os s.option s)
    unfolding run_master
    run_master-Served =
        subst
          (λ o.
            Returns Served (and_then o (λ loaded. if not loaded then pure (pos 1) else serve os)))
          (sym (load_module_lem s L)) serve-Served

module _ {os : Os} (s : State os) (L : Loads os s.option.module_file) where
  -- The state in which `RunMaster` begins, with this static name.
  abbrev named : Bytes → State os
  named name = record s {
    machine = record s.machine { exe_name = name; flags_log_dir = s.option.log_dir };
  }

  -- Over a library that loads, and whose module throws nothing, `Run` on Windows returns 0, whatever
  -- the module's `Run` returns and whatever the options ask for. It has loaded the module, called
  -- `InitInWorker`, `Run` and `Uninit` of it, in this order and once each, and reset both objects.
  pub run-Served :
      (begun ran : ℤ)
      → ((w : os.World) → (os.method (init_in_worker (suc L.module_ptr)) w).0 ≡ some begun)
      → ((w : os.World) → (os.method (Os.run (suc L.module_ptr)) w).0 ≡ some ran)
      → Returns (Served s L) (run os s)
  unfolding run run_foreground run_main_routine get_exe_name
  run-Served begun ran begins runs = go s.option.foreground
    where
      from_named : (name : Bytes) → Returns (Served s L) (run_master os s.option (named name))
      from_named name =
          Returns-mono (Served (named name) L) (Served s L) (run_master os s.option (named name))
            (run_master-Served (named name) L begun ran begins runs)
            (λ r u a. record {
              code = a.code;
              events = a.events;
              module_ptr = a.module_ptr;
              resource = a.resource;
              dlmodule = a.dlmodule;
            })

      go :
          (b : Bool)
          → Returns (Served s L) (
              and_then
                ((if b then (do _ ← lift os (get_exe_name os); pure tt) else pure tt)
                  (named s.machine.exe_name))
                (λ _. run_master os s.option))
      go true =
          from_named (if is_empty s.machine.exe_name then bytes "mpic" else s.machine.exe_name)
      go false = from_named s.machine.exe_name
