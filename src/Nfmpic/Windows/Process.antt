-- ===== src/Nfmpic/Windows/Process.antt =====
-- The whole process of apps/nfmpic on Windows, where the files and the library are there.
use mpic.Prelude.{
  ◌≡◌, refl, sym, ap, subst, ◌∙◌, Bool, true, false, if◌then◌else◌, negsuc, Option, some, none,
  List, [], ◌∷◌, ◌++◌, Bytes, ℤ, ℕ, suc, pos,
}
use mathlib.Core.List.{append_assoc}
use mpic.Prelude.State.{Returns, Returns-and_then, Returns-mono, pure}
use mpic.Os
use mpic.Os.{Os, init_in_worker, wsa_startup, free_library}
use mpic.Os.Machine.{Machine, Event, called}
use mpic.Options.{new_options, VariablesMap}
use mpic.Options.Resolving.{AllNonEmpty}
use mpic.Options.Starting.{given_options, Ready, checks}
use mpic.Options.Windows.Starting.{StartedHere, init-StartedHere}
use mpic.Options.Windows as Settings
use mpic.Master.{State, lift}
use mpic.Master.Windows as Master
use mpic.Master.Lifting.{lift-Returns, with_option}
use mpic.DynLib.{unload_on_windows}
use mpic.Master.Loader.Parts.{opened}
use mpic.Master.Loader.Lifecycle.{Loads, loading}
use mpic.Master.Loader.Unloading.{unload_on_windows_lem, unload_module_by_frees}
use mpic.Master.Windows.Serving.{Served, serving, run-Served}
use mpic.Nfmpic.Windows.{main, program, on_startup}

module _ {os : Os} (s : State os) (argv : List Bytes) (vm : VariablesMap)
    (L : Loads os (given_options argv vm).module_file) where
  -- The state in which `Run` begins, up to the rest of the machine.
  abbrev at_run : Machine os → State os
  at_run m = record s {
    machine = m;
    option = record (given_options argv vm) { initialized = true };
  }

  -- All calls of the process.
  abbrev pub process_calls : List Event
  process_calls =
      called wsa_startup ∷ checks (given_options argv vm)
      ++ (loading (at_run s.machine) L
          ++ serving (at_run s.machine) L
          ++ called (free_library (suc L.handle)) ∷ [])

  -- What the process leaves.
  pub record Ended (code : ℤ) (u : State os) : Type 0 where
    pub success : code ≡ pos 0
    pub events : u.machine.events ≡ s.machine.events ++ process_calls
    pub module_ptr : u.module_ptr ≡ 0
    pub resource : u.resource ≡ 0
    pub dlmodule : u.dlmodule ≡ none

  abbrev Begun : Machine os → Bool → State os → Type 0
  Begun m ok u =
      (n : Machine os) × (ok ≡ true)
      × (u ≡ at_run n)
      × (n.events ≡ m.events ++ checks (given_options argv vm))

  init-Begun :
      (parse : List Bytes → Option VariablesMap) (R : Ready os (given_options argv vm))
      (m : Machine os)
      → parse argv ≡ some vm
      → vm.help ≡ false
      → AllNonEmpty vm
      → Returns (Begun m) (Master.init os parse argv new_options (record s { machine = m }))
  unfolding Master.init
  init-Begun parse R m parsed no_help given =
      let t : State os = record s { machine = m; option = new_options } in
      Returns-and_then _ (Begun m) (lift os (Settings.init os parse argv new_options) t) _
        (lift-Returns (StartedHere (given_options argv vm) m)
          (Settings.init os parse argv new_options) t
          (init-StartedHere parse argv vm R m parsed no_help given))
        (λ r u (n, e, a). (
          n,
          ap (λ x. x.0) a.0,
          ap (with_option r.1) e ∙ ap (λ x. with_option x.1 (record s { machine = n })) a.0,
          a.1,
        ))

  -- What `main` leaves, where `Init` began with this machine.
  abbrev Ran : Machine os → ℤ → State os → Type 0
  Ran m code u =
      (n : Machine os) × Served (at_run n) L code u
      × (n.events ≡ m.events ++ checks (given_options argv vm))

  main-Ran :
      (parse : List Bytes → Option VariablesMap) (R : Ready os (given_options argv vm))
      (begun ran : ℤ) (m : Machine os)
      → parse argv ≡ some vm
      → vm.help ≡ false
      → AllNonEmpty vm
      → ((w : os.World) → (os.method (init_in_worker (suc L.module_ptr)) w).0 ≡ some begun)
      → ((w : os.World) → (os.method (Os.run (suc L.module_ptr)) w).0 ≡ some ran)
      → Returns (Ran m) (main os parse argv (record s { machine = m }))
  unfolding main
  main-Ran parse R begun ran m parsed no_help given begins runs =
      Returns-and_then (Begun m) (Ran m)
        (Master.init os parse argv new_options (record s { machine = m })) _
        (init-Begun parse R m parsed no_help given)
        (λ ok u (n, done, e, ev).
          subst (λ b. Returns (Ran m) ((if b then Master.run os else pure (negsuc 0)) u)) (sym done)
            (subst (λ v. Returns (Ran m) (Master.run os v)) (sym e)
              (Returns-mono (Served (at_run n) L) (Ran m) _
                (run-Served (at_run n) L begun ran begins runs) (λ r v a. (n, a, ev)))))

  -- On Windows, with a command line that can be parsed, asks for no help and gives no empty path,
  -- where the log directory is there, the two files can be read, the library loads, its module throws
  -- nothing and `FreeLibrary` answers a number other than 0: the process of nfmpic ends with 0. It has
  -- started the sockets, tested the files, loaded the module, called `InitInWorker`, `Run` and
  -- `Uninit` of it, once each, and freed the library once, with no object of it left.
  pub program-Ended :
      (parse : List Bytes → Option VariablesMap) (R : Ready os (given_options argv vm))
      (begun ran : ℤ) (freed : ℕ)
      → parse argv ≡ some vm
      → vm.help ≡ false
      → AllNonEmpty vm
      → ((w : os.World) → (os.method (init_in_worker (suc L.module_ptr)) w).0 ≡ some begun)
      → ((w : os.World) → (os.method (Os.run (suc L.module_ptr)) w).0 ≡ some ran)
      → ((w : os.World) → (os.sys (free_library (suc L.handle)) w).0 ≡ pos (suc freed))
      → Returns Ended (program os parse argv s)
  unfolding program on_startup
  program-Ended parse R begun ran freed parsed no_help given begins runs frees =
      Returns-and_then _ Ended (main os parse argv _) _
        (main-Ran parse R begun ran _ parsed no_help given begins runs)
        (λ code u (n, a, ev).
          rw
            (unload_module_by_frees (unload_on_windows os) (free_library (suc L.handle)) u
              (opened (given_options argv vm).module_file L.handle)
              (record (opened (given_options argv vm).module_file L.handle) { handler = 0 })
              a.module_ptr a.dlmodule
              (λ m.
                unload_on_windows_lem (opened (given_options argv vm).module_file L.handle) L.handle
                  freed m (frees m.world)))
            (record {
              success = a.code;
              events = simp (a.events, ev, append_assoc);
              module_ptr = refl;
              resource = refl;
              dlmodule = refl;
            }))
