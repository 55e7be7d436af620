-- ===== src/Master/Loader/Unloading.antt =====
-- The parts of `UnloadModule` of mpic/master.cc.
use mpic.Prelude.{ℤ, ℕ, suc, ◌≡◌, refl, Bool, true, none, some, [], ◌∷◌, ◌++◌, pos}
use mpic.Prelude.State.{returned}
use mpic.Os.{Os, Call, dlclose, free_library, uninit}
use mpic.Os.Machine.{Machine, M, called, invoked}
use mpic.Master.{State, lift}
use mpic.DynLib.{DynLib, unload, unload_on_windows}
use mpic.Master.Loader.Parts.{and_then_known, lift_known}
use mpic.Master.Loader.{unload_module_by, close_library}

module _ {os : Os} where
  pub unload_lem :
      (l : DynLib) (h : ℕ) (m : Machine os)
      → (os.sys (dlclose (suc h)) m.world).0 ≡ pos 0
      → unload os (record l { handler = suc h }) m
        ≡ returned
            (true, record l { handler = 0 })
            (record m {
              world = (os.sys (dlclose (suc h)) m.world).1;
              events = m.events ++ called (dlclose (suc h)) ∷ [];
            })
  unfolding unload
  unload_lem l h m e = rw e refl

  -- `FreeLibrary` has succeeded where it gives a number other than 0.
  pub unload_on_windows_lem :
      (l : DynLib) (h r : ℕ) (m : Machine os)
      → (os.sys (free_library (suc h)) m.world).0 ≡ pos (suc r)
      → unload_on_windows os (record l { handler = suc h }) m
        ≡ returned
            (true, record l { handler = 0 })
            (record m {
              world = (os.sys (free_library (suc h)) m.world).1;
              events = m.events ++ called (free_library (suc h)) ∷ [];
            })
  unfolding unload_on_windows
  unload_on_windows_lem l h r m e = rw e refl

  -- `close` closes the library by one call.
  abbrev Closes : (DynLib → M os (Bool × DynLib)) → Call → DynLib → DynLib → Machine os → Type 0
  Closes close c l l' m =
      close l m
      ≡ returned (true, l')
          (record m { world = (os.sys c m.world).1; events = m.events ++ called c ∷ [] })

  close_library_lem :
      (close : DynLib → M os (Bool × DynLib)) (c : Call) (l l' : DynLib) (s : State os)
      → Closes close c l l' s.machine
      → close_library os close (some l) s
        ≡ returned tt (record s {
          machine = record s.machine {
            world = (os.sys c s.machine.world).1;
            events = s.machine.events ++ called c ∷ [];
          };
          dlmodule = none;
        })
  unfolding close_library
  close_library_lem close c l l' s e =
      and_then_known _ _ (lift os (close l) s) _ (lift_known (close l) s _ _ e)

  -- A module that is there is told, and then its library is closed.
  pub unload_module_by_lem :
      (close : DynLib → M os (Bool × DynLib)) (call : Call) (s : State os) (l l' : DynLib) (a : ℕ)
      (c : ℤ)
      → let w = (os.method (uninit (suc a)) s.machine.world) in
        w.0 ≡ some c
        → ((m : Machine os) → m.world ≡ w.1 → Closes close call l l' m)
        → unload_module_by os close (record s { module_ptr = suc a; dlmodule = some l })
          ≡ returned tt (record s {
            machine = record s.machine {
              world = (os.sys call w.1).1;
              events = (s.machine.events ++ invoked (uninit (suc a)) ∷ []) ++ called call ∷ [];
            };
            module_ptr = 0;
            resource = 0;
            dlmodule = none;
          })
  unfolding unload_module_by
  unload_module_by_lem close call s l l' a c e f =
      rw e (close_library_lem close call l l' _ (f _ refl))

  pub unload_module_again :
      (close : DynLib → M os (Bool × DynLib)) (s : State os)
      → s.module_ptr ≡ 0
      → s.resource ≡ 0
      → s.dlmodule ≡ none
      → unload_module_by os close s ≡ returned tt s
  unfolding unload_module_by close_library
  unload_module_again close s p q r = rw (p, q, r) refl

  -- A module that is gone is not told; the library is closed.
  pub unload_module_by_frees :
      (close : DynLib → M os (Bool × DynLib)) (call : Call) (s : State os) (l l' : DynLib)
      → s.module_ptr ≡ 0
      → s.dlmodule ≡ some l
      → ((m : Machine os) → Closes close call l l' m)
      → unload_module_by os close s
        ≡ returned tt (record s {
          machine = record s.machine {
            world = (os.sys call s.machine.world).1;
            events = s.machine.events ++ called call ∷ [];
          };
          resource = 0;
          module_ptr = 0;
          dlmodule = none;
        })
  unfolding unload_module_by
  unload_module_by_frees close call s l l' p q e =
      rw (p, q)
        (close_library_lem close call l l'
          (record s { resource = 0; module_ptr = 0; dlmodule = some l }) (e s.machine))
