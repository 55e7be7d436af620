-- ===== src/Master/Loader/Lifecycle.antt =====
-- `LoadModule` and then `UnloadModule` of mpic/master.cc, over a library that loads.
use mpic.Prelude.{
  ℤ, ℕ, suc, ◌≡◌, refl, sym, subst, ◌∙◌, Bool, true, none, some, List, [], ◌∷◌, ◌++◌, pos, Bytes,
  bytes,
}
use mathlib.Core.List.{append_assoc}
use mpic.Prelude.State.{and_then, returned, ◌>>=◌, ◌>>◌, pure, Returns}
use mpic.Os.{
  Os, file_exists, file_readable, dlclose, new_object, resource_init, set_resource, init_in_master,
  uninit,
}
use mpic.Os.Machine.{Event, called, invoked}
use mpic.Master.{State, Routine}
use mpic.DynLib.{DynLib, unload}
use mpic.FileUtil.{is_file_exist, is_readable}
use mpic.Master.Loader.Unloading.{unload_lem, unload_module_by_lem, unload_module_again}
use mpic.Master.Loader.Parts.{
  and_then_known, open_library_lem, init_resource_lem, init_module_lem, opened,
}
use mpic.Master.Loader.{init_resource, load_module, open_library, unload_module}

-- A library at `path` that can be read and opened and has both factories, whose objects say that
-- they are initialised, and throw nothing. A `void` gives the number `nothing`, which is not read.
pub record Loads (os : Os) (path : Bytes) : Type 0 where
  pub handle : ℕ
  pub resource_factory : ℕ
  pub module_factory : ℕ
  pub resource : ℕ
  pub module_ptr : ℕ
  pub nothing : ℤ
  pub exists : (w : os.World) → (os.sys (file_exists path) w).0 ≡ pos 0
  pub readable : (w : os.World) → (os.sys (file_readable path) w).0 ≡ pos 0
  pub opens : (w : os.World) → (os.dlopen path w).0 ≡ suc handle
  pub has_resource :
      (w : os.World) → (os.dlsym (suc handle) (bytes "MPIC_NewResource") w).0 ≡ suc resource_factory
  pub has_module :
      (w : os.World) → (os.dlsym (suc handle) (bytes "MPIC_NewModule") w).0 ≡ suc module_factory
  pub makes_resource :
      (w : os.World)
      → (os.method (new_object (suc resource_factory)) w).0 ≡ some (pos (suc resource))
  pub inits_resource :
      (w : os.World) → (os.method (resource_init (suc resource)) w).0 ≡ some (pos 1)
  pub makes_module :
      (w : os.World)
      → (os.method (new_object (suc module_factory)) w).0 ≡ some (pos (suc module_ptr))
  pub takes_resource :
      (w : os.World) → (os.method (set_resource (suc module_ptr) (suc resource)) w).0 ≡ some nothing
  pub inits_module :
      (w : os.World) → (os.method (init_in_master (suc module_ptr)) w).0 ≡ some (pos 1)
  pub ends_module : (w : os.World) → (os.method (uninit (suc module_ptr)) w).0 ≡ some nothing
  pub closes : (w : os.World) → (os.sys (dlclose (suc handle)) w).0 ≡ pos 0

-- `LoadModule` and then `UnloadModule`.
abbrev pub load_unload : (os : Os) → Routine os Bool
load_unload os = do ok ← load_module os; unload_module os; pure ok

module _ {os : Os} (s : State os) (L : Loads os s.option.module_file) where
  abbrev path : Bytes
  path = s.option.module_file

  abbrev library : DynLib
  library = opened path L.handle

  -- What `LoadModule` asks of the system and of the library, in its order.
  abbrev pub loading : List Event
  loading =
      called (file_exists path)
      ∷ called (file_readable path)
      ∷ invoked (new_object (suc L.resource_factory))
      ∷ invoked (resource_init (suc L.resource))
      ∷ invoked (new_object (suc L.module_factory))
      ∷ invoked (set_resource (suc L.module_ptr) (suc L.resource))
      ∷ invoked (init_in_master (suc L.module_ptr))
      ∷ []

  -- What `UnloadModule` asks of them.
  abbrev pub unloading : List Event
  unloading = invoked (uninit (suc L.module_ptr)) ∷ called (dlclose (suc L.handle)) ∷ []

  -- The state once the file was tested, the library opened, and the resource made.
  abbrev pub tested : State os
  tested = record s {
    machine = record s.machine {
      world = (os.sys (file_readable path) (os.sys (file_exists path) s.machine.world).1).1;
      events =
          (s.machine.events ++ called (file_exists path) ∷ []) ++ called (file_readable path) ∷ [];
    };
  }

  abbrev pub with_library : State os
  with_library = record tested {
    machine = record tested.machine { world = (os.dlopen path tested.machine.world).1 };
  }

  abbrev pub with_resource : State os
  with_resource =
      let v = (os.dlsym (suc L.handle) (bytes "MPIC_NewResource") with_library.machine.world).1 in
      let w = (os.method (new_object (suc L.resource_factory)) v).1 in
      record with_library {
        machine = record with_library.machine {
          world = (os.method (resource_init (suc L.resource)) w).1;
          events =
              (with_library.machine.events ++ invoked (new_object (suc L.resource_factory)) ∷ [])
              ++ invoked (resource_init (suc L.resource)) ∷ [];
        };
        resource = suc L.resource;
      }

  abbrev pub with_module : State os
  with_module =
      let u = (os.dlsym (suc L.handle) (bytes "MPIC_NewModule") with_resource.machine.world).1 in
      let w = (os.method (new_object (suc L.module_factory)) u).1 in
      let v = (os.method (set_resource (suc L.module_ptr) (suc L.resource)) w).1 in
      record with_resource {
        machine = record with_resource.machine {
          world = (os.method (init_in_master (suc L.module_ptr)) v).1;
          events =
              ((with_resource.machine.events ++ invoked (new_object (suc L.module_factory)) ∷ [])
                ++ invoked (set_resource (suc L.module_ptr) (suc L.resource)) ∷ [])
              ++ invoked (init_in_master (suc L.module_ptr)) ∷ [];
        };
        module_ptr = suc L.module_ptr;
        dlmodule = some library;
      }

  pub load_module_lem : load_module os s ≡ returned true with_module
  unfolding load_module is_file_exist is_readable
  load_module_lem =
      rw (L.exists s.machine.world, L.readable (os.sys (file_exists path) s.machine.world).1)
        (and_then_known _ _ (open_library os path tested) _
            (open_library_lem path tested L.handle (L.opens _))
          ∙ (and_then_known _ _ (init_resource os (record with_library { dlmodule = some library }))
                _
                (init_resource_lem with_library library L.resource_factory L.resource
                  (L.has_resource _) (L.makes_resource _) (L.inits_resource _))
              ∙ init_module_lem with_resource library L.module_factory L.module_ptr L.nothing
                  (L.has_module _) (L.makes_module _) (L.takes_resource _) (L.inits_module _)))

  -- Over a library that loads, `LoadModule` returns true: it has made the resource and the module,
  -- and given the module the resource before `InitInMaster`. `UnloadModule` after it tells the
  -- module, then closes the library, and leaves none of the three pointers set; so a second
  -- `UnloadModule`, as that of the destructor, changes nothing. The workers are not touched.
  pub load_module-unload :
      Returns
        (λ ok u.
          (ok ≡ true)
          × (u.module_ptr ≡ suc L.module_ptr)
          × (u.resource ≡ suc L.resource)
          × (u.machine.events ≡ s.machine.events ++ loading))
        (load_module os s)
      × Returns
          (λ ok u.
            (ok ≡ true)
            × (u.machine.events ≡ s.machine.events ++ loading ++ unloading)
            × (u.module_ptr ≡ 0)
            × (u.resource ≡ 0)
            × (u.dlmodule ≡ none)
            × (u.running ≡ s.running)
            × (u.exiting ≡ s.exiting)
            × (unload_module os u ≡ returned tt u))
          (load_unload os s)
  load_module-unload = (
    subst (Returns Before) (sym load_module_lem) (refl, refl, refl, simp append_assoc),
    subst (λ o. Returns After (and_then o (λ ok. do unload_module os; pure ok)))
        (sym load_module_lem)
        (subst (λ o. Returns After (and_then o (λ _. pure true)))
          (sym (
            unload_module_by_lem (unload os) (dlclose (suc L.handle)) with_module library
              (record library { handler = 0 }) L.module_ptr L.nothing (L.ends_module _)
              (λ m e. unload_lem library L.handle m (L.closes m.world))))
          (
            refl,
            simp append_assoc,
            refl,
            refl,
            refl,
            refl,
            refl,
            unload_module_again (unload os) _ refl refl refl,
          )),
  )
    where
      Before : Bool → State os → Type 0
      Before ok u =
          (ok ≡ true)
          × (u.module_ptr ≡ suc L.module_ptr)
          × (u.resource ≡ suc L.resource)
          × (u.machine.events ≡ s.machine.events ++ loading)

      After : Bool → State os → Type 0
      After ok u =
          (ok ≡ true)
          × (u.machine.events ≡ s.machine.events ++ loading ++ unloading)
          × (u.module_ptr ≡ 0)
          × (u.resource ≡ 0)
          × (u.dlmodule ≡ none)
          × (u.running ≡ s.running)
          × (u.exiting ≡ s.exiting)
          × (unload_module os u ≡ returned tt u)
