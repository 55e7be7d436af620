-- ===== src/Master/Loader/Parts.antt =====
-- The parts of `LoadModule` of mpic/master.cc, over a library that answers.
use mpic.Prelude.{ℤ, ℕ, suc, ◌≡◌, refl, ap, ◌∙◌, true, some, [], ◌∷◌, ◌++◌, pos, Bytes, bytes}
use mpic.Prelude.State.{Outcome, and_then, returned}
use mpic.Os.{Os, new_object, resource_init, set_resource, init_in_master}
use mpic.Os.Machine.{Machine, M, invoked}
use mpic.Master.{State, lift}
use mpic.DynLib.{DynLib, new_dyn_lib, load, get_symbol, symbol_found}
use mpic.Master.Loader.{
  init_resource, init_module, open_library, symbol_of, keep_symbol, new_resource, try_new,
  as_pointer, set_up_resource, try_bool, as_bool, new_module, set_up_module,
}

-- What follows a part whose outcome is known.
pub and_then_known :
    {A B S : Type 0} (a : A) (u : S) (o : Outcome A S) (f : A → S → Outcome B S)
    → o ≡ returned a u
    → and_then o f ≡ f a u
and_then_known a u o f e = ap (λ x. and_then x f) e

abbrev pub opened : Bytes → ℕ → DynLib
opened path h = record { handler = suc h; dll_path = path; error = bytes "" }

module _ {os : Os} where
  pub lift_known :
      {A : Type 0} (f : M os A) (s : State os) (a : A) (n : Machine os)
      → f s.machine ≡ returned a n
      → lift os f s ≡ returned a (record s { machine = n })
  lift_known f s a n e = ap (λ o. lift os (λ _. o) s) e

  load_lem :
      (path : Bytes) (m : Machine os) (h : ℕ)
      → (os.dlopen path m.world).0 ≡ suc h
      → load os (new_dyn_lib path) m
        ≡ returned (true, opened path h) (record m { world = (os.dlopen path m.world).1 })
  unfolding load
  load_lem path m h e = rw e refl

  pub open_library_lem :
      (path : Bytes) (s : State os) (h : ℕ)
      → (os.dlopen path s.machine.world).0 ≡ suc h
      → open_library os path s
        ≡ returned true (record s {
          machine = record s.machine { world = (os.dlopen path s.machine.world).1 };
          dlmodule = some (opened path h);
        })
  unfolding open_library
  open_library_lem path s h e =
      let t : State os = record s { dlmodule = some (new_dyn_lib path) } in
      and_then_known _ _ (lift os (load os (new_dyn_lib path)) t) _
        (lift_known (load os (new_dyn_lib path)) t _ _ (load_lem path s.machine h e))

  get_symbol_lem :
      (name : Bytes) (l : DynLib) (m : Machine os) (p : ℕ)
      → (os.dlsym l.handler name m.world).0 ≡ suc p
      → get_symbol os name l m
        ≡ returned (suc p, l) (record m { world = (os.dlsym l.handler name m.world).1 })
  unfolding get_symbol symbol_found
  get_symbol_lem name l m p e = rw e refl

  symbol_of_lem :
      (name : Bytes) (l : DynLib) (s : State os) (p : ℕ)
      → (os.dlsym l.handler name s.machine.world).0 ≡ suc p
      → symbol_of os name (some l) s
        ≡ returned (suc p) (record s {
          machine = record s.machine { world = (os.dlsym l.handler name s.machine.world).1 };
          dlmodule = some l;
        })
  unfolding symbol_of keep_symbol
  symbol_of_lem name l s p e =
      and_then_known _ _ (lift os (get_symbol os name l) s) (keep_symbol os)
        (lift_known (get_symbol os name l) s _ _ (get_symbol_lem name l s.machine p e))

  new_resource_lem :
      (s : State os) (p a : ℕ)
      → let w = (os.method (new_object (suc p)) s.machine.world).1 in
        (os.method (new_object (suc p)) s.machine.world).0 ≡ some (pos (suc a))
        → (os.method (resource_init (suc a)) w).0 ≡ some (pos 1)
        → new_resource os (suc p) s
          ≡ returned true (record s {
            machine = record s.machine {
              world = (os.method (resource_init (suc a)) w).1;
              events =
                  (s.machine.events ++ invoked (new_object (suc p)) ∷ [])
                  ++ invoked (resource_init (suc a)) ∷ [];
            };
            resource = suc a;
          })
  unfolding new_resource try_new as_pointer set_up_resource try_bool as_bool
  new_resource_lem s p a e f = rw (e, f) refl

  new_module_lem :
      (s : State os) (p a : ℕ) (c : ℤ)
      → let w = (os.method (new_object (suc p)) s.machine.world).1 in
        let v = (os.method (set_resource (suc a) s.resource) w).1 in
        (os.method (new_object (suc p)) s.machine.world).0 ≡ some (pos (suc a))
        → (os.method (set_resource (suc a) s.resource) w).0 ≡ some c
        → (os.method (init_in_master (suc a)) v).0 ≡ some (pos 1)
        → new_module os (suc p) s
          ≡ returned true (record s {
            machine = record s.machine {
              world = (os.method (init_in_master (suc a)) v).1;
              events =
                  ((s.machine.events ++ invoked (new_object (suc p)) ∷ [])
                    ++ invoked (set_resource (suc a) s.resource) ∷ [])
                  ++ invoked (init_in_master (suc a)) ∷ [];
            };
            module_ptr = suc a;
          })
  unfolding new_module try_new as_pointer set_up_module try_bool as_bool
  new_module_lem s p a c e f g = rw (e, f, g) refl

  pub init_resource_lem :
      (s : State os) (l : DynLib) (p a : ℕ)
      → let v = (os.dlsym l.handler (bytes "MPIC_NewResource") s.machine.world) in
        let w = (os.method (new_object (suc p)) v.1).1 in
        v.0 ≡ suc p
        → (os.method (new_object (suc p)) v.1).0 ≡ some (pos (suc a))
        → (os.method (resource_init (suc a)) w).0 ≡ some (pos 1)
        → init_resource os (record s { dlmodule = some l })
          ≡ returned true (record s {
            machine = record s.machine {
              world = (os.method (resource_init (suc a)) w).1;
              events =
                  (s.machine.events ++ invoked (new_object (suc p)) ∷ [])
                  ++ invoked (resource_init (suc a)) ∷ [];
            };
            resource = suc a;
            dlmodule = some l;
          })
  unfolding init_resource
  init_resource_lem s l p a e f g =
      and_then_known _ _
        (symbol_of os (bytes "MPIC_NewResource") (some l) (record s { dlmodule = some l }))
        (new_resource os)
        (symbol_of_lem (bytes "MPIC_NewResource") l (record s { dlmodule = some l }) p e)
      ∙ new_resource_lem _ p a f g

  pub init_module_lem :
      (s : State os) (l : DynLib) (p a : ℕ) (c : ℤ)
      → let u = (os.dlsym l.handler (bytes "MPIC_NewModule") s.machine.world) in
        let w = (os.method (new_object (suc p)) u.1).1 in
        let v = (os.method (set_resource (suc a) s.resource) w).1 in
        u.0 ≡ suc p
        → (os.method (new_object (suc p)) u.1).0 ≡ some (pos (suc a))
        → (os.method (set_resource (suc a) s.resource) w).0 ≡ some c
        → (os.method (init_in_master (suc a)) v).0 ≡ some (pos 1)
        → init_module os (record s { dlmodule = some l })
          ≡ returned true (record s {
            machine = record s.machine {
              world = (os.method (init_in_master (suc a)) v).1;
              events =
                  ((s.machine.events ++ invoked (new_object (suc p)) ∷ [])
                    ++ invoked (set_resource (suc a) s.resource) ∷ [])
                  ++ invoked (init_in_master (suc a)) ∷ [];
            };
            module_ptr = suc a;
            dlmodule = some l;
          })
  unfolding init_module
  init_module_lem s l p a c e f g h =
      and_then_known _ _
        (symbol_of os (bytes "MPIC_NewModule") (some l) (record s { dlmodule = some l }))
        (new_module os)
        (symbol_of_lem (bytes "MPIC_NewModule") l (record s { dlmodule = some l }) p e)
      ∙ new_module_lem _ p a c f g h
