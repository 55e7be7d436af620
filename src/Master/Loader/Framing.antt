-- ===== src/Master/Loader/Framing.antt =====
-- `InitModule` of mpic/master.cc makes no POSIX call and leaves the worker processes alone.
use mathlib.Core.List.{append-nil}
use mpic.Prelude.{
  ℕ, zero, suc, refl, ◌∙◌, inl, inr, none, some, [], ◌∷◌, Option, Option-cases, Bytes, bytes, ℤ,
}
use mpic.Prelude.State.{
  Leaves-mono, and_then, ◌>>=◌, Outcome, returned, exited, aborted, unfinished, Leaves,
  Leaves-and_then, pure,
}
use mpic.Os.{Os, Method, new_object, set_resource, init_in_master}
use mpic.Os.Machine
use mpic.Os.Machine.{Event, called, invoked, Machine, M, uncaught}
use mpic.Os.Kernel.{IsKernel}
use mpic.DynLib.{symbol_found, not_found, DynLib, get_error, get_symbol}
use mpic.Master.{State, Routine, lift, invoke}
use mpic.Master.Frame.{
  calls, calls-append, Still, Still-refl, Still-trans, Frame, Frame-refl, Frame-trans,
}
use mpic.Master.Loader.{
  init_module, keep_symbol, symbol_of, as_bool, as_pointer, try_new, try_bool, set_up_module,
  new_module,
}

module _ {os : Os} (K : IsKernel os) where
  lift-Frame :
      {A : Type 0} (f : M os A) (s : State os)
      → Leaves (Still K s.machine) (f s.machine)
      → Leaves (Frame K s) (lift os f s)
  lift-Frame {A} f s h = of_outcome (f s.machine) h
    where
      of_outcome :
          (o : Outcome A (Machine os))
          → Leaves (Still K s.machine) o
          → Leaves (Frame K s) (lift os (λ _. o) s)
      of_outcome (returned a m) h = record {
        still = h;
        running = refl;
        exiting = refl;
        option = refl;
      }
      of_outcome (exited c m) h = record {
        still = h;
        running = refl;
        exiting = refl;
        option = refl;
      }
      of_outcome (aborted m) h = record { still = h; running = refl; exiting = refl; option = refl }
      of_outcome (unfinished m) h = record {
        still = h;
        running = refl;
        exiting = refl;
        option = refl;
      }

  method-Still : (c : Method) (m : Machine os) → Leaves (Still K m) (Machine.method os c m)
  method-Still c m = record {
    child = λ p. K.method_child c m.world p;
    calls = calls-append m.events (invoked c ∷ []) ∙ append-nil (calls m.events);
  }

  get_error-Still : (m : Machine os) → Leaves (Still K m) (get_error os m)
  unfolding get_error
  get_error-Still m = elim (Option-cases (os.dlerror m.world).0) [
    | inl e ↦ rw e (record { child = K.dlerror_child m.world; calls = refl })
    | inr (t, e) ↦ rw e (record { child = K.dlerror_child m.world; calls = refl })
  ]

  symbol_found-Still :
      (name : Bytes) (l : DynLib) (p : ℕ) (m : Machine os)
      → Leaves (Still K m) (symbol_found os name l p m)
  unfolding symbol_found
  symbol_found-Still name l (suc p) m = Still-refl K m
  symbol_found-Still name l zero m =
      Leaves-and_then (Still K m) (get_error os m)
        (λ message. pure (zero, not_found name l message)) (get_error-Still m) (λ message n a. a)

  get_symbol-Still :
      (name : Bytes) (l : DynLib) (m : Machine os) → Leaves (Still K m) (get_symbol os name l m)
  unfolding get_symbol
  get_symbol-Still name l m = symbol_found_at (os.dlsym l.handler name m.world).0
    where
      looked_up : Machine os
      looked_up = record m { world = (os.dlsym l.handler name m.world).1 }

      found : Still K m looked_up
      found = record { child = K.dlsym_child l.handler name m.world; calls = refl }

      symbol_found_at : (p : ℕ) → Leaves (Still K m) (symbol_found os name l p looked_up)
      symbol_found_at p =
          Leaves-mono (Still K looked_up) (Still K m) (symbol_found os name l p looked_up)
            (symbol_found-Still name l p looked_up) (λ n. Still-trans K found)

  -- A routine that leaves the frame alone, however it ends.
  abbrev Framing : {A : Type 0} → Routine os A → Type 0
  Framing f = (s : State os) → Leaves (Frame K s) (f s)

  >>=-Framing :
      {A B : Type 0} (f : Routine os A) (g : A → Routine os B)
      → Framing f
      → ((a : A) → Framing (g a))
      → Framing (λ s. and_then (f s) g)
  >>=-Framing f g p q s =
      Leaves-and_then (Frame K s) (f s) g (p s)
        (λ a t k. Leaves-mono (Frame K t) (Frame K s) (g a t) (q a t) (λ u. Frame-trans K k))

  lift-Framing :
      {A : Type 0} (f : M os A)
      → ((m : Machine os) → Leaves (Still K m) (f m))
      → Framing (lift os f)
  lift-Framing f h s = lift-Frame f s (h s.machine)

  keep_symbol-Framing : (r : ℕ × DynLib) → Framing (keep_symbol os r)
  unfolding keep_symbol
  keep_symbol-Framing (p, l) s = record {
    still = Still-refl K s.machine;
    running = refl;
    exiting = refl;
    option = refl;
  }

  symbol_of-Framing : (name : Bytes) (l : Option DynLib) → Framing (symbol_of os name l)
  unfolding symbol_of
  symbol_of-Framing name none s = Frame-refl K s
  symbol_of-Framing name (some l) s =
      >>=-Framing (lift os (get_symbol os name l)) (keep_symbol os)
        (lift-Framing (get_symbol os name l) (get_symbol-Still name l)) keep_symbol-Framing s

  as_bool-Framing : (r : Option ℤ) → Framing (as_bool os r)
  unfolding as_bool
  as_bool-Framing none = Frame-refl K
  as_bool-Framing (some b) = Frame-refl K

  as_pointer-Framing : (r : Option ℤ) → Framing (as_pointer os r)
  unfolding as_pointer
  as_pointer-Framing none = Frame-refl K
  as_pointer-Framing (some b) = Frame-refl K

  method-Framing : (c : Method) → Framing (lift os (Machine.method os c))
  method-Framing c = lift-Framing (Machine.method os c) (method-Still c)

  try_bool-Framing : (p : ℕ) (c : Method) → Framing (try_bool os p c)
  unfolding try_bool
  try_bool-Framing zero c = Frame-refl K
  try_bool-Framing (suc p) c =
      >>=-Framing (lift os (Machine.method os c)) (as_bool os) (method-Framing c) as_bool-Framing

  uncaught-Framing : (r : Option ℤ) → Framing (uncaught r)
  uncaught-Framing none = Frame-refl K
  uncaught-Framing (some a) = Frame-refl K

  invoke-Framing : (p : ℕ) (c : Method) → Framing (invoke os p c)
  invoke-Framing zero c = Frame-refl K
  invoke-Framing (suc p) c =
      >>=-Framing (lift os (Machine.method os c)) uncaught (method-Framing c) uncaught-Framing

  try_new-Framing : (p : ℕ) → Framing (try_new os p)
  unfolding try_new
  try_new-Framing p =
      >>=-Framing (lift os (Machine.method os (new_object p))) (as_pointer os)
        (method-Framing (new_object p)) as_pointer-Framing

  set_up_module-Framing : (m : Option ℕ) → Framing (set_up_module os m)
  unfolding set_up_module
  set_up_module-Framing none s = Frame-refl K s
  set_up_module-Framing (some a) s =
      Leaves-mono (Frame K (record s { module_ptr = a })) (Frame K s)
        ((invoke os a (set_resource a s.resource) >>= λ _. try_bool os a (init_in_master a))
          (record s { module_ptr = a }))
        (>>=-Framing (invoke os a (set_resource a s.resource))
          (λ _. try_bool os a (init_in_master a)) (invoke-Framing a (set_resource a s.resource))
          (λ _. try_bool-Framing a (init_in_master a)) (record s { module_ptr = a }))
        (λ t f. record {
          still = f.still;
          running = f.running;
          exiting = f.exiting;
          option = f.option;
        })

  new_module-Framing : (p : ℕ) → Framing (new_module os p)
  unfolding new_module
  new_module-Framing zero = Frame-refl K
  new_module-Framing (suc p) =
      >>=-Framing (try_new os (suc p)) (set_up_module os) (try_new-Framing (suc p))
        set_up_module-Framing

  pub init_module-Framing : Framing (init_module os)
  unfolding init_module
  init_module-Framing s =
      >>=-Framing (symbol_of os (bytes "MPIC_NewModule") s.dlmodule) (new_module os)
        (symbol_of-Framing (bytes "MPIC_NewModule") s.dlmodule) new_module-Framing s
