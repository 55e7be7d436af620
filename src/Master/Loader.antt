-- ===== src/Master/Loader.antt =====
-- `LoadModule`, `InitResource`, `InitModule` and `UnloadModule` of mpic/master.cc.
pub mod Framing
pub mod Parts
pub mod Unloading
pub mod Holding
pub mod Making
pub mod Trying
pub mod Cleaning
pub mod Lifecycle
use mpic.Prelude.{
  is_zero, ℤ, ℕ, Bool, false, not, Option, none, some, pos_part, Bytes, bytes, if◌then◌else◌,
}
use mpic.Prelude.State.{returned, aborted, ◌>>=◌, ◌>>◌, pure, abort, modify}
use mpic.Os.{Os, Method, new_object, resource_init, set_resource, init_in_master, uninit}
use mpic.Os.Machine
use mpic.Os.Machine.{M}
use mpic.FileUtil.{is_file_exist, is_readable}
use mpic.DynLib.{DynLib, new_dyn_lib, is_null, load, unload, get_symbol}
use mpic.Master.{Routine, lift, invoke}

module _ (os : Os) where
  abbrev set_dlmodule : Option DynLib → Routine os (Unit {0})
  set_dlmodule l = modify (λ s. record s { dlmodule = l })

  -- `dlmodule_->GetSymbol(name)`
  keep_symbol : ℕ × DynLib → Routine os ℕ
  keep_symbol (p, l) s = returned p (record s { dlmodule = some l })

  symbol_of : Bytes → Option DynLib → Routine os ℕ
  unfolding keep_symbol
  symbol_of name none = abort
  symbol_of name (some l) = lift os (get_symbol os name l) >>= keep_symbol

  -- The answer of a `bool` method inside a `try`: a catch makes it false.
  as_bool : Option ℤ → Routine os Bool
  as_bool none = pure false
  as_bool (some b) = pure (not (is_zero b))

  -- NULL has no methods.
  try_bool : ℕ → Method → Routine os Bool
  unfolding as_bool
  try_bool p c = if is_null p then abort else lift os (Machine.method os c) >>= as_bool

  -- The factory at an address, inside a `try`.
  as_pointer : Option ℤ → Routine os (Option ℕ)
  as_pointer none = pure none
  as_pointer (some a) = pure (some (pos_part a))

  try_new : ℕ → Routine os (Option ℕ)
  unfolding as_pointer
  try_new p = lift os (Machine.method os (new_object p)) >>= as_pointer

  -- `resource_.reset(r)` and `r->Init`.
  set_up_resource : Option ℕ → Routine os Bool
  unfolding try_bool
  set_up_resource none = pure false
  set_up_resource (some a) = modify (λ s. record s { resource = a }) >> try_bool a (resource_init a)

  new_resource : ℕ → Routine os Bool
  unfolding try_new set_up_resource
  new_resource p = if is_null p then pure false else try_new p >>= set_up_resource

  unfoldable pub init_resource : Routine os Bool
  unfolding symbol_of new_resource
  init_resource s = (symbol_of (bytes "MPIC_NewResource") s.dlmodule >>= new_resource) s

  -- `module_.reset(m)`, `m->SetResource` and `m->InitInMaster`: the new module replaces the old one
  -- before it is asked to initialise itself.
  set_up_module : Option ℕ → Routine os Bool
  unfolding try_bool
  set_up_module none s = returned false s
  set_up_module (some a) s =
      (invoke os a (set_resource a s.resource) >>= λ _. try_bool a (init_in_master a))
        (record s { module_ptr = a })

  new_module : ℕ → Routine os Bool
  unfolding try_new set_up_module
  new_module p = if is_null p then pure false else try_new p >>= set_up_module

  unfoldable pub init_module : Routine os Bool
  unfolding symbol_of new_module
  init_module s = (symbol_of (bytes "MPIC_NewModule") s.dlmodule >>= new_module) s

  -- `dlmodule_.reset(new DynLib(path))` and `Load`.
  pub open_library : Bytes → Routine os Bool
  open_library path = do
    set_dlmodule (some (new_dyn_lib path))
    (ok, l) ← lift os (load os (new_dyn_lib path))
    set_dlmodule (some l)
    pure ok

  unfoldable pub load_module : Routine os Bool
  unfolding open_library
  load_module s =
      (do
        exists ← lift os (is_file_exist os s.option.module_file)
        readable ← (if exists then lift os (is_readable os s.option.module_file) else pure false)
        if not readable then pure false else do
          opened ← open_library s.option.module_file
          if not opened then pure false else do
            resource_ok ← init_resource
            if not resource_ok then pure false else init_module)
        s

  close_library : (DynLib → M os (Bool × DynLib)) → Option DynLib → Routine os (Unit {0})
  close_library close none = pure tt
  close_library close (some l) = do _ ← lift os (close l); set_dlmodule none

  -- `UnloadModule`, with `Unload` of the library as it is on the system.
  unfoldable pub unload_module_by : (DynLib → M os (Bool × DynLib)) → Routine os (Unit {0})
  unfolding close_library
  unload_module_by close s =
      (do
        if is_null s.module_ptr then pure tt else do
          _ ← invoke os s.module_ptr (uninit s.module_ptr)
          modify (λ t. record t { module_ptr = 0 })
        modify (λ t. record t { resource = 0 })
        close_library close s.dlmodule)
        s

  -- On Linux; also the destructor of the class.
  abbrev pub unload_module : Routine os (Unit {0})
  unload_module = unload_module_by (unload os)
