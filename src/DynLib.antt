-- ===== src/DynLib.antt =====
-- mpic/internal/dynlib.h and dynlib.cc. On Windows the system's functions `dlopen`, `dlsym` and
-- `dlerror` stand for `LoadLibraryA`, `GetProcAddress` and the text that `FormatMessage` gives, `none`
-- where it gives none and leaves its pointer unset.
use mpic.Prelude.{is_zero, ℕ, zero, suc, Bool, true, false, not, none, some, ◌++◌, Bytes, bytes}
use mpic.Prelude.State.{◌>>=◌, pure, abort}
use mpic.Os.{Os, dlclose, free_library}
use mpic.Os.Machine.{M, sys, dlopen, dlsym, dlerror}

-- `handler` is 0 for NULL.
pub record DynLib : Type 0 where
  pub handler : ℕ
  pub dll_path : Bytes
  pub error : Bytes

abbrev pub new_dyn_lib : Bytes → DynLib
new_dyn_lib path = record { handler = 0; dll_path = path; error = bytes "" }

abbrev pub is_null : ℕ → Bool
is_null zero = true
is_null (suc p) = false

pub is_loaded : DynLib → Bool
is_loaded l = elim (is_null l.handler) [ true ↦ false | false ↦ true ]

abbrev pub not_found : Bytes → DynLib → Bytes → DynLib
not_found name l message = record l {
  error =
      bytes "GetSymbol : Could not get the symbol : "
      ++ (name ++ (bytes ". Error Message : " ++ message));
}

module _ (os : Os) where
  -- A `std::string` made of the NULL that `dlerror` gives when no call failed ends the process.
  unfoldable pub get_error : M os Bytes
  get_error = do e ← dlerror os; elim e [ none ↦ abort | some message ↦ pure message ]

  abbrev failed_with : DynLib → Bytes → M os (Bool × DynLib)
  failed_with l start = do
    message ← get_error
    pure (false, record l { error = start ++ (bytes "Error message : " ++ message) })

  unfoldable pub load : DynLib → M os (Bool × DynLib)
  load l = do
    h ← dlopen os l.dll_path
    elim (is_null h) [
      | false ↦ pure (true, record l { handler = h })
      | true ↦
          failed_with (record l { handler = h })
            (bytes "Load : Load dynamic library " ++ (l.dll_path ++ bytes " failed. "))
    ]

  -- `Unload`, where `close` gives the test of the system's function.
  abbrev unload_by : (ℕ → M os Bool) → DynLib → M os (Bool × DynLib)
  unload_by close l = elim (is_null l.handler) [
    | true ↦ pure (
      false,
      record l {
        error =
            bytes "Unload Could not unload dynamic library "
            ++ (l.dll_path ++ bytes ". maybe it haven't loaded yet, because handler_=NULL");
      },
    )
    | false ↦ do
      closed ← close l.handler
      elim closed [
        | true ↦ pure (true, record l { handler = 0 })
        | false ↦
            failed_with l
              (bytes "Unload : Unload dynamic library " ++ (l.dll_path ++ bytes " failed. "))
      ]
  ]

  -- `Unload` on Linux: 0 is success.
  unfoldable pub unload : DynLib → M os (Bool × DynLib)
  unload = unload_by (λ h. do r ← sys os (dlclose h); pure (is_zero r))

  -- `Unload` on Windows: 0 is failure.
  unfoldable pub unload_on_windows : DynLib → M os (Bool × DynLib)
  unload_on_windows = unload_by (λ h. do r ← sys os (free_library h); pure (not (is_zero r)))

  unfoldable pub symbol_found : Bytes → DynLib → ℕ → M os (ℕ × DynLib)
  symbol_found name l zero = do message ← get_error; pure (zero, not_found name l message)
  symbol_found name l (suc p) = pure (suc p, l)

  unfoldable pub get_symbol : Bytes → DynLib → M os (ℕ × DynLib)
  get_symbol name l = do p ← dlsym os l.handler name; symbol_found name l p
