-- ===== src/Options/Windows/Relative.antt =====
-- What `Option::Init` of mpic/option.cc leaves in the options on Windows, where `RealPath` gives back
-- the path that it is given.
use mpic.Prelude.{◌≡◌, refl, false, Option, some, List, Bytes, is_empty, Bool-cases, inl, inr}
use mpic.Prelude.State.{Returns}
use mpic.Os.{Os}
use mpic.Os.Machine.{Machine}
use mpic.Options.Applying.{AcceptedOn, init_on-AcceptedOn}
use mpic.Options.Resolving.{Works, AllNonEmpty}
use mpic.Options.Windows.{get_exe_name, windows, init}
use mpic.Options.{new_options, VariablesMap, is_absolute, absolute}

abbrev pub Same : Bytes → Bytes → Type 0
Same path p = p ≡ path

module _ {os : Os} where
  absolute-Same :
      (path : Bytes) (m : Machine os)
      → is_empty path ≡ false
      → Returns (λ r _. (p : Bytes) × (r ≡ some p) × Same path p) (absolute (windows os) path m)
  unfolding absolute
  absolute-Same path m h = elim (Bool-cases (is_absolute path)) [
    | inl e ↦ rw e (path, refl, refl)
    | inr e ↦ rw (e, h) (path, refl, refl)
  ]

  get_exe_name-named : (m : Machine os) → Returns (λ _ _. Unit) (get_exe_name os m)
  unfolding get_exe_name
  get_exe_name-named m = tt

  windows-Works : Works (windows os) Same
  windows-Works = record { named = get_exe_name-named; makes = λ dir m. tt; keeps = absolute-Same }

  -- `Init` of new options on Windows, on a command line that can be parsed, asks for no help and
  -- gives no empty path: it returns, over any system. The four paths are those of the command line,
  -- or the defaults, so a relative path stays relative; the log directory has a slash behind it. The
  -- name, the number of workers and the orders are those of the command line. The options count as
  -- initialised exactly if it returns true, and then a second call changes nothing.
  pub init-AcceptedOn :
      (parse : List Bytes → Option VariablesMap) (argv : List Bytes) (vm : VariablesMap)
      (m : Machine os)
      → parse argv ≡ some vm
      → vm.help ≡ false
      → AllNonEmpty vm
      → Returns (AcceptedOn (windows os) Same parse argv vm) (init os parse argv new_options m)
  init-AcceptedOn = init_on-AcceptedOn windows-Works
