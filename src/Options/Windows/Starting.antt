-- ===== src/Options/Windows/Starting.antt =====
-- `Option::Init` of mpic/option.cc on Windows, where the files and the log directory are there.
use mpic.Prelude.{
  ◌≡◌, refl, Bool, true, false, Option, some, List, Bytes, ◌++◌, bytes, is_empty, Bool-cases, inl,
  inr,
}
use mpic.Prelude.State.{returned, Returns, Returns-mono}
use mpic.Os.{Os}
use mpic.Os.Machine.{Machine}
use mpic.Options.Resolving.{NonEmpty, AllNonEmpty, value_or-NonEmpty}
use mpic.Options.Starting.{given_options, Ready, checks, Stays, AllStay, apply-Started}
use mpic.Options.Windows.{get_exe_name, windows, init}
use mpic.Options.{Options, new_options, VariablesMap, is_absolute, absolute, init_on, value_or}

module _ {os : Os} where
  absolute-kept :
      (path : Bytes) (m : Machine os)
      → is_empty path ≡ false
      → absolute (windows os) path m ≡ returned (some path) m
  unfolding absolute
  absolute-kept path m h = elim (Bool-cases (is_absolute path)) [
    | inl e ↦ rw e refl
    | inr e ↦ rw (e, h) refl
  ]

  option-Stays :
      (d : Bytes) (p : Option Bytes) → is_empty d ≡ false → NonEmpty p → Stays (windows os) d p
  option-Stays d p e h m = absolute-kept (value_or d p) m (value_or-NonEmpty d p e h)

  AllNonEmpty-AllStay : (vm : VariablesMap) → AllNonEmpty vm → AllStay (windows os) vm
  AllNonEmpty-AllStay vm (l, c, p, f) = (
    option-Stays (bytes "/tmp") vm.log_dir refl l,
    option-Stays (bytes "/tmp/mpic.conf") vm.cfg refl c,
    option-Stays (bytes "/tmp/mpic.pid") vm.pid refl p,
    option-Stays (bytes "/tmp/echo.so") vm.mod_file refl f,
  )

  -- What `Init` gives where the files are there.
  abbrev pub StartedHere : Options → Machine os → Bool × Options → Machine os → Type 0
  StartedHere o m r n =
      (r ≡ (true, record o { initialized = true })) × (n.events ≡ m.events ++ checks o)

  pub init-StartedHere :
      (parse : List Bytes → Option VariablesMap) (argv : List Bytes) (vm : VariablesMap)
      (R : Ready os (given_options argv vm)) (m : Machine os)
      → parse argv ≡ some vm
      → vm.help ≡ false
      → AllNonEmpty vm
      → Returns (StartedHere (given_options argv vm) m) (init os parse argv new_options m)
  unfolding init_on get_exe_name
  init-StartedHere parse argv vm R m parsed no_help given = rw parsed (
      Returns-mono _ (StartedHere (given_options argv vm) m) _
        (apply-Started (windows os) argv vm R _ no_help (AllNonEmpty-AllStay vm given))
        (λ r n a. (a.0, a.1)))
