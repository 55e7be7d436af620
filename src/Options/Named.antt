-- ===== src/Options/Named.antt =====
-- `Option::Init` of mpic/option.cc on Linux, with absolute paths to files that are there: it also finds
-- the name of the program.
use mpic.Prelude.{
  ◌≡◌, refl, ap, ◌∙◌, ◌++◌, ℕ, Bool, true, false, Option, some, List, Bytes, bytes, pos, ltb,
  is_empty, take, c_str, Bool-cases, inl, inr,
}
use mpic.Prelude.State.{Returns, Returns-and_then, Returns-mono}
use mpic.Os.{Os}
use mpic.Os.Machine.{Machine}
use mpic.Options.Starting.{given_options, Ready, checks, Started, Stays, AllStay, apply-Started}
use mpic.Options.{
  Options, new_options, VariablesMap, after_slash, is_absolute, absolute, read_exe_name,
  get_exe_name, linux, init, init_on, value_or,
}

-- The link to the program's file can be read, and ends in a name.
pub record Linked (os : Os) : Type 0 where
  pub size : os.World → ℕ
  pub text : os.World → Bytes
  pub link : (w : os.World) → (os.readlink w).0 ≡ (pos (size w), text w)
  pub short : (w : os.World) → ltb (size w) 1024 ≡ true
  pub name : (w : os.World) → is_empty (after_slash (c_str (take (size w) (text w)))) ≡ false

-- All four paths are absolute, as the defaults are.
abbrev pub AllAbsolute : VariablesMap → Type 0
AllAbsolute vm =
    (is_absolute (value_or (bytes "/tmp") vm.log_dir) ≡ true)
    × (is_absolute (value_or (bytes "/tmp/mpic.conf") vm.cfg) ≡ true)
    × (is_absolute (value_or (bytes "/tmp/mpic.pid") vm.pid) ≡ true)
    × (is_absolute (value_or (bytes "/tmp/echo.so") vm.mod_file) ≡ true)

module _ {os : Os} where
  option-Stays :
      (d : Bytes) (p : Option Bytes) → is_absolute (value_or d p) ≡ true → Stays (linux os) d p
  unfolding absolute
  option-Stays d p h m = rw h refl

  AllAbsolute-AllStay : (vm : VariablesMap) → AllAbsolute vm → AllStay (linux os) vm
  AllAbsolute-AllStay vm (l, c, p, f) = (
    option-Stays (bytes "/tmp") vm.log_dir l,
    option-Stays (bytes "/tmp/mpic.conf") vm.cfg c,
    option-Stays (bytes "/tmp/mpic.pid") vm.pid p,
    option-Stays (bytes "/tmp/echo.so") vm.mod_file f,
  )

  abbrev Known : Machine os → Bytes → Machine os → Type 0
  Known m name n = (n.events ≡ m.events) × (is_empty n.exe_name ≡ false)

  get_exe_name-Known : (L : Linked os) (m : Machine os) → Returns (Known m) (get_exe_name os m)
  unfolding get_exe_name read_exe_name
  get_exe_name-Known L m = elim (Bool-cases (is_empty m.exe_name)) [
    | inl e ↦ rw (e, L.link m.world, L.short m.world) (refl, L.name m.world)
    | inr e ↦ rw e (refl, e)
  ]

  -- What `Init` gives, and that the static name is set.
  abbrev pub StartedNamed : Options → Machine os → Bool × Options → Machine os → Type 0
  StartedNamed o m r n =
      (r ≡ (true, record o { initialized = true }))
      × (n.events ≡ m.events ++ checks o)
      × (is_empty n.exe_name ≡ false)

  pub init-StartedNamed :
      (L : Linked os) (parse : List Bytes → Option VariablesMap) (argv : List Bytes)
      (vm : VariablesMap) (R : Ready os (given_options argv vm)) (m : Machine os)
      → parse argv ≡ some vm
      → vm.help ≡ false
      → AllAbsolute vm
      → Returns (StartedNamed (given_options argv vm) m) (init os parse argv new_options m)
  unfolding init_on
  init-StartedNamed L parse argv vm R m parsed no_help given =
      Returns-and_then (Known m) (StartedNamed (given_options argv vm) m) (get_exe_name os m) _
        (get_exe_name-Known L m)
        (λ name n known. rw parsed (
          Returns-mono (Started (linux os) (given_options argv vm) n)
            (StartedNamed (given_options argv vm) m) _
            (apply-Started (linux os) argv vm R n no_help (AllAbsolute-AllStay vm given))
            (λ r k a. (
              a.0,
              a.1 ∙ ap (λ es. es ++ checks (given_options argv vm)) known.0,
              ap is_empty a.2 ∙ known.1,
            ))))
