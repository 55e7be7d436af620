-- ===== src/Options/Paths.antt =====
-- What `Option::Init` of mpic/option.cc leaves in the options, on Linux.
use mpic.Prelude.{
  ◌≡◌, refl, sym, subst, Bool, true, Option, some, List, [], ◌∷◌, ◌++◌, ℤ, pos, negsuc, ltb, Bytes,
  is_empty, Bool-cases, inl, inr, false, bytes,
}
use mpic.Prelude.State.{returned, Returns, Returns-mono}
use mpic.Os.{Os}
use mpic.Os.Machine.{Machine}
use mpic.FileUtil.{real_path}
use mpic.Options.Applying.{AcceptedOn, init_on-AcceptedOn}
use mpic.Options.Given.{AsGiven}
use mpic.Options.Resolving.{Works, AllNonEmpty, PathsKept}
use mpic.Options.{
  Options, new_options, VariablesMap, is_absolute, absolute, read_exe_name, get_exe_name, linux,
  init,
}

-- `realpath` finds every path, and gives an absolute one.
pub record Resolves (os : Os) : Type 0 where
  pub found :
      (path : Bytes) (w : os.World)
      → (d : Bytes) × ((os.realpath path w).0 ≡ some d) × (is_absolute d ≡ true)

-- All four paths are absolute.
abbrev pub AbsolutePaths : Options → Type 0
AbsolutePaths o =
    (is_absolute o.log_dir ≡ true)
    × (is_absolute o.cfg_file ≡ true)
    × (is_absolute o.pid_file ≡ true)
    × (is_absolute o.module_file ≡ true)

is_absolute-append : (p q : Bytes) → is_absolute p ≡ true → is_absolute (p ++ q) ≡ true
is_absolute-append [] q h = cc
is_absolute-append (b ∷ p) q h = h

-- An absolute path is not empty.
is_absolute-not_empty : (p : Bytes) → is_absolute p ≡ true → is_empty p ≡ false
is_absolute-not_empty [] h = cc
is_absolute-not_empty (b ∷ p) h = refl

abbrev MadeAbsolute : Bytes → Bytes → Type 0
MadeAbsolute path p = is_absolute p ≡ true

PathsKept-AbsolutePaths :
    (vm : VariablesMap) (o : Options) → PathsKept MadeAbsolute vm o → AbsolutePaths o
PathsKept-AbsolutePaths vm o ((d, e, a), cfg, pid, file) =
    (subst (λ q. is_absolute q ≡ true) (sym e) (is_absolute-append d (bytes "/") a), cfg, pid, file)

module _ {os : Os} where
  read_exe_name-Returns :
      (link : ℤ × Bytes) (m : Machine os) → Returns (λ _ _. Unit) (read_exe_name os link m)
  unfolding read_exe_name
  read_exe_name-Returns (negsuc n, buf) m = tt
  read_exe_name-Returns (pos n, buf) m = elim (Bool-cases (ltb n 1024)) [
    | inl e ↦ rw e tt
    | inr e ↦ rw e tt
  ]

  get_exe_name-Returns : (m : Machine os) → Returns (λ _ _. Unit) (get_exe_name os m)
  unfolding get_exe_name
  get_exe_name-Returns m = elim (Bool-cases (is_empty m.exe_name)) [
    | inl e ↦ rw e (read_exe_name-Returns (os.readlink m.world).0 _)
    | inr e ↦ rw e tt
  ]

  absolute-Resolved :
      (R : Resolves os) (path : Bytes) (m : Machine os)
      → is_empty path ≡ false
      → Returns
          (λ r _. (p : Bytes) × (r ≡ some p) × MadeAbsolute path p)
          (absolute (linux os) path m)
  unfolding absolute real_path
  absolute-Resolved R [] m h = cc
  absolute-Resolved R (b ∷ path) m h = elim (Bool-cases (is_absolute (b ∷ path))) [
    | inl e ↦ rw e (b ∷ path, refl, e)
    | inr e ↦
        let (d, found, whole) = R.found (b ∷ path) m.world in
        rw (e, found, is_absolute-not_empty d whole) (d, refl, whole)
  ]

  linux-Works : Resolves os → Works (linux os) MadeAbsolute
  linux-Works R = record {
    named = get_exe_name-Returns;
    makes = λ dir m. tt;
    keeps = absolute-Resolved R;
  }

  -- What a call of `Init` leaves, and what a second call then does.
  abbrev pub Accepted :
      (List Bytes → Option VariablesMap)
      → List Bytes
      → VariablesMap
      → Bool × Options
      → Machine os
      → Type 0
  Accepted parse argv vm r m =
      AbsolutePaths r.1
      × AsGiven vm r.1
      × (r.1.initialized ≡ r.0)
      × (r.0 ≡ true → init os parse argv r.1 m ≡ returned (true, r.1) m)

  -- `Init` of new options, on a command line that can be parsed, asks for no help and gives no empty
  -- path: it returns. The paths that it leaves are absolute, and the name, the number of workers and
  -- the orders are those of the command line; so the name is empty if none was given. The options
  -- count as initialised exactly if it returns true, and then a second call changes nothing.
  pub init-Returns :
      (R : Resolves os) (parse : List Bytes → Option VariablesMap) (argv : List Bytes)
      (vm : VariablesMap) (m : Machine os)
      → parse argv ≡ some vm
      → vm.help ≡ false
      → AllNonEmpty vm
      → Returns (Accepted parse argv vm) (init os parse argv new_options m)
  init-Returns R parse argv vm m parsed no_help given =
      Returns-mono (AcceptedOn (linux os) MadeAbsolute parse argv vm) (Accepted parse argv vm) _
        (init_on-AcceptedOn (linux-Works R) parse argv vm m parsed no_help given)
        (λ r m a. (PathsKept-AbsolutePaths vm r.1 a.0, a.1, a.2, a.3))
