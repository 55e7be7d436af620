-- ===== src/Options/Resolving.antt =====
-- The paths and files of `Option::Init` in mpic/option.cc, on a platform that answers.
use mpic.Prelude.{
  ◌≡◌, refl, sym, ap, subst, Bool, true, false, Option, none, some, ◌++◌, Bytes, bytes, is_empty,
  is_zero, if◌then◌else◌, Bool-cases, inl, inr,
}
use mpic.Prelude.State.{and_then, Returns, Returns-and_then}
use mpic.Os.{Os, file_exists}
use mpic.Os.Machine.{Machine, M}
use mpic.FileUtil.{is_dir, is_file_exist, is_readable}
use mpic.Options.{
  Options, VariablesMap, Platform, value_or, absolute, resolve_paths, ensure_dir, exists_readable,
  check_files,
}

-- A path that the command line gives is not the empty text.
abbrev pub NonEmpty : Option Bytes → Type 0
NonEmpty none = Unit {0}
NonEmpty (some p) = is_empty p ≡ false

abbrev pub AllNonEmpty : VariablesMap → Type 0
AllNonEmpty vm = NonEmpty vm.log_dir × NonEmpty vm.cfg × NonEmpty vm.pid × NonEmpty vm.mod_file

pub value_or-NonEmpty :
    (d : Bytes) (p : Option Bytes)
    → is_empty d ≡ false
    → NonEmpty p
    → is_empty (value_or d p) ≡ false
value_or-NonEmpty d none e h = e
value_or-NonEmpty d (some p) e h = h

-- What becomes of a path, from the text that was given.
abbrev pub Keeping : Type 1
Keeping = Bytes → Bytes → Type 0

-- What a platform promises: its calls come back, and `tmp_x` is made of a path as `Kept` says.
pub record Works {os : Os} (platform : Platform os) (Kept : Keeping) : Type 0 where
  pub named : (m : Machine os) → Returns (λ _ _. Unit) (platform.exe_name m)
  pub makes : (dir : Bytes) (m : Machine os) → Returns (λ _ _. Unit) (platform.make_dir dir m)
  pub keeps :
      (path : Bytes) (m : Machine os)
      → is_empty path ≡ false
      → Returns (λ r _. (p : Bytes) × (r ≡ some p) × Kept path p) (absolute platform path m)

-- The four paths are made of those of the command line, or of the defaults.
abbrev pub PathsKept : Keeping → VariablesMap → Options → Type 0
PathsKept Kept vm o =
    ((d : Bytes) × (o.log_dir ≡ d ++ bytes "/") × Kept (value_or (bytes "/tmp") vm.log_dir) d)
    × Kept (value_or (bytes "/tmp/mpic.conf") vm.cfg) o.cfg_file
    × Kept (value_or (bytes "/tmp/mpic.pid") vm.pid) o.pid_file
    × Kept (value_or (bytes "/tmp/echo.so") vm.mod_file) o.module_file

module _ {os : Os} where
  exists_readable-Returns :
      (path : Bytes) (m : Machine os) → Returns (λ _ _. Unit) (exists_readable os path m)
  unfolding exists_readable is_file_exist is_readable
  exists_readable-Returns path m =
      elim (Bool-cases (is_zero (os.sys (file_exists path) m.world).0)) [
        | inl e ↦ rw e tt
        | inr e ↦ rw e tt
      ]

  abbrev pub FilesChecked : Options → Bool × Options → Machine os → Type 0
  FilesChecked o r m = r.1 ≡ record o { initialized = r.0 }

module _ {os : Os} {platform : Platform os} {Kept : Keeping} (works : Works platform Kept) where
  ensure_dir-Returns :
      (dir : Bytes) (m : Machine os) → Returns (λ _ _. Unit) (ensure_dir platform dir m)
  unfolding ensure_dir is_dir
  ensure_dir-Returns dir m =
      let stat = (os.stat dir m.world).0 in
      elim (Bool-cases (if is_zero stat.0 then stat.1 else false)) [
        | inl e ↦ rw e tt
        | inr e ↦ rw e (
            Returns-and_then (λ _ _. Unit) (λ _ _. Unit) (platform.make_dir dir _) _
              (works.makes dir _) (λ _ _ _. tt))
      ]

  pub check_files-FilesChecked :
      (o : Options) (m : Machine os)
      → o.initialized ≡ false
      → Returns (FilesChecked o) (check_files platform o m)
  unfolding check_files
  check_files-FilesChecked o m h =
      Returns-and_then (λ _ _. Unit) (FilesChecked o) (ensure_dir platform o.log_dir m) _
        (ensure_dir-Returns o.log_dir m)
        (λ dir m _. elim (Bool-cases dir) [
          | inr e ↦ rw e unset
          | inl e ↦ rw e (
              Returns-and_then (λ _ _. Unit) (FilesChecked o) (exists_readable os o.cfg_file m) _
                (exists_readable-Returns o.cfg_file m)
                (λ cfg m _. elim (Bool-cases cfg) [
                  | inr e ↦ rw e unset
                  | inl e ↦ rw e (
                      Returns-and_then (λ _ _. Unit) (FilesChecked o)
                        (exists_readable os o.module_file m) _
                        (exists_readable-Returns o.module_file m)
                        (λ file m _. elim (Bool-cases file) [
                          | inl e ↦ rw e refl
                          | inr e ↦ rw e unset
                        ]))
                ]))
        ])
    where
      unset : o ≡ record o { initialized = false }
      unset = ap (λ b. record o { initialized = b }) h

  -- The paths are set, and nothing else.
  abbrev pub PathsSet : VariablesMap → Options → Bool × Options → Machine os → Type 0
  PathsSet vm o r m =
      (r.0 ≡ true)
      × PathsKept Kept vm r.1
      × (r.1 ≡ record o {
        log_dir = r.1.log_dir;
        cfg_file = r.1.cfg_file;
        pid_file = r.1.pid_file;
        module_file = r.1.module_file;
      })

  -- One path, and what follows where it is resolved.
  then_path :
      (vm : VariablesMap) (path : Bytes) (o : Options) (m : Machine os)
      (rest : Option Bytes → M os (Bool × Options))
      → is_empty path ≡ false
      → ((p : Bytes) (m : Machine os) → Kept path p → Returns (PathsSet vm o) (rest (some p) m))
      → Returns (PathsSet vm o) (and_then (absolute platform path m) rest)
  then_path vm path o m rest h k =
      Returns-and_then (λ r _. (p : Bytes) × (r ≡ some p) × Kept path p) (PathsSet vm o)
        (absolute platform path m) rest (works.keeps path m h)
        (λ r m (p, e, a). subst (λ q. Returns (PathsSet vm o) (rest q m)) (sym e) (k p m a))

  pub resolve_paths-PathsSet :
      (vm : VariablesMap) (o : Options) (m : Machine os)
      → AllNonEmpty vm
      → Returns (PathsSet vm o) (resolve_paths platform vm o m)
  unfolding resolve_paths
  resolve_paths-PathsSet vm o m (l, c, p, f) =
      then_path vm (value_or (bytes "/tmp") vm.log_dir) o m _
        (value_or-NonEmpty (bytes "/tmp") vm.log_dir refl l)
        (λ log m a.
          then_path vm (value_or (bytes "/tmp/mpic.conf") vm.cfg) o _ _
            (value_or-NonEmpty (bytes "/tmp/mpic.conf") vm.cfg refl c)
            (λ cfg m b.
              then_path vm (value_or (bytes "/tmp/mpic.pid") vm.pid) o m _
                (value_or-NonEmpty (bytes "/tmp/mpic.pid") vm.pid refl p)
                (λ pid m d.
                  then_path vm (value_or (bytes "/tmp/echo.so") vm.mod_file) o m _
                    (value_or-NonEmpty (bytes "/tmp/echo.so") vm.mod_file refl f)
                    (λ file m e. (refl, ((log, refl, a), b, d, e), refl)))))
