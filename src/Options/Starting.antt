-- ===== src/Options/Starting.antt =====
-- `Option::Init` of mpic/option.cc where the files and the log directory are there, and each path stays
-- as it is given.
use mpic.Prelude.{
  ◌≡◌, refl, sym, ap, subst, ◌∙◌, if◌then◌else◌, Bool, true, false, List, ◌∷◌, [], ◌++◌, Bytes,
  Option, bytes, pos, is_empty, Bool-cases, inl, inr, some,
}
use mathlib.Core.List.{append_assoc}
use mpic.Prelude.State.{returned, Returns, Returns-and_then, Returns-mono, Returns-else, pure}
use mpic.Os.{Os, file_exists, file_readable}
use mpic.Os.Machine.{Machine, Event, called}
use mpic.FileUtil.{is_dir, is_file_exist, is_readable}
use mpic.Options.Applying.{default_name-keeps}
use mpic.Options.Given.{read_options, not_set}
use mpic.Options.{
  Options, Platform, new_options, VariablesMap, value_or, join_cmdline, notify, absolute,
  set_flags_log_dir, resolve_paths, ensure_dir, exists_readable, check_files, apply,
}

-- The options as the command line gives them, before the files are tested.
abbrev pub given_options : List Bytes → VariablesMap → Options
given_options argv vm = record (read_options argv vm) {
  log_dir = value_or (bytes "/tmp") vm.log_dir ++ bytes "/";
  cfg_file = value_or (bytes "/tmp/mpic.conf") vm.cfg;
  pid_file = value_or (bytes "/tmp/mpic.pid") vm.pid;
  module_file = value_or (bytes "/tmp/echo.so") vm.mod_file;
}

-- The log directory is there, and the two files can be read.
pub record Ready (os : Os) (o : Options) : Type 0 where
  pub directory : (w : os.World) → (os.stat o.log_dir w).0 ≡ (pos 0, true)
  pub cfg_exists : (w : os.World) → (os.sys (file_exists o.cfg_file) w).0 ≡ pos 0
  pub cfg_readable : (w : os.World) → (os.sys (file_readable o.cfg_file) w).0 ≡ pos 0
  pub module_exists : (w : os.World) → (os.sys (file_exists o.module_file) w).0 ≡ pos 0
  pub module_readable : (w : os.World) → (os.sys (file_readable o.module_file) w).0 ≡ pos 0

-- The tests of the two files.
abbrev pub checks : Options → List Event
checks o =
    called (file_exists o.cfg_file)
    ∷ called (file_readable o.cfg_file)
    ∷ called (file_exists o.module_file)
    ∷ called (file_readable o.module_file)
    ∷ []

module _ {os : Os} (platform : Platform os) where
  -- An option's path, or its default, stays as it is.
  abbrev pub Stays : Bytes → Option Bytes → Type 0
  Stays d p =
      (m : Machine os) → absolute platform (value_or d p) m ≡ returned (some (value_or d p)) m

  abbrev pub AllStay : VariablesMap → Type 0
  AllStay vm =
      Stays (bytes "/tmp") vm.log_dir
      × Stays (bytes "/tmp/mpic.conf") vm.cfg
      × Stays (bytes "/tmp/mpic.pid") vm.pid
      × Stays (bytes "/tmp/echo.so") vm.mod_file

  -- The paths are those of the command line; neither a call was made nor the static name changed.
  abbrev ResolvedTo : Options → Machine os → Bool × Options → Machine os → Type 0
  ResolvedTo o m r n = (r ≡ (true, o)) × (n.events ≡ m.events) × (n.exe_name ≡ m.exe_name)

  resolve_paths-ResolvedTo :
      (argv : List Bytes) (vm : VariablesMap) (m : Machine os)
      → AllStay vm
      → Returns
          (ResolvedTo (given_options argv vm) m)
          (resolve_paths platform vm (read_options argv vm) m)
  unfolding resolve_paths set_flags_log_dir
  resolve_paths-ResolvedTo argv vm m (log, cfg, pid, file) =
      elim (Bool-cases (is_empty m.flags_log_dir)) [
        | inl e ↦ rw (log, e, cfg, pid, file) (refl, refl, refl)
        | inr e ↦ rw (log, e, cfg, pid, file) (refl, refl, refl)
      ]

  -- What `Init` gives where the files are there.
  abbrev pub Started : Options → Machine os → Bool × Options → Machine os → Type 0
  Started o m r n =
      (r ≡ (true, record o { initialized = true }))
      × (n.events ≡ m.events ++ checks o)
      × (n.exe_name ≡ m.exe_name)

  check_files-Started :
      (o : Options) (R : Ready os o) (m : Machine os)
      → Returns (Started o m) (check_files platform o m)
  unfolding check_files ensure_dir exists_readable is_dir is_file_exist is_readable
  check_files-Started o R m =
      rw
        (
          R.directory m.world,
          R.cfg_exists _,
          R.cfg_readable _,
          R.module_exists _,
          R.module_readable _,
        )
        (refl, simp append_assoc, refl)

  pub apply-Started :
      (argv : List Bytes) (vm : VariablesMap) (R : Ready os (given_options argv vm))
      (m : Machine os)
      → vm.help ≡ false
      → AllStay vm
      → Returns
          (Started (given_options argv vm) m)
          (apply platform vm (record new_options { original_cmdline = join_cmdline argv }) m)
  unfolding apply
  apply-Started argv vm R m no_help stay =
      Returns-else (Started (given_options argv vm) m) vm.help _ _ m no_help (
        rw
          (default_name-keeps
            (notify vm (record new_options { original_cmdline = join_cmdline argv })) m
            (not_set argv vm))
          (Returns-and_then (ResolvedTo (given_options argv vm) m)
            (Started (given_options argv vm) m) (resolve_paths platform vm (read_options argv vm) m)
            _ (resolve_paths-ResolvedTo argv vm m stay)
            (λ r n e.
              subst
                (λ q.
                  Returns (Started (given_options argv vm) m)
                    ((if q.0 then check_files platform q.1 else pure (false, q.1)) n))
                (sym e.0)
                (Returns-mono (Started (given_options argv vm) n)
                  (Started (given_options argv vm) m) _
                  (check_files-Started (given_options argv vm) R n)
                  (λ r k a.
                    (a.0, a.1 ∙ ap (λ es. es ++ checks (given_options argv vm)) e.1, a.2 ∙ e.2))))))
