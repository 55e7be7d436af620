-- ===== src/Options/Applying.antt =====
-- The steps of `Option::Init` of mpic/option.cc after one another, on a platform that answers.
use mpic.Prelude.{
  ◌≡◌, refl, sym, ap, subst, ◌∙◌, Option, some, List, [], Bytes, Bool, is_empty, Bool-cases, inl,
  inr, true, false,
}
use mpic.Prelude.State.{
  returned, Returns, Returns-and_then, Returns-mono, Returns-else, then_branch,
}
use mpic.Os.{Os}
use mpic.Os.Machine.{Machine}
use mpic.FileUtil.{get_file_name_without_ext}
use mpic.Options.Given.{
  AsGiven, read_options, read_options-AsGiven, is_empty-nil, not_initialized, not_set, no_file_name,
}
use mpic.Options.Resolving.{
  Keeping, Works, AllNonEmpty, PathsKept, PathsSet, FilesChecked, check_files-FilesChecked,
  resolve_paths-PathsSet,
}
use mpic.Options.{
  Options, Platform, new_options, VariablesMap, join_cmdline, notify, resolve_paths, check_files,
  default_name, apply, init_on,
}

module _ {os : Os} where
  -- The configuration file is not set yet, and its name is empty.
  pub default_name-keeps :
      (o : Options) (m : Machine os) → o.cfg_file ≡ [] → default_name os o m ≡ returned o m
  unfolding default_name
  default_name-keeps o m unset = elim (Bool-cases (is_empty o.name)) [
    | inl e ↦
        rw (e, ap get_file_name_without_ext unset ∙ no_file_name)
          (ap (λ n. returned (record o { name = n }) m) (sym (is_empty-nil o.name e)))
    | inr e ↦ rw e refl
  ]

module _ {os : Os} (platform : Platform os) (Kept : Keeping) where
  -- What a call of `Init` leaves, and what a second call then does.
  abbrev pub AcceptedOn :
      (List Bytes → Option VariablesMap)
      → List Bytes
      → VariablesMap
      → Bool × Options
      → Machine os
      → Type 0
  AcceptedOn parse argv vm r m =
      PathsKept Kept vm r.1
      × AsGiven vm r.1
      × (r.1.initialized ≡ r.0)
      × (r.0 ≡ true → init_on platform parse argv r.1 m ≡ returned (true, r.1) m)

module _ {os : Os} {platform : Platform os} {Kept : Keeping} (works : Works platform Kept) where
  abbrev Settled : VariablesMap → Bool × Options → Machine os → Type 0
  Settled vm r _ = PathsKept Kept vm r.1 × AsGiven vm r.1 × (r.1.initialized ≡ r.0)

  settled :
      (argv : List Bytes) (vm : VariablesMap) (o : Options) (r : Bool × Options) (m : Machine os)
      → PathsSet works vm (read_options argv vm) (true, o) m
      → r.1 ≡ record o { initialized = r.0 }
      → Settled vm r m
  settled argv vm o r m a e =
      subst (λ x. PathsKept Kept vm x × AsGiven vm x × (x.initialized ≡ r.0)) (sym e)
        (a.1, subst (AsGiven vm) (sym a.2) (read_options-AsGiven argv vm), refl)

  apply-Settled :
      (argv : List Bytes) (vm : VariablesMap) (m : Machine os)
      → vm.help ≡ false
      → AllNonEmpty vm
      → Returns
          (Settled vm)
          (apply platform vm (record new_options { original_cmdline = join_cmdline argv }) m)
  unfolding apply
  apply-Settled argv vm m no_help given = Returns-else (Settled vm) vm.help _ _ m no_help (
      rw
        (default_name-keeps
          (notify vm (record new_options { original_cmdline = join_cmdline argv })) m
          (not_set argv vm))
        (Returns-and_then (PathsSet works vm (read_options argv vm)) (Settled vm)
          (resolve_paths platform vm (read_options argv vm) m) _
          (resolve_paths-PathsSet works vm (read_options argv vm) m given)
          (λ (ok, o) m a. rw (a.0) (
            Returns-mono (FilesChecked o) (Settled vm) (check_files platform o m)
              (check_files-FilesChecked works o m
                (ap (λ x. x.initialized) a.2 ∙ not_initialized argv vm))
              (λ r m e. settled argv vm o r m (refl, a.1, a.2) e)))))

  pub init_on-AcceptedOn :
      (parse : List Bytes → Option VariablesMap) (argv : List Bytes) (vm : VariablesMap)
      (m : Machine os)
      → parse argv ≡ some vm
      → vm.help ≡ false
      → AllNonEmpty vm
      → Returns (AcceptedOn platform Kept parse argv vm) (init_on platform parse argv new_options m)
  unfolding init_on
  init_on-AcceptedOn parse argv vm m parsed no_help given =
      Returns-and_then (λ _ _. Unit) (AcceptedOn platform Kept parse argv vm) (platform.exe_name m)
        _ (works.named m)
        (λ _ m _. rw parsed (
          Returns-mono (Settled vm) (AcceptedOn platform Kept parse argv vm) _
            (apply-Settled argv vm m no_help given)
            (λ r m a. (a.0, a.1, a.2, λ ok. then_branch r.1.initialized _ _ m (a.2 ∙ ok)))))
