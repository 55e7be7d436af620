-- ===== src/MasterWorkers/Settings.antt =====
-- What `Option::Init` of examples/master-workers/option.cc leaves in the options.
use mpic.Prelude.{
  ◌^◌, ◌<◌, ◌≡◌, refl, sym, ap, subst, ◌∙◌, Bool, true, false, not, List, Bytes, bytes,
  if◌then◌else◌, is_empty, is_zero, length, Bool-cases, inl, inr,
}
use mpic.Prelude.State.{returned, Returns, Returns-and_then, Returns-mono, pure, then_branch}
use mpic.Os.{Os, file_exists, file_readable}
use mpic.Os.Machine.{Machine, M}
use mpic.FileUtil.{is_dir, is_file_exist, is_readable}
use mpic.FileUtil.Stem.{stem, base_name, file_name-stem}
use mpic.Options.{join_cmdline}
use mpic.MasterWorkers.CommandLine.{
  Options, new_options, Flags, set_fields, flags_log_dir, default_name, ensure_dir, check_config,
  init,
}

-- The options as `flags` and the log directory set them.
pub record AsFlagged (flags : Flags) (dir : Bytes) (o : Options) : Type 0 where
  pub orders :
      (o.kill ≡ flags.kill)
      × (o.reload ≡ flags.reload)
      × (o.status ≡ flags.status)
      × (o.foreground ≡ flags.foreground)
  pub worker_processes : o.worker_processes ≡ flags.worker_processes
  pub files : (o.cfg_file ≡ flags.config_file) × (o.pid_file ≡ flags.pid_file)
  pub name :
      o.name ≡ (if is_empty flags.name then stem (base_name flags.config_file) else flags.name)
  pub log_dir : o.log_dir ≡ dir
  pub not_debugged : o.debug ≡ false

module _ {os : Os} where
  ensure_dir-Returns : (dir : Bytes) (m : Machine os) → Returns (λ _ _. Unit) (ensure_dir os dir m)
  unfolding ensure_dir is_dir
  ensure_dir-Returns dir m =
      let stat = (os.stat dir m.world).0 in
      elim (Bool-cases (if is_zero stat.0 then stat.1 else false)) [
        | inl e ↦ rw e tt
        | inr e ↦ rw e tt
      ]

  abbrev Checked : Options → Bool × Options → Machine os → Type 0
  Checked o r m = r.1 ≡ record o { initialized = r.0 }

  check_config-Checked :
      (o : Options) (m : Machine os)
      → o.initialized ≡ false
      → Returns (Checked o) (check_config os o m)
  unfolding check_config is_file_exist is_readable
  check_config-Checked o m h =
      elim (Bool-cases (is_zero (os.sys (file_exists o.cfg_file) m.world).0)) [
        | inl e ↦ rw e (
            marked (
              is_zero
                (os.sys (file_readable o.cfg_file) (os.sys (file_exists o.cfg_file) m.world).1).0))
        | inr e ↦ rw e (marked false)
      ]
    where
      marked :
          (b : Bool)
          → Checked o (if b then (true, record o { initialized = true }) else (false, o)) m
      marked true = refl
      marked false = ap (λ b. record o { initialized = b }) h

  -- The options with this name.
  abbrev NameSet : Options → Options → Machine os → Type 0
  NameSet o r m =
      (r ≡ record o { name = r.name })
      × (r.name ≡ (if is_empty o.name then stem (base_name o.cfg_file) else o.name))

  default_name-NameSet :
      (o : Options) (m : Machine os)
      → length o.cfg_file < 2 ^ 64
      → Returns (NameSet o) (default_name os o m)
  unfolding default_name
  default_name-NameSet o m h = elim (Bool-cases (is_empty o.name)) [
    | inl e ↦ rw (e, file_name-stem o.cfg_file h) (refl, rw e refl)
    | inr e ↦ rw e (refl, rw e refl)
  ]

  abbrev used_dir : Machine os → Bytes
  used_dir m = if is_empty m.flags_log_dir then bytes "/tmp" else m.flags_log_dir

  abbrev pub Settled : Flags → List Bytes → Machine os → Bool × Options → Machine os → Type 0
  Settled flags argv m r n =
      AsFlagged flags (used_dir m) r.1
      × (r.1.initialized ≡ r.0)
      × (r.0 ≡ true → (k : Machine os) → init os flags argv r.1 k ≡ returned (true, r.1) k)

  -- `Init` of new options, with a configuration file's name below 2^64 bytes, returns. The orders,
  -- the number of workers and the files are those of the flags, the name is that of the flags or, if
  -- it is empty, the stem of the configuration file, the log directory is `FLAGS_log_dir` as it was
  -- before, or `/tmp` if that was empty, and debug is false whatever the flag says. The options count
  -- as initialised exactly if it returns true, and then a second call changes nothing.
  pub init-Settled :
      (flags : Flags) (argv : List Bytes) (m : Machine os)
      → length flags.config_file < 2 ^ 64
      → Returns (Settled flags argv m) (init os flags argv new_options m)
  unfolding init flags_log_dir set_fields
  init-Settled flags argv m h =
      Returns-and_then (NameSet o) (Settled flags argv m) (default_name os o _) _
        (default_name-NameSet o _ h)
        (λ o₁ m₁ a.
          Returns-and_then (λ _ _. Unit) (Settled flags argv m) (ensure_dir os o₁.log_dir m₁) _
            (ensure_dir-Returns o₁.log_dir m₁) (λ ok k _. checked o₁ a ok k))
    where
      o : Options
      o =
          set_fields flags (used_dir m)
            (record new_options { original_cmdline = join_cmdline argv })

      settled :
          (o₁ : Options)
          → NameSet o o₁ m
          → (r : Bool × Options) (n : Machine os) → Checked o₁ r n
          → Settled flags argv m r n
      settled o₁ a r n c =
          let e : r.1 ≡ record o { name = o₁.name; initialized = r.0 } =
            c ∙ ap {A = Options} (λ t. record t { initialized = r.0 }) a.0 in
          (
            subst (AsFlagged flags (used_dir m)) (sym e) (record {
              orders = (refl, refl, refl, refl);
              worker_processes = refl;
              files = (refl, refl);
              name = a.1;
              log_dir = refl;
              not_debugged = refl;
            }),
            ap {A = Options} (λ t. t.initialized) e,
            (λ ok k.
                then_branch r.1.initialized _ _ k (ap {A = Options} (λ t. t.initialized) e ∙ ok)),
          )

      unset : (o₁ : Options) → NameSet o o₁ m → o₁.initialized ≡ false
      unset o₁ a = ap {A = Options} (λ t. t.initialized) a.0

      checked :
          (o₁ : Options)
          → NameSet o o₁ m
          → (ok : Bool) (k : Machine os)
          → let step : M os (Bool × Options) =
              if not ok then pure (false, o₁) else check_config os o₁ in
            Returns (Settled flags argv m) (step k)
      checked o₁ a true k =
          Returns-mono (Checked o₁) (Settled flags argv m) (check_config os o₁ k)
            (check_config-Checked o₁ k (unset o₁ a)) (settled o₁ a)
      checked o₁ a false k =
          settled o₁ a (false, o₁) k (ap (λ b. record o₁ { initialized = b }) (unset o₁ a))
