-- ===== src/Options/Given.antt =====
-- What boost writes into the options, in mpic/option.cc.
use mpic.Prelude.{
  ◌≡◌, refl, Bool, true, false, some, List, [], ◌∷◌, pos, Bytes, if◌then◌else◌, is_empty, arith,
}
use mpic.FileUtil.{get_file_name_without_ext}
use mpic.FileUtil.BaseName.{file_name_without_dot, none_given}
use mpic.Options.{Options, new_options, VariablesMap, value_or, join_cmdline, notify, set_flags}

-- The name, the number of workers and the orders are those of the command line.
abbrev pub AsGiven : VariablesMap → Options → Type 0
AsGiven vm o =
    (o.name ≡ value_or [] vm.name)
    × (o.worker_processes ≡ value_or (pos 1) vm.worker_processes)
    × (o.kill ≡ vm.kill)
    × (o.reload ≡ vm.reload)
    × (o.status ≡ vm.status)
    × (o.foreground ≡ vm.foreground)

pub is_empty-nil : (s : Bytes) → is_empty s ≡ true → s ≡ []
is_empty-nil [] h = refl
is_empty-nil (c ∷ s) h = cc

set_if-false : (b : Bool) → (if b then true else false) ≡ b
set_if-false true = refl
set_if-false false = refl

-- The options once the command line is read.
abbrev pub read_options : List Bytes → VariablesMap → Options
read_options argv vm =
    set_flags vm (notify vm (record new_options { original_cmdline = join_cmdline argv }))

pub read_options-AsGiven :
    (argv : List Bytes) (vm : VariablesMap) → AsGiven vm (read_options argv vm)
unfolding set_flags notify
read_options-AsGiven argv vm = (
  refl,
  refl,
  set_if-false vm.kill,
  set_if-false vm.reload,
  set_if-false vm.status,
  set_if-false vm.foreground,
)

pub not_initialized :
    (argv : List Bytes) (vm : VariablesMap) → (read_options argv vm).initialized ≡ false
unfolding set_flags notify
not_initialized argv vm = refl

pub not_set :
    (argv : List Bytes) (vm : VariablesMap)
    → (notify vm (record new_options { original_cmdline = join_cmdline argv })).cfg_file ≡ []
unfolding notify
not_set argv vm = refl

pub no_file_name : get_file_name_without_ext [] ≡ some []
no_file_name = file_name_without_dot [] [] none_given tt tt (omega arith)
