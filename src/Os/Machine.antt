-- ===== src/Os/Machine.antt =====
-- The state that all the code shares: the world outside, the calls made so far, and the global
-- variables: `FLAGS_log_dir` of gflags, the static `name` of `Option::GetExeName`, and those of
-- mpic/title.cc with the memory that they point to.
use mpic.Prelude.{ℕ, ℤ, Bool, Option, none, some, List, [], ◌∷◌, ◌++◌, Bytes, if◌then◌else◌}
use mpic.Prelude.State.{Outcome, returned, aborted}
use mpic.Title
use mpic.Title.{Title}
use mpic.Os.{Os, Call, Method, WaitStatus, SigInfo}

pub data Event : Type 0 where
  called : Call → Event
  invoked : Method → Event

-- `events` holds the calls of `sys` and `method`, the oldest first.
pub record Machine (os : Os) : Type 0 where
  pub world : os.World
  pub events : List Event
  pub exe_name : Bytes
  pub flags_log_dir : Bytes
  pub title : Title

-- A part of a state with a machine in it.
abbrev pub M : Os → Type 0 → Type 0
M os A = Machine os → Outcome A (Machine os)

module _ (os : Os) where
  abbrev pub sys : Call → M os ℤ
  sys c m =
      let r = os.sys c m.world in
      returned r.0 (record m { world = r.1; events = m.events ++ (called c ∷ []) })

  abbrev pub method : Method → M os (Option ℤ)
  method c m =
      let r = os.method c m.world in
      returned r.0 (record m { world = r.1; events = m.events ++ (invoked c ∷ []) })

  abbrev pub waitpid : M os (ℤ × WaitStatus)
  waitpid m = let r = os.waitpid m.world in returned r.0 (record m { world = r.1 })

  abbrev pub sigwaitinfo : M os SigInfo
  sigwaitinfo m = let r = os.sigwaitinfo m.world in returned r.0 (record m { world = r.1 })

  abbrev pub stat : Bytes → M os (ℤ × Bool)
  stat path m = let r = os.stat path m.world in returned r.0 (record m { world = r.1 })

  abbrev pub realpath : Bytes → M os (Option Bytes)
  realpath path m = let r = os.realpath path m.world in returned r.0 (record m { world = r.1 })

  abbrev pub readlink : M os (ℤ × Bytes)
  readlink m = let r = os.readlink m.world in returned r.0 (record m { world = r.1 })

  abbrev pub dlopen : Bytes → M os ℕ
  dlopen path m = let r = os.dlopen path m.world in returned r.0 (record m { world = r.1 })

  abbrev pub dlsym : ℕ → Bytes → M os ℕ
  dlsym h name m = let r = os.dlsym h name m.world in returned r.0 (record m { world = r.1 })

  abbrev pub dlerror : M os (Option Bytes)
  dlerror m = let r = os.dlerror m.world in returned r.0 (record m { world = r.1 })

-- An exception that the routine does not catch ends the process.
abbrev pub uncaught : {S : Type 0} → Option ℤ → S → Outcome ℤ S
uncaught none s = aborted s
uncaught (some a) s = returned a s

module _ (os : Os) where
  unfoldable pub init_title : M os Bool
  init_title m =
      let r = os.malloc (Title.env_size m.title) m.world in
      if m.title.attached
      then aborted m
      else let t = Title.init r.0 m.title in returned t.0 (record m { world = r.1; title = t.1 })

  unfoldable pub set_title : Bytes → M os (Unit {0})
  set_title text m = elim (Title.set text m.title) [
    | none ↦ aborted m
    | some t ↦ returned tt (record m { title = t })
  ]
