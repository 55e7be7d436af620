-- ===== src/Master.antt =====
-- mpic/master.h: the fields of the class, and how its methods use the parts.
pub mod Processes
pub mod Fleet
pub mod Frame
pub mod Lifting
pub mod Loader
pub mod Workers
pub mod Signals
pub mod Daemon
pub mod Windows
use mpic.Prelude.{ℕ, Bool, Option, ℤ, if◌then◌else◌}
use mpic.Prelude.State.{Outcome, returned, exited, aborted, unfinished, ◌>>=◌, abort}
use mpic.Os.{Os, Call, Method}
use mpic.Os.Machine
use mpic.Os.Machine.{Machine, M, uncaught}
use mpic.Options.{Options}
use mpic.DynLib.{DynLib, is_null}
use Processes.{ProcessMap}

-- `resource_` and `module_` are 0 for NULL.
pub record State (os : Os) : Type 0 where
  pub machine : Machine os
  pub option : Options
  pub resource : ℕ
  pub module_ptr : ℕ
  pub dlmodule : Option DynLib
  pub can_reload : Bool
  pub running : ProcessMap
  pub exiting : ProcessMap

abbrev pub Routine : Os → Type 0 → Type 0
Routine os A = State os → Outcome A (State os)

module _ (os : Os) where
  -- A step of the machine, inside the state.
  abbrev pub lift : {A : Type 0} → M os A → State os → Outcome A (State os)
  lift f s = elim (f s.machine) [
    | returned a m ↦ returned a (record s { machine = m })
    | exited c m ↦ exited c (record s { machine = m })
    | aborted m ↦ aborted (record s { machine = m })
    | unfinished m ↦ unfinished (record s { machine = m })
  ]

  abbrev pub sys : Call → Routine os ℤ
  sys c = lift (Machine.sys os c)

  -- A virtual method of an object; the call goes through a pointer, and lets exceptions pass.
  abbrev pub invoke : ℕ → Method → Routine os ℤ
  invoke p c = if is_null p then abort else do r ← lift (Machine.method os c); uncaught r
