-- ===== src/Master/Signals/Refinement.antt =====
-- The main loop of `RunMaster` in mpic/master_linux.cc takes the steps of the fleet.
use mpic.Prelude.{Bool, length}
use mpic.Prelude.State.{Outcome, returned, exited, aborted, unfinished}
use mpic.Os.{Os}
use mpic.Os.Kernel.{IsKernel}
use mpic.Options.{Options}
use mpic.Master.{State}
use mpic.Master.Fleet.{Fleet, FleetStep}
use mpic.Master.Processes.{has}
use mpic.Master.Signals.{Next, again, return_}
use mpic.Master.Signals.Supervised.{Supervised}
use mpic.Master.Signals.Reloading.{workers}

-- The fleet that a state stands for.
abbrev pub fleet : {os : Os} → Bool → State os → Fleet
fleet e s = record {
  running = has s.running;
  exiting = has s.exiting;
  size = length s.running;
  stopping = e;
}

module _ {os : Os} (K : IsKernel os) (op : Options) where
  -- What a round comes to, if there is another, is a step from `f`.
  abbrev Steps : Fleet → Outcome Next (State os) → Type 0
  Steps f (returned (again e) t) = FleetStep (workers K op) f (fleet e t)
  Steps f (returned (return_ c) t) = Unit
  Steps f (exited c t) = Unit
  Steps f (aborted t) = Unit
  Steps f (unfinished t) = Unit
