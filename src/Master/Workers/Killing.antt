-- ===== src/Master/Workers/Killing.antt =====
-- What `KillChildren` of mpic/master_linux.cc does: it sends SIGTERM to each process of a map, in
-- the order of the map, and notes each as exiting.
use mpic.Prelude.{ℕ, ◌≡◌, refl, ◌∙◌, ◌||◌, List, [], ◌∷◌, ◌++◌, arith}
use mathlib.Core.List.{append_assoc, append-nil}
use mpic.Prelude.State.{Returns, Returns-mono}
use mpic.Os.{Os, kill, sigterm}
use mpic.Os.Machine.{Event, called}
use mpic.Os.Kernel.{IsKernel}
use mpic.Master.{State}
use mpic.Master.Processes.{Process, ProcessMap, IsMap, Above, has, insert, has-insert, insert-Above}
use mpic.Master.Workers.{kill_children}
use mpic.Master.Workers.Table.{SameObjects}

abbrev pub kills : ProcessMap → List Event
kills [] = []
kills ((p, _) ∷ m) = called (kill p sigterm) ∷ kills m

pub record Killed {os : Os} (K : IsKernel os) (m : ProcessMap) (s t : State os) : Type 0 where
  pub running : t.running ≡ s.running
  pub sorted : IsMap t.exiting
  pub exiting : (p : ℕ) → has t.exiting p ≡ (has m p || has s.exiting p)
  pub events : t.machine.events ≡ s.machine.events ++ kills m
  pub child : (p : ℕ) → K.child t.machine.world p ≡ K.child s.machine.world p
  pub same : SameObjects os s t

module _ {os : Os} (K : IsKernel os) where
  -- The state after one round.
  abbrev killed_one : ℕ → Process → State os → State os
  killed_one p e s = record s {
    machine = record s.machine {
      world = (os.sys (kill p sigterm) s.machine.world).1;
      events = s.machine.events ++ (called (kill p sigterm) ∷ []);
    };
    exiting = insert p e s.exiting;
  }

  Killed-cons :
      (p : ℕ) (e : Process) (m : ProcessMap) (s t : State os)
      → Killed K m (killed_one p e s) t
      → Killed K ((p, e) ∷ m) s t
  unfolding has
  Killed-cons p e m s t k = record {
    running = k.running;
    sorted = k.sorted;
    exiting = λ q. ground (arith, k.exiting q, has-insert p e s.exiting q);
    events = k.events ∙ append_assoc s.machine.events (called (kill p sigterm) ∷ []) (kills m);
    child = λ q. k.child q ∙ K.sys_child (kill p sigterm) s.machine.world q refl;
    same = record {
      option = k.same.option;
      resource = k.same.resource;
      module_ptr = k.same.module_ptr;
    };
  }

  -- From any bound: the keys of `m` are positive.
  kill_children-Killed-Above :
      (n : ℕ) (m : ProcessMap) (s : State os)
      → Above n m
      → IsMap s.exiting
      → Returns (λ _ t. Killed K m s t) (kill_children os m s)
  unfolding kill_children has
  kill_children-Killed-Above n [] s a x = record {
    running = refl;
    sorted = x;
    exiting = λ p. refl;
    events = rw append-nil;
    child = λ p. refl;
    same = record { option = refl; resource = refl; module_ptr = refl };
  }
  kill_children-Killed-Above n ((p, e) ∷ m) s a x =
      Returns-mono (λ _ t. Killed K m (killed_one p e s) t) (λ _ t. Killed K ((p, e) ∷ m) s t)
        (kill_children os m (killed_one p e s))
        (kill_children-Killed-Above p m (killed_one p e s) a.1
          (insert-Above 0 p e s.exiting (omega arith) x))
        (λ _ t k. Killed-cons p e m s t k)

  pub kill_children-Killed :
      (m : ProcessMap) (s : State os)
      → IsMap m
      → IsMap s.exiting
      → Returns (λ _ t. Killed K m s t) (kill_children os m s)
  kill_children-Killed = kill_children-Killed-Above 0
