-- ===== src/Master/Signals/Supervised.antt =====
-- The invariant of the main loop of `RunMaster` in mpic/master_linux.cc.
use mpic.Prelude.{ℕ, ◌≡◌, ap, sym, subst, ◌∙◌, arith, length}
use mpic.Os.{Os}
use mpic.Os.Kernel.{IsKernel}
use mpic.Master.{State}
use mpic.Master.Frame.{Frame}
use mpic.Master.Processes.{IsMap, has}
use mpic.Master.Workers.Table.{Table}

-- `n` workers run. The kernel's children are those of the two maps, and no child is in both.
pub record Supervised {os : Os} (K : IsKernel os) (n : ℕ) (s : State os) : Type 0 where
  pub table : Table K (has s.exiting) s
  pub sorted : IsMap s.exiting
  pub count : length s.running ≡ n

-- The states after `waitpid` and after `sigwaitinfo`.
module _ (os : Os) where
  abbrev pub waited : State os → State os
  waited s = record s { machine = record s.machine { world = (os.waitpid s.machine.world).1 } }

  abbrev pub signalled : State os → State os
  signalled s = record s {
    machine = record s.machine { world = (os.sigwaitinfo s.machine.world).1 };
  }

module _ {os : Os} (K : IsKernel os) (n : ℕ) where
  pub Frame-Supervised : {s t : State os} → Frame K s t → Supervised K n s → Supervised K n t
  Frame-Supervised {s} {t} f v = record {
    table = record {
      sorted = subst IsMap (sym f.running) v.table.sorted;
      apart = λ p. ground (arith, runs p, exits p, v.table.apart p);
      exact = λ p. ground (arith, runs p, exits p, v.table.exact p, f.still.child p);
    };
    sorted = subst IsMap (sym f.exiting) v.sorted;
    count = ap length f.running ∙ v.count;
  }
    where
      runs : (p : ℕ) → has t.running p ≡ has s.running p
      runs p = ap (λ m. has m p) f.running

      exits : (p : ℕ) → has t.exiting p ≡ has s.exiting p
      exits p = ap (λ m. has m p) f.exiting

  pub sigwaitinfo-Supervised : (s : State os) → Supervised K n s → Supervised K n (signalled os s)
  sigwaitinfo-Supervised s v = record {
    table = record {
      sorted = v.table.sorted;
      apart = v.table.apart;
      exact = λ p. K.sigwaitinfo_child s.machine.world p ∙ v.table.exact p;
    };
    sorted = v.sorted;
    count = v.count;
  }
