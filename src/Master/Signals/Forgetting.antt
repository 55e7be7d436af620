-- ===== src/Master/Signals/Forgetting.antt =====
-- The part of `HandleSIGCHLD` of mpic/master_linux.cc that forgets a child whose end was reported.
use mpic.Prelude.{
  sym, ap, subst, ℕ, ◌≤◌, ◌≡◌, inl, inr, Bool, true, false, not, ◌&&◌, ◌||◌, arith, ◌==◌,
  Bool-cases, length,
}
use mpic.Prelude.State.{pure, Returns, Returns-and_then, Returns-and}
use mpic.Os.{Os, fork}
use mpic.Os.Kernel.{IsKernel, IsQuiet}
use mpic.Options.{Options}
use mpic.Master.{State}
use mpic.Master.Processes.{IsMap, has, erase, has-erase, erase-Above, length-erase}
use mpic.Master.Workers.{spawn_child_worker}
use mpic.Master.Workers.Table.{Table, Spawned, spawn_child_worker-Spawned, spawn_child_worker-world}
use mpic.Master.Signals.Supervised.{Supervised}
use mpic.Master.Signals.{forget}

-- As `Supervised`, but the end of child `p` was reported and the maps still have it.
pub record Lost {os : Os} (K : IsKernel os) (n p : ℕ) (s : State os) : Type 0 where
  pub running_sorted : IsMap s.running
  pub exiting_sorted : IsMap s.exiting
  pub count : length s.running ≡ n
  pub apart : (q : ℕ) → (has s.running q && has s.exiting q) ≡ false
  pub exact :
      (q : ℕ) → K.child s.machine.world q ≡ (not (q == p) && (has s.running q || has s.exiting q))

-- Every id of the second part is one of the first.
abbrev pub Shrinks : (ℕ → Bool) → (ℕ → Bool) → Type 0
Shrinks f g = (p : ℕ) → g p ≡ true → f p ≡ true

module _ {os : Os} (K : IsKernel os) (Q : IsQuiet os) (op : Options) (n : ℕ) where
  abbrev pub Keeps : State os → State os → Type 0
  Keeps s t =
      Supervised K n t
      × (Q.pending t.machine.world ≤ Q.pending s.machine.world)
      × Shrinks (has s.exiting) (has t.exiting)

  -- The state without the entries of `p`.
  abbrev without : ℕ → State os → State os
  without p s = record s { running = erase p s.running; exiting = erase p s.exiting }

  without-Table :
      (p : ℕ) (s : State os) → Lost K n p s → Table K (has (erase p s.exiting)) (without p s)
  without-Table p s l = record {
    sorted = erase-Above 0 p s.running l.running_sorted;
    apart = λ q. ground (
      arith,
      has-erase 0 p s.running q l.running_sorted,
      has-erase 0 p s.exiting q l.exiting_sorted,
      l.apart q,
    );
    exact = λ q. ground (
      arith,
      has-erase 0 p s.running q l.running_sorted,
      has-erase 0 p s.exiting q l.exiting_sorted,
      l.exact q,
    );
  }

  respawned :
      (p : ℕ) (s t : State os)
      → Lost K n p s
      → has s.running p ≡ true
      → Spawned K (has (erase p s.exiting)) 1 (without p s) t
      → Supervised K n t
  respawned p s t l h a = record {
    table = subst (λ m. Table K (has m) t) (sym a.exiting) a.table;
    sorted = subst IsMap (sym a.exiting) (erase-Above 0 p s.exiting l.exiting_sorted);
    count = omega (arith, a.count, length-erase p s.running h, l.count);
  }

  forget_running :
      (p : ℕ) (s : State os)
      → Lost K n p s
      → has s.running p ≡ true
      → Returns (λ _ t. Keeps s t) (forget os op p s)
  unfolding forget
  forget_running p s l h = rw h (
      Returns-and_then
        (λ _ t.
          Spawned K (has (erase p s.exiting)) 1 (without p s) t
          × (t.machine.world ≡ (os.sys fork s.machine.world).1))
        (λ _ t. Keeps s t) (spawn_child_worker os op (without p s)) (λ _. pure tt)
        (Returns-and _ _ (spawn_child_worker os op (without p s))
          (spawn_child_worker-Spawned K (has (erase p s.exiting)) op (without p s)
            (without-Table p s l))
          (spawn_child_worker-world K (has (erase p s.exiting)) op (without p s)))
        (λ _ t a. (
          respawned p s t l h a.0,
          rw (a.1) (Q.fork_pending s.machine.world),
          λ q x.
              ground (
                arith,
                ap (λ m. has m q) a.0.exiting,
                has-erase 0 p s.exiting q l.exiting_sorted,
                x,
              ),
        )))

  forget_other :
      (p : ℕ) (s : State os)
      → Lost K n p s
      → has s.running p ≡ false
      → Returns (λ _ t. Keeps s t) (forget os op p s)
  unfolding forget
  forget_other p s l h = rw h (
    record {
      table = record {
        sorted = l.running_sorted;
        apart = λ q. ground (arith, has-erase 0 p s.exiting q l.exiting_sorted, l.apart q);
        exact = λ q. ground (arith, has-erase 0 p s.exiting q l.exiting_sorted, l.exact q);
      };
      sorted = erase-Above 0 p s.exiting l.exiting_sorted;
      count = l.count;
    },
    omega arith,
    λ q x. ground (arith, has-erase 0 p s.exiting q l.exiting_sorted, x),
  )

  pub forget-Keeps :
      (p : ℕ) (s : State os) → Lost K n p s → Returns (λ _ t. Keeps s t) (forget os op p s)
  forget-Keeps p s l = elim (Bool-cases (has s.running p)) [
    | inl h ↦ forget_running p s l h
    | inr h ↦ forget_other p s l h
  ]
