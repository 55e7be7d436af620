-- ===== src/Master/Workers/Table.antt =====
-- What `SpawnChildWorkers` and `KillChildren` of mpic/master_linux.cc do to the two maps, to the
-- kernel's table of children, and to the list of calls.
use mpic.Prelude.{
  ℕ, zero, suc, ◌+◌, ◌≡◌, refl, ◌∙◌, Bool, false, ◌&&◌, ◌||◌, [], ◌∷◌, ◌++◌, arith, pos_part,
  length, replicate,
}
use mathlib.Core.List.{append_assoc, append-nil}
use mpic.Prelude.State.{Returns, Returns-and_then, Returns-mono}
use mpic.Os.{Os, fork}
use mpic.Os.Machine.{called}
use mpic.Os.Kernel.{IsKernel}
use mpic.Options.{Options}
use mpic.Master.{State}
use mpic.Master.Processes.{Process, IsMap, has, has-insert, insert-Above, length-insert}
use mpic.Master.Workers.{spawn_child_worker, spawn_times, spawn_child_workers}

-- What an operation leaves of the state but the machine and the two maps.
pub record SameObjects (os : Os) (s t : State os) : Type 0 where
  pub option : t.option ≡ s.option
  pub resource : t.resource ≡ s.resource
  pub module_ptr : t.module_ptr ≡ s.module_ptr

-- The kernel's children are those of `running` and the `others`, and no child is in both.
pub record Table {os : Os} (K : IsKernel os) (others : ℕ → Bool) (s : State os) : Type 0 where
  pub sorted : IsMap s.running
  pub apart : (p : ℕ) → (has s.running p && others p) ≡ false
  pub exact : (p : ℕ) → K.child s.machine.world p ≡ (has s.running p || others p)

-- `n` new workers.
pub record Spawned {os : Os} (K : IsKernel os) (others : ℕ → Bool) (n : ℕ) (s t : State os)
    : Type 0 where
  pub table : Table K others t
  pub count : length t.running ≡ n + length s.running
  pub exiting : t.exiting ≡ s.exiting
  pub events : t.machine.events ≡ s.machine.events ++ replicate n (called fork)
  pub same : SameObjects os s t

module _ {os : Os} (K : IsKernel os) (others : ℕ → Bool) (op : Options) where
  -- The id of the next child is in neither part.
  fork_id-fresh :
      (s : State os)
      → Table K others s
      → (has s.running (suc (K.fork_id s.machine.world)) ≡ false)
        × (others (suc (K.fork_id s.machine.world)) ≡ false)
  fork_id-fresh s T =
      ground (arith, T.exact (suc (K.fork_id s.machine.world)), K.fork_fresh s.machine.world)

  pub spawn_child_worker-world :
      (s : State os)
      → Returns
          (λ _ t. t.machine.world ≡ (os.sys fork s.machine.world).1)
          (spawn_child_worker os op s)
  unfolding spawn_child_worker
  spawn_child_worker-world s = rw (K.fork_result s.machine.world)

  pub spawn_child_worker-Spawned :
      (s : State os)
      → Table K others s
      → Returns (λ _ t. Spawned K others 1 s t) (spawn_child_worker os op s)
  unfolding spawn_child_worker
  spawn_child_worker-Spawned s T = rw (K.fork_result w) (record {
    table = record {
      sorted = insert-Above 0 (suc n) e s.running (omega arith) T.sorted;
      apart = λ p. ground (arith, has-insert (suc n) e s.running p, T.apart p, fork_id-fresh s T);
      exact = λ p. ground (arith, has-insert (suc n) e s.running p, T.exact p, K.fork_child w p);
    };
    count = omega (arith, length-insert (suc n) e s.running (fork_id-fresh s T).0);
    exiting = refl;
    events = refl;
    same = record { option = refl; resource = refl; module_ptr = refl };
  })
    where
      w : os.World
      w = s.machine.world

      n : ℕ
      n = K.fork_id w

      e : Process
      e = record { pid = suc n }

  Spawned-trans :
      (m : ℕ) {s t u : State os}
      → Spawned K others 1 s t
      → Spawned K others m t u
      → Spawned K others (suc m) s u
  Spawned-trans m {s} a b = record {
    table = b.table;
    count = omega (arith, a.count, b.count);
    exiting = b.exiting ∙ a.exiting;
    events =
        rw (b.events, a.events)
          (append_assoc s.machine.events (called fork ∷ []) (replicate m (called fork)));
    same = record {
      option = b.same.option ∙ a.same.option;
      resource = b.same.resource ∙ a.same.resource;
      module_ptr = b.same.module_ptr ∙ a.same.module_ptr;
    };
  }

  pub spawn_times-Spawned :
      (n : ℕ) (s : State os)
      → Table K others s
      → Returns (λ _ t. Spawned K others n s t) (spawn_times os n op s)
  unfolding spawn_times
  spawn_times-Spawned zero s T = record {
    table = T;
    count = omega arith;
    exiting = refl;
    events = rw append-nil;
    same = record { option = refl; resource = refl; module_ptr = refl };
  }
  spawn_times-Spawned (suc n) s T =
      Returns-and_then (λ _ t. Spawned K others 1 s t) (λ _ t. Spawned K others (suc n) s t)
        (spawn_child_worker os op s) (λ _. spawn_times os n op) (spawn_child_worker-Spawned s T)
        (λ _ t a.
          Returns-mono (λ _ u. Spawned K others n t u) (λ _ u. Spawned K others (suc n) s u)
            (spawn_times os n op t) (spawn_times-Spawned n t a.table)
            (λ _ u b. Spawned-trans n a b))

  pub spawn_child_workers-Spawned :
      (s : State os)
      → Table K others s
      → Returns
          (λ _ t. Spawned K others (pos_part op.worker_processes) s t)
          (spawn_child_workers os op s)
  unfolding spawn_child_workers
  spawn_child_workers-Spawned = spawn_times-Spawned (pos_part op.worker_processes)
