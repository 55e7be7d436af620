-- ===== src/MasterWorkers/Killing.antt =====
-- `KillAllChildren` of examples/master-workers/master.cc, at a reload and at the end.
use mpic.Prelude.{
  ℕ, ◌≡◌, refl, sym, ap, subst, ◌∙◌, true, false, ◌&&◌, ◌||◌, [], ◌∷◌, ◌++◌, arith, ℤ, none, length,
  pos_part, is_empty, replicate,
}
use mathlib.Core.List.{append_assoc, append-nil}
use mpic.Prelude.State.{returned, Returns, Returns-map_state}
use mpic.Os.{Os, fork, kill, sigterm}
use mpic.Os.Kernel.{IsKernel}
use mpic.Os.Machine.{Machine, called}
use mpic.Options
use mpic.Master
use mpic.Master.Frame.{calls, calls-append}
use mpic.Master.Processes.{ProcessMap, has}
use mpic.Master.Workers
use mpic.Master.Workers.Table.{Spawned, spawn_times-Spawned}
use mpic.Master.Signals.Replacing.{kill_calls, calls-forks, has-empty}
use mpic.MasterWorkers.{State, Routine, kill_each, kill_all_children, handle_sighub}
use mpic.MasterWorkers.Likeness.{likeness, spawn_times-likeness}

module _ {os : Os} where
  -- The machine after a SIGTERM to each process of a map.
  kill_machine : ProcessMap → Machine os → Machine os
  kill_machine [] m = m
  kill_machine ((p, e) ∷ ps) m = kill_machine ps (record m {
    world = (os.sys (kill p sigterm) m.world).1;
    events = m.events ++ (called (kill p sigterm) ∷ []);
  })

  kill_each_lem :
      (ps : ProcessMap) (s : State os)
      → kill_each os ps s ≡ returned tt (record s { machine = kill_machine ps s.machine })
  unfolding kill_each kill_machine
  kill_each_lem [] s = refl
  kill_each_lem ((p, e) ∷ ps) s = kill_each_lem ps _

  kill_machine-events :
      (ps : ProcessMap) (m : Machine os)
      → calls (kill_machine ps m).events ≡ calls m.events ++ kill_calls ps
  unfolding kill_machine
  kill_machine-events [] m = sym (append-nil (calls m.events))
  kill_machine-events ((p, e) ∷ ps) m =
      kill_machine-events ps _
      ∙ (ap (λ cs. cs ++ kill_calls ps) (calls-append m.events (called (kill p sigterm) ∷ []))
          ∙ append_assoc (calls m.events) (kill p sigterm ∷ []) (kill_calls ps))

  kill_machine-child :
      (K : IsKernel os) (ps : ProcessMap) (m : Machine os) (q : ℕ)
      → K.child (kill_machine ps m).world q ≡ K.child m.world q
  unfolding kill_machine
  kill_machine-child K [] m q = refl
  kill_machine-child K ((p, e) ∷ ps) m q =
      kill_machine-child K ps _ q ∙ K.sys_child (kill p sigterm) m.world q refl

  -- The state that `KillAllChildren` leaves.
  abbrev killed_all : State os → State os
  killed_all s = record s {
    machine = kill_machine s.running s.machine;
    running = [];
    exiting = s.running;
  }

  kill_all_children_lem : (s : State os) → kill_all_children os s ≡ returned tt (killed_all s)
  unfolding kill_all_children
  kill_all_children_lem s = rw (kill_each_lem s.running (record s { exiting = s.running })) refl

  -- Where the kernel's children are those of the two disjoint maps, `KillAllChildren` sends SIGTERM
  -- to each running worker, and these alone are the exiting ones from then on. A process that was
  -- exiting before is still a child, but is in neither map any more.
  pub kill_all_children_forgets :
      (K : IsKernel os) (s : State os)
      → ((p : ℕ) → K.child s.machine.world p ≡ (has s.running p || has s.exiting p))
      → ((p : ℕ) → (has s.running p && has s.exiting p) ≡ false)
      → Returns
          (λ _ u.
            (u.running ≡ [])
            × (u.exiting ≡ s.running)
            × (calls u.machine.events ≡ calls s.machine.events ++ kill_calls s.running)
            × ((p : ℕ)
                → has s.exiting p ≡ true
                → (K.child u.machine.world p ≡ true)
                  × ((has u.running p || has u.exiting p) ≡ false)))
          (kill_all_children os s)
  unfolding has
  kill_all_children_forgets K s held apart = rw (kill_all_children_lem s) (
    refl,
    refl,
    kill_machine-events s.running s.machine,
    λ p x. ground (arith, kill_machine-child K s.running s.machine p, held p, apart p, x),
  )

-- A state of the library's master with the machine and the maps of this one.
abbrev pub likened : {os : Os} → State os → Master.State os
likened s = record {
  machine = s.machine;
  option = Options.new_options;
  resource = 0;
  module_ptr = 0;
  dlmodule = none;
  can_reload = false;
  running = s.running;
  exiting = s.exiting;
}

-- What a reload leaves: `n` new workers, the old ones exiting, and the calls in their order.
pub record Renewed {os : Os} (K : IsKernel os) (n : ℕ) (s u : State os) : Type 0 where
  pub count : length u.running ≡ n
  pub exiting : u.exiting ≡ s.running
  pub apart : (p : ℕ) → (has u.running p && has u.exiting p) ≡ false
  pub exact : (p : ℕ) → K.child u.machine.world p ≡ (has u.running p || has u.exiting p)
  pub order :
      calls u.machine.events ≡ calls s.machine.events ++ kill_calls s.running ++ replicate n fork

module _ {os : Os} (K : IsKernel os) (wm : Routine os ℤ) (s : State os) where
  abbrev workers : ℕ
  workers = pos_part s.option.worker_processes

  Spawned-Renewed :
      (t : Master.State os)
      → Spawned K (has s.running) workers (likened (killed_all s)) t
      → Renewed K workers s (likeness s.option t)
  Spawned-Renewed t a = record {
    count = omega (arith, a.count);
    exiting = a.exiting;
    apart = λ p. ground (arith, ap (λ m. has m p) a.exiting, a.table.apart p);
    exact = λ p. ground (arith, ap (λ m. has m p) a.exiting, a.table.exact p);
    order =
        ap calls a.events
        ∙ (calls-append (kill_machine s.running s.machine).events (replicate workers (called fork))
            ∙ rw (kill_machine-events s.running s.machine, calls-forks workers) refl);
  }

  -- On a kernel where every fork succeeds, with no worker exiting and the running ones exactly the
  -- kernel's children, a SIGHUP returns. It has sent SIGTERM to each old worker before the first
  -- fork; the option's number of new workers runs, and the old ones are exiting.
  pub handle_sighub-Renewed :
      is_empty s.exiting ≡ true
      → ((p : ℕ) → K.child s.machine.world p ≡ has s.running p)
      → Returns (λ _ u. Renewed K workers s u) (handle_sighub os wm s.option s)
  unfolding handle_sighub
  handle_sighub-Renewed idle held =
      rw (idle, kill_all_children_lem s)
        (subst (Returns (λ _ u. Renewed K workers s u))
          (sym (spawn_times-likeness K wm s.option Options.new_options workers t))
          (Returns-map_state (λ _ t'. Spawned K (has s.running) workers t t')
            (λ _ u. Renewed K workers s u) (likeness s.option)
            (Workers.spawn_times os workers Options.new_options t)
            (spawn_times-Spawned K (has s.running) Options.new_options workers t (record {
              sorted = tt;
              apart = λ p. ground (arith, has-empty [] p refl);
              exact = λ p.
                  ground (
                    arith,
                    kill_machine-child K s.running s.machine p,
                    held p,
                    has-empty [] p refl,
                  );
            }))
            (λ _ t' a. Spawned-Renewed t' a)))
    where
      t : Master.State os
      t = likened (killed_all s)
