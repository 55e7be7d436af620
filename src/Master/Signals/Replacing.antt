-- ===== src/Master/Signals/Replacing.antt =====
-- The part of `HandleSIGHUB` of mpic/master_linux.cc after the new module is in place: the workers
-- are replaced, and in what order.
use mathlib.Core.List.{append_assoc}
use mpic.Prelude.{
  ℕ, zero, suc, ◌≡◌, refl, sym, ap, subst, ◌∙◌, true, false, List, [], ◌∷◌, ◌++◌, arith, pos_part,
  length, replicate, is_empty,
}
use mpic.Prelude.State.{◌>>=◌, Returns, Returns-and_then, Returns-mono}
use mpic.Os.{Os, Call, fork, kill, sleep, sigterm}
use mpic.Os.Machine.{Event, called}
use mpic.Os.Kernel.{IsKernel}
use mpic.Options.{Options}
use mpic.Master.{State}
use mpic.Master.Frame.{calls, calls-append}
use mpic.Master.Processes.{ProcessMap, IsMap, has}
use mpic.Master.Workers.{spawn_child_workers, kill_children}
use mpic.Master.Workers.Table.{Spawned, spawn_child_workers-Spawned}
use mpic.Master.Workers.Killing.{kills, Killed, kill_children-Killed}
use mpic.Master.Signals.{replace_workers}
use mpic.Master.Signals.Supervised.{Supervised}

-- SIGTERM to each process of a map, in its order.
abbrev pub kill_calls : ProcessMap → List Call
kill_calls [] = []
kill_calls ((p, _) ∷ m) = kill p sigterm ∷ kill_calls m

pub calls-kills : (m : ProcessMap) → calls (kills m) ≡ kill_calls m
calls-kills [] = refl
calls-kills ((p, _) ∷ m) = ap (◌∷◌ (kill p sigterm)) (calls-kills m)

pub calls-forks : (n : ℕ) → calls (replicate n (called fork)) ≡ replicate n fork
calls-forks zero = refl
calls-forks (suc n) = ap (◌∷◌ fork) (calls-forks n)

pub has-empty : (m : ProcessMap) (p : ℕ) → is_empty m ≡ true → has m p ≡ false
unfolding has
has-empty [] p h = refl
has-empty (e ∷ m) p h = cc

-- The calls of a reload from `n` new workers and the map of the old ones.
abbrev pub reload_calls : ℕ → ProcessMap → List Call
reload_calls n old = replicate n fork ++ sleep 3 ∷ kill_calls old

calls_order :
    (es : List Event) (n : ℕ) (old : ProcessMap)
    → calls (((es ++ replicate n (called fork)) ++ called (sleep 3) ∷ []) ++ kills old)
      ≡ calls es ++ reload_calls n old
calls_order es n old = simp (calls-append, append_assoc, calls-forks, calls-kills)

-- `u` after the workers `old` of a state with the calls `before` were replaced by `n` new ones,
-- that run the module `m`.
pub record Replaced {os : Os} (K : IsKernel os) (n : ℕ) (old : ProcessMap) (before : List Call)
    (m : ℕ) (u : State os) : Type 0 where
  pub supervised : Supervised K n u
  pub exiting : (p : ℕ) → has u.exiting p ≡ has old p
  pub module_ptr : u.module_ptr ≡ m
  pub order : calls u.machine.events ≡ before ++ reload_calls n old

module _ {os : Os} (K : IsKernel os) (op : Options) (old : ProcessMap) where
  abbrev workers : ℕ
  workers = pos_part op.worker_processes

  -- No map has a process; the children are the old workers.
  record Swapped (s : State os) : Type 0 where
    old_sorted : IsMap old
    idle : length s.running ≡ 0
    sorted : IsMap s.running
    none_running : (p : ℕ) → has s.running p ≡ false
    exiting_sorted : IsMap s.exiting
    none_exiting : (p : ℕ) → has s.exiting p ≡ false
    child : (p : ℕ) → K.child s.machine.world p ≡ has old p

  slept : State os → State os
  slept t = record t {
    machine = record t.machine {
      world = (os.sys (sleep 3) t.machine.world).1;
      events = t.machine.events ++ (called (sleep 3) ∷ []);
    };
  }

  replaced :
      (s t u : State os)
      → Swapped s
      → Spawned K (has old) workers s t
      → Killed K old (slept t) u
      → Replaced K workers old (calls s.machine.events) s.module_ptr u
  unfolding slept
  replaced s t u w a k = record {
    supervised = record {
      table = record {
        sorted = subst IsMap (sym k.running) a.table.sorted;
        apart = λ p. ground (arith, runs p, exits p, a.table.apart p);
        exact = λ p. ground (
          arith,
          runs p,
          exits p,
          a.table.exact p,
          k.child p,
          K.sys_child (sleep 3) t.machine.world p refl,
        );
      };
      sorted = k.sorted;
      count = omega (arith, ap length k.running, a.count, w.idle);
    };
    exiting = exits;
    module_ptr = k.same.module_ptr ∙ a.same.module_ptr;
    order =
        ap calls k.events
        ∙ (ap (λ es. calls ((es ++ called (sleep 3) ∷ []) ++ kills old)) a.events
            ∙ calls_order s.machine.events workers old);
  }
    where
      runs : (p : ℕ) → has u.running p ≡ has t.running p
      runs p = ap (λ m. has m p) k.running

      exits : (p : ℕ) → has u.exiting p ≡ has old p
      exits p = ground (arith, k.exiting p, ap (λ m. has m p) a.exiting, w.none_exiting p)

  killed :
      (s t : State os)
      → Swapped s
      → Spawned K (has old) workers s t
      → Returns
          (λ _ u. Replaced K workers old (calls s.machine.events) s.module_ptr u)
          (kill_children os old (slept t))
  unfolding slept
  killed s t w a =
      Returns-mono (λ _ u. Killed K old (slept t) u)
        (λ _ u. Replaced K workers old (calls s.machine.events) s.module_ptr u)
        (kill_children os old (slept t))
        (kill_children-Killed K old (slept t) w.old_sorted
          (subst IsMap (sym a.exiting) w.exiting_sorted))
        (λ _ u k. replaced s t u w a k)

  -- From a state in which no map has a process.
  Swapped-Replaced :
      (s : State os)
      → Swapped s
      → Returns
          (λ _ u. Replaced K workers old (calls s.machine.events) s.module_ptr u)
          ((spawn_child_workers os op >>= λ _. λ t. kill_children os old (slept t)) s)
  Swapped-Replaced s w =
      Returns-and_then (λ _ t. Spawned K (has old) workers s t)
        (λ _ u. Replaced K workers old (calls s.machine.events) s.module_ptr u)
        (spawn_child_workers os op s) (λ _ t. kill_children os old (slept t))
        (spawn_child_workers-Spawned K (has old) op s (record {
          sorted = w.sorted;
          apart = λ p. ground (arith, w.none_running p);
          exact = λ p. ground (arith, w.none_running p, w.child p);
        }))
        (λ _ t a. killed s t w a)

  pub replace_workers-Replaced :
      (s : State os)
      → IsMap old
      → IsMap s.exiting
      → is_empty s.exiting ≡ true
      → ((p : ℕ) → K.child s.machine.world p ≡ has old p)
      → Returns
          (λ _ u. Replaced K workers old (calls s.machine.events) s.module_ptr u)
          (replace_workers os op old s)
  unfolding replace_workers slept
  replace_workers-Replaced s o x h c =
      Swapped-Replaced (record s { running = [] })
        (record {
          old_sorted = o;
          idle = refl;
          sorted = tt;
          none_running = λ p. has-empty [] p refl;
          exiting_sorted = x;
          none_exiting = λ p. has-empty s.exiting p h;
          child = c;
        })
