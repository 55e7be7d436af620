-- ===== src/Master/Signals/Reload.antt =====
-- `HandleSIGHUB` of mpic/master_linux.cc: when the workers are replaced, and when not.
use mathlib.Core.List.{append-nil}
use mpic.Prelude.{
  ℕ, ◌≡◌, refl, sym, ap, subst, ◌∙◌, inl, inr, ◌⊎◌, true, false, some, List, [], ◌∷◌, ◌++◌, arith,
  ℤ, pos_part, is_empty, Bool-cases,
}
use mpic.Prelude.State.{Returns, Leaves, returned}
use mpic.Os.{Os, Call, uninit}
use mpic.Os.Machine.{invoked}
use mpic.Os.Kernel.{IsKernel}
use mpic.DynLib.{is_null}
use mpic.Options.{Options}
use mpic.Master.{State}
use mpic.Master.Frame.{calls, calls-append, Frame}
use mpic.Master.Processes.{IsMap, has}
use mpic.Master.Loader.{init_module}
use mpic.Master.Loader.Framing.{init_module-Framing}
use mpic.Master.Signals.{replace_workers, handle_sighub}
use mpic.Master.Signals.Supervised.{Supervised, Frame-Supervised}
use mpic.Master.Signals.Replacing.{Replaced, replace_workers-Replaced, has-empty}

-- In a state with the invariant and with a module that is set, a SIGHUP while no worker is exiting,
-- whose `InitModule` gives `true` in state `t`, and where the old module's `Uninit` does not throw,
-- returns: the option's number of workers runs, the exiting ones are the former workers, the new
-- module is in place, and after the calls before the SIGHUP come the forks, then the sleep, then a
-- SIGTERM to each former worker, in the order of their ids.
pub handle_sighub-Replaced :
    {os : Os} (K : IsKernel os) (op : Options) (n : ℕ) (s t : State os) {r : ℤ}
    → Supervised K n s
    → is_empty s.exiting ≡ true
    → is_null s.module_ptr ≡ false
    → init_module os s ≡ returned true t
    → (os.method (uninit s.module_ptr) t.machine.world).0 ≡ some r
    → Returns
        (λ _ u.
          Replaced K
            (pos_part op.worker_processes)
            s.running
            (calls s.machine.events)
            t.module_ptr
            u)
        (handle_sighub os op s)
unfolding handle_sighub
handle_sighub-Replaced {os} K op n s t v empty old_module new_module uninit_returns =
    rw (empty, new_module, old_module, uninit_returns)
      (subst
        (λ (es : List Call).
          Returns (λ _ u. Replaced K (pos_part op.worker_processes) s.running es t.module_ptr u)
            (replace_workers os op s.running uninitialised))
        (calls-append t.machine.events (invoked (uninit s.module_ptr) ∷ [])
          ∙ (append-nil (calls t.machine.events) ∙ f.still.calls))
        (replace_workers-Replaced K op s.running uninitialised v.table.sorted
          (subst IsMap (sym f.exiting) v.sorted) (ap is_empty f.exiting ∙ empty) child))
  where
    f : Frame K s t
    f = subst (Leaves (Frame K s)) new_module (init_module-Framing K s)

    uninitialised : State os
    uninitialised = record t {
      machine = record t.machine {
        world = (os.method (uninit s.module_ptr) t.machine.world).1;
        events = t.machine.events ++ (invoked (uninit s.module_ptr) ∷ []);
      };
    }

    child : (p : ℕ) → K.child uninitialised.machine.world p ≡ has s.running p
    child p = ground (
      arith,
      K.method_child (uninit s.module_ptr) t.machine.world p,
      f.still.child p,
      v.table.exact p,
      has-empty s.exiting p empty,
    )

-- In a state with the invariant, a SIGHUP while a worker is exiting, or whose `InitModule` gives
-- `false`, returns, and leaves the workers, the two maps and the module as they were; no process is
-- forked or killed, as the calls are those from before.
pub handle_sighub_refused :
    {os : Os} (K : IsKernel os) (op : Options) (n : ℕ) (s t : State os)
    → Supervised K n s
    → (is_empty s.exiting ≡ false) ⊎ (init_module os s ≡ returned false t)
    → Returns
        (λ _ u.
          Supervised K n u
          × (u.running ≡ s.running)
          × (u.exiting ≡ s.exiting)
          × (u.module_ptr ≡ s.module_ptr)
          × (calls u.machine.events ≡ calls s.machine.events))
        (handle_sighub os op s)
unfolding handle_sighub
handle_sighub_refused K op n s t v (inl busy) = rw busy (v, refl, refl, refl, refl)
handle_sighub_refused {os} K op n s t v (inr failed) = elim (Bool-cases (is_empty s.exiting)) [
  | inr busy ↦ rw busy (v, refl, refl, refl, refl)
  | inl idle ↦ rw (idle, failed) (restored, f.running, f.exiting, refl, f.still.calls)
]
  where
    f : Frame K s t
    f = subst (Leaves (Frame K s)) failed (init_module-Framing K s)

    kept : Supervised K n t
    kept = Frame-Supervised K n f v

    restored : Supervised K n (record t { module_ptr = s.module_ptr })
    restored = record {
      table = record {
        sorted = kept.table.sorted;
        apart = kept.table.apart;
        exact = kept.table.exact;
      };
      sorted = kept.sorted;
      count = kept.count;
    }
