-- ===== src/Master/Signals/Shutdown.antt =====
-- SIGTERM in the main loop of `RunMaster` in mpic/master_linux.cc.
use mpic.Prelude.{ℕ, suc, ◌<◌, ◌≡◌, refl, ap, ◌∙◌, Bool, true, ◌||◌, [], ◌++◌, arith, ℤ, pos}
use mpic.Prelude.State.{
  exited, aborted, unfinished, and_then, Outcome, returned, Returns, Returns-and_then, pure,
}
use mpic.Os.{Os, sigchld}
use mpic.Os.Kernel.{IsKernel, IsQuiet}
use mpic.Options.{Options}
use mpic.Master.{State, Routine}
use mpic.Master.Frame.{calls, calls-append}
use mpic.Master.Processes.{has}
use mpic.Master.Workers.{kill_children}
use mpic.Master.Workers.Killing.{kills, Killed, kill_children-Killed}
use mpic.Master.Signals.{
  again, return_, handle_sigchld, handle_sigterm, dispatch, after_wait, main_loop,
}
use mpic.Master.Signals.Supervised.{Supervised, signalled, sigwaitinfo-Supervised}
use mpic.Master.Signals.Reaping.{handle_sigchld-Supervised}
use mpic.Master.Signals.Replacing.{kill_calls, calls-kills}

-- What SIGTERM leaves: no process is running, and those that ran have a SIGTERM and are exiting.
pub record Terminated {os : Os} (K : IsKernel os) (s u : State os) : Type 0 where
  pub supervised : Supervised K 0 u
  pub running : u.running ≡ []
  pub exiting : (p : ℕ) → has u.exiting p ≡ (has s.running p || has s.exiting p)
  pub order : calls u.machine.events ≡ calls s.machine.events ++ kill_calls s.running

-- In a state with the invariant, SIGTERM sends SIGTERM to each running worker, in the order of
-- their ids, and to no other process; each becomes an exiting one, beside those that already were,
-- and none is running.
pub handle_sigterm-Terminated :
    {os : Os} (K : IsKernel os) (n : ℕ) (s : State os)
    → Supervised K n s
    → Returns (λ _ u. Terminated K s u) (handle_sigterm os s)
unfolding handle_sigterm has
handle_sigterm-Terminated {os} K n s v =
    Returns-and_then (λ _ t. Killed K s.running s t) (λ _ u. Terminated K s u)
      (kill_children os s.running s) (λ _ t. returned tt (record t { running = [] }))
      (kill_children-Killed K s.running s v.table.sorted v.sorted)
      (λ _ t k. record {
        supervised = record {
          table = record {
            sorted = tt;
            apart = λ p. refl;
            exact = λ p. ground (arith, k.child p, k.exiting p, v.table.exact p);
          };
          sorted = k.sorted;
          count = refl;
        };
        running = refl;
        exiting = k.exiting;
        order =
            ap calls k.events
            ∙ (calls-append s.machine.events (kills s.running)
                ∙ ap (λ es. calls s.machine.events ++ es) (calls-kills s.running));
      })

stop_after :
    {os : Os} (K : IsKernel os) (n : ℕ) (o : Outcome (Unit {0}) (State os))
    (rest : Bool → Routine os ℤ)
    → Returns (λ _ t. Supervised K n t) o
    → Returns
        (λ code t. (code ≡ pos 0) × Supervised K n t)
        (and_then
          (and_then o (λ _ t. returned (return_ (pos 0)) t))
          (λ next. elim next [ again e ↦ rest e | return_ code ↦ pure code ]))
stop_after K n (returned a t) rest h = (refl, h)
stop_after K n (exited c t) rest h = h
stop_after K n (aborted t) rest h = h
stop_after K n (unfinished t) rest h = h

-- While the master is stopping, in a state with the invariant, a SIGCHLD for which the fuel is
-- enough makes the main loop return 0.
pub main_loop_stops :
    {os : Os} (K : IsKernel os) (Q : IsQuiet os) (op : Options) (n rounds fuel k : ℕ) (s : State os)
    → Supervised K n s
    → (os.sigwaitinfo s.machine.world).0.result ≡ pos k
    → (os.sigwaitinfo s.machine.world).0.signo ≡ sigchld
    → Q.pending (os.sigwaitinfo s.machine.world).1 < fuel
    → Returns
        (λ code t. (code ≡ pos 0) × Supervised K n t)
        (main_loop os (suc rounds) fuel op true s)
unfolding main_loop
main_loop_stops {os} K Q op n rounds fuel k s v waits sig enough =
    rw (waits, after_wait, sig, dispatch)
      (stop_after K n (handle_sigchld os fuel op (signalled os s)) (main_loop os rounds fuel op) (
        handle_sigchld-Supervised K Q op n fuel (signalled os s) (sigwaitinfo-Supervised K n s v)
          enough))
