-- ===== src/Master/Signals/Reaping.antt =====
-- `HandleSIGCHLD` of mpic/master_linux.cc keeps the number of workers.
use mpic.Prelude.{
  ℕ, zero, suc, ◌<◌, ◌≡◌, refl, inl, inr, Bool, true, false, not, ◌&&◌, ◌||◌, arith, ℤ, pos, negsuc,
  pos_part, is_positive, ◌==◌, if◌then◌else◌, Bool-cases, length,
}
use mpic.Prelude.State.{pure, Returns, Returns-and_then, Returns-mono}
use mpic.Os.{Os, WaitStatus}
use mpic.Os.Kernel.{IsKernel, IsQuiet, reports_end}
use mpic.Options.{Options}
use mpic.Master.{State, Routine}
use mpic.Master.Processes.{IsMap, has}
use mpic.Master.Signals.Supervised.{Supervised, waited}
use mpic.Master.Signals.Forgetting.{Lost, Shrinks, Keeps, forget-Keeps}
use mpic.Master.Signals.{forget, reap, handle_sigchld}

module _ {os : Os} (K : IsKernel os) (Q : IsQuiet os) (op : Options) (n : ℕ) where
  -- The state after a `waitpid` that gave `r`, where the table was `c` before.
  record Waited (c : ℕ → Bool) (r : ℤ × WaitStatus) (s : State os) : Type 0 where
    running_sorted : IsMap s.running
    exiting_sorted : IsMap s.exiting
    count : length s.running ≡ n
    apart : (q : ℕ) → (has s.running q && has s.exiting q) ≡ false
    held : (q : ℕ) → c q ≡ (has s.running q || has s.exiting q)
    child :
        (q : ℕ)
        → K.child s.machine.world q
          ≡ (if is_positive r.0 && reports_end r.1 then not (q == pos_part r.0) && c q else c q)

  -- Nothing was reported that counts.
  unchanged :
      (c : ℕ → Bool) (r : ℤ × WaitStatus) (s : State os)
      → Waited c r s
      → (is_positive r.0 && reports_end r.1) ≡ false
      → Keeps K Q op n s s
  unchanged c r s v h = (
    record {
      table = record {
        sorted = v.running_sorted;
        apart = v.apart;
        exact = λ q. ground (arith, v.child q, v.held q);
      };
      sorted = v.exiting_sorted;
      count = v.count;
    },
    omega arith,
    λ q x. x,
  )

  lost :
      (c : ℕ → Bool) (k : ℕ) (st : WaitStatus) (s : State os)
      → Waited c (pos (suc k), st) s
      → reports_end st ≡ true
      → Lost K n (suc k) s
  lost c k st s v h = record {
    running_sorted = v.running_sorted;
    exiting_sorted = v.exiting_sorted;
    count = v.count;
    apart = v.apart;
    exact = λ q. ground (arith, v.child q, v.held q);
  }

  abbrev After : ℤ → State os → Bool → State os → Type 0
  After r s more t = Keeps K Q op n s t × (more ≡ true → is_positive r ≡ true)

  reap-Keeps :
      (c : ℕ → Bool) (r : ℤ × WaitStatus) (s : State os)
      → Waited c r s
      → Returns (After r.0 s) (reap os op r s)
  unfolding reap
  reap-Keeps c (negsuc k, st) s v = (unchanged c (negsuc k, st) s v refl, λ e. cc)
  reap-Keeps c (pos zero, st) s v = (unchanged c (pos zero, st) s v refl, λ e. cc)
  reap-Keeps c (pos (suc k), st) s v = elim (Bool-cases (reports_end st)) [
    | inl h ↦ rw h (
        Returns-and_then (λ _ t. Keeps K Q op n s t) (After (pos (suc k)) s)
          (forget os op (suc k) s) (λ _. pure true)
          (forget-Keeps K Q op n (suc k) s (lost c k st s v h)) (λ _ t a. (a, λ _. refl)))
    | inr h ↦ rw h (unchanged c (pos (suc k), st) s v h, λ _. refl)
  ]

  waited-Waited :
      (s : State os)
      → Supervised K n s
      → Waited (K.child s.machine.world) (os.waitpid s.machine.world).0 (waited os s)
  waited-Waited s v = record {
    running_sorted = v.table.sorted;
    exiting_sorted = v.sorted;
    count = v.count;
    apart = v.table.apart;
    held = v.table.exact;
    child = K.waitpid_child s.machine.world;
  }

  -- The end of a round: `rest` is the loop with less fuel.
  next_round :
      (fuel : ℕ) (s : State os) (rest : Routine os (Unit {0}))
      → Q.pending s.machine.world < suc fuel
      → ((t : State os)
          → Supervised K n t
          → Q.pending t.machine.world < fuel
          → Returns (λ _ u. Supervised K n u × Shrinks (has t.exiting) (has u.exiting)) (rest t))
      → (more : Bool) (t : State os) → After (os.waitpid s.machine.world).0.0 (waited os s) more t
      → let step : Routine os (Unit {0}) = elim more [ true ↦ rest | false ↦ pure tt ] in
        Returns (λ _ u. Supervised K n u × Shrinks (has s.exiting) (has u.exiting)) (step t)
  next_round fuel s rest h ih false t a = (a.0.0, a.0.2)
  next_round fuel s rest h ih true t a =
      Returns-mono (λ _ u. Supervised K n u × Shrinks (has t.exiting) (has u.exiting))
        (λ _ u. Supervised K n u × Shrinks (has s.exiting) (has u.exiting)) (rest t)
        (ih t a.0.0 (omega (arith, a.0.1, Q.waitpid_pending s.machine.world (a.1 refl))))
        (λ _ u b. (b.0, λ q x. a.0.2 q (b.1 q x)))

  -- The same, and the exiting ones are among those from before.
  pub handle_sigchld-Shrinks :
      (fuel : ℕ) (s : State os)
      → Supervised K n s
      → Q.pending s.machine.world < fuel
      → Returns
          (λ _ t. Supervised K n t × Shrinks (has s.exiting) (has t.exiting))
          (handle_sigchld os fuel op s)
  unfolding handle_sigchld
  handle_sigchld-Shrinks zero s v h = absurd (omega arith)
  handle_sigchld-Shrinks (suc fuel) s v h =
      Returns-and_then (After (os.waitpid s.machine.world).0.0 (waited os s))
        (λ _ t. Supervised K n t × Shrinks (has s.exiting) (has t.exiting))
        (reap os op (os.waitpid s.machine.world).0 (waited os s)) _
        (reap-Keeps (K.child s.machine.world) (os.waitpid s.machine.world).0 (waited os s)
          (waited-Waited s v))
        (next_round fuel s (handle_sigchld os fuel op) h (handle_sigchld-Shrinks fuel))

  -- In a state with the invariant, with more rounds than children that wait to be reported,
  -- `HandleSIGCHLD` returns, and keeps the invariant with as many workers as there were.
  pub handle_sigchld-Supervised :
      (fuel : ℕ) (s : State os)
      → Supervised K n s
      → Q.pending s.machine.world < fuel
      → Returns (λ _ t. Supervised K n t) (handle_sigchld os fuel op s)
  handle_sigchld-Supervised fuel s v h =
      Returns-mono (λ _ t. Supervised K n t × Shrinks (has s.exiting) (has t.exiting))
        (λ _ t. Supervised K n t) (handle_sigchld os fuel op s) (handle_sigchld-Shrinks fuel s v h)
        (λ _ t a. a.0)
