-- ===== src/Master/Signals/Reloading.antt =====
-- Every way in which `HandleSIGHUB` of mpic/master_linux.cc comes back.
use mpic.Prelude.{
  ℕ, ◌≡◌, refl, subst, inl, inr, ◌⊎◌, true, false, pos_part, is_empty, Bool-cases, Option-cases,
}
use mpic.Prelude.State.{and_then, Outcome, returned, exited, aborted, unfinished, Returns}
use mpic.Os.{Os, uninit}
use mpic.Os.Kernel.{IsKernel}
use mpic.DynLib.{is_null}
use mpic.Options.{Options}
use mpic.Master.{State}
use mpic.Master.Processes.{has}
use mpic.Master.Loader.{init_module}
use mpic.Master.Signals.{handle_sighub}
use mpic.Master.Signals.Supervised.{Supervised}
use mpic.Master.Signals.Reload.{handle_sighub-Replaced, handle_sighub_refused}

-- The cases of an outcome, with the equation.
abbrev OutcomeCases : {A S : Type 0} → Outcome A S → Type 0
OutcomeCases {A} {S} o =
    ((a : A) × (s : S) × (o ≡ returned a s)) ⊎ ((a : A) (s : S) → o ≡ returned a s → ⊥)

outcome_cases : {A S : Type 0} (o : Outcome A S) → OutcomeCases o
outcome_cases (returned a s) = inl (a, s, refl)
outcome_cases (exited c s) = inr (λ a t e. cc)
outcome_cases (aborted s) = inr (λ a t e. cc)
outcome_cases (unfinished s) = inr (λ a t e. cc)

never_returns :
    {A B S : Type 0} (o : Outcome A S) (f : A → S → Outcome B S) (b : B) (u : S)
    → ((a : A) (s : S) → o ≡ returned a s → ⊥)
    → and_then o f ≡ returned b u
    → ⊥
never_returns (returned a s) f b u h e = h a s refl
never_returns (exited c s) f b u h e = cc
never_returns (aborted s) f b u h e = cc
never_returns (unfinished s) f b u h e = cc

module _ {os : Os} (K : IsKernel os) (op : Options) where
  abbrev pub workers : ℕ
  workers = pos_part op.worker_processes

  reload_idle :
      (n : ℕ) (s t u : State os)
      → Supervised K n s
      → is_empty s.exiting ≡ true
      → init_module os s ≡ returned true t
      → handle_sighub os op s ≡ returned tt u
      → Supervised K workers u × ((p : ℕ) → has u.exiting p ≡ has s.running p)
  unfolding handle_sighub
  reload_idle n s t u v idle fresh e = elim (Bool-cases (is_null s.module_ptr)) [
    | inl null ↦ cc (rw (idle, fresh, null) at e)
    | inr old ↦ elim (Option-cases (os.method (uninit s.module_ptr) t.machine.world).0) [
      | inl threw ↦ cc (rw (idle, fresh, old, threw) at e)
      | inr (r, back) ↦
          let a = subst (Returns _) e (handle_sighub-Replaced K op n s t v idle old fresh back) in
          (a.supervised, a.exiting)
    ]
  ]

  -- What a SIGHUP leaves if it comes back.
  abbrev pub Reloaded : ℕ → State os → State os → Type 0
  Reloaded n s u =
      (Supervised K n u × (u.exiting ≡ s.exiting) × (u.running ≡ s.running))
      ⊎ ((is_empty s.exiting ≡ true)
          × Supervised K workers u
          × ((p : ℕ) → has u.exiting p ≡ has s.running p))

  refused :
      (n : ℕ) (s t u : State os)
      → Supervised K n s
      → (is_empty s.exiting ≡ false) ⊎ (init_module os s ≡ returned false t)
      → handle_sighub os op s ≡ returned tt u
      → Reloaded n s u
  refused n s t u v why e =
      let kept = subst (Returns _) e (handle_sighub_refused K op n s t v why) in
      inl (kept.0, kept.2, kept.1)

  idle_Reloaded :
      (n : ℕ) (s u : State os)
      → Supervised K n s
      → is_empty s.exiting ≡ true
      → handle_sighub os op s ≡ returned tt u
      → OutcomeCases (init_module os s)
      → Reloaded n s u
  unfolding handle_sighub
  idle_Reloaded n s u v idle e (inl (true, t, fresh)) =
      let a = reload_idle n s t u v idle fresh e in inr (idle, a.0, a.1)
  idle_Reloaded n s u v idle e (inl (false, t, failed)) = refused n s t u v (inr failed) e
  idle_Reloaded n s u v idle e (inr never) =
      absurd (never_returns (init_module os s) _ tt u never (rw idle at e))

  pub handle_sighub-Reloaded :
      (n : ℕ) (s u : State os)
      → Supervised K n s
      → handle_sighub os op s ≡ returned tt u
      → Reloaded n s u
  handle_sighub-Reloaded n s u v e = elim (Bool-cases (is_empty s.exiting)) [
    | inl idle ↦ idle_Reloaded n s u v idle e (outcome_cases (init_module os s))
    | inr busy ↦ refused n s s u v (inl busy) e
  ]
