-- ===== src/Master/Signals/Lifetime.antt =====
-- The main loop of `RunMaster` in mpic/master_linux.cc, round by round.
use mpic.Prelude.{
  ℕ, ◌<◌, ◌≡◌, refl, sym, ap, subst, ◌∙◌, inl, inr, Bool, true, false, [], ◌∷◌, arith, ℤ, pos,
  negsuc, is_empty, length, if◌then◌else◌,
}
use mpic.Prelude.State.{and_then, Outcome, returned, exited, aborted, unfinished, Returns}
use mpic.Os.{Os, Signal, sighup, sigint, sigquit, sigterm, sigchld, other}
use mpic.Os.Kernel.{IsKernel, IsQuiet}
use mpic.Options.{Options}
use mpic.Master.{State}
use mpic.Master.Processes.{ProcessMap, has}
use mpic.Master.Signals.{
  Next, again, return_, handle_sigchld, handle_sighub, handle_sigterm, dispatch, after_wait, round,
}
use mpic.Master.Signals.Supervised.{Supervised, signalled, sigwaitinfo-Supervised}
use mpic.Master.Signals.Reaping.{handle_sigchld-Supervised}
use mpic.Master.Signals.Reloading.{workers, handle_sighub-Reloaded}
use mpic.Master.Signals.Replacing.{has-empty}
use mpic.Master.Signals.Shutdown.{Terminated, handle_sigterm-Terminated}

-- The states between the rounds that follow a first state, each with `stopping`. In each round the
-- fuel is above the number of children that wait to be reported.
pub data Rounds {os : Os} (Q : IsQuiet os) (op : Options) (fuel : ℕ) (s : State os)
    : Bool → State os → Type 0 where
  start : Rounds Q op fuel s false s
  next :
      {e e' : Bool} {t u : State os}
      → Rounds Q op fuel s e t
      → Q.pending (os.sigwaitinfo t.machine.world).1 < fuel
      → round os fuel op e t ≡ returned (again e') u
      → Rounds Q op fuel s e' u

has-none-length :
    (m : ProcessMap) → ((p : ℕ) → has m p ≡ false) → (length m ≡ 0) × (is_empty m ≡ true)
unfolding has
has-none-length [] h = (refl, refl)
has-none-length ((k, e) ∷ m) h = ground (arith, h k)

module _ {os : Os} (K : IsKernel os) (op : Options) where
  -- What holds between the rounds. While the master is stopping, either some worker is exiting or
  -- the option asks for none.
  abbrev pub Between : Bool → State os → Type 0
  Between false t = Supervised K (workers K op) t
  Between true t = Supervised K 0 t × (is_empty t.exiting ≡ true → workers K op ≡ 0)

  -- The same of what a round comes to.
  abbrev Good : Outcome Next (State os) → Type 0
  Good (returned (again e) t) = Between e t
  Good (returned (return_ c) t) = Unit
  Good (exited c t) = Unit
  Good (aborted t) = Unit
  Good (unfinished t) = Unit

  then_again :
      (e : Bool) (o : Outcome (Unit {0}) (State os))
      → ((u : State os) → o ≡ returned tt u → Between e u)
      → Good (and_then o (λ _ t. returned (again e) t))
  then_again e (returned tt u) h = h u refl
  then_again e (exited c t) h = tt
  then_again e (aborted t) h = tt
  then_again e (unfinished t) h = tt

  then_return :
      (o : Outcome (Unit {0}) (State os)) → Good (and_then o (λ _ t. returned (return_ (pos 0)) t))
  then_return (returned tt u) = tt
  then_return (exited c t) = tt
  then_return (aborted t) = tt
  then_return (unfinished t) = tt

  sighup-Between :
      (e : Bool) (s u : State os)
      → Between e s
      → handle_sighub os op s ≡ returned tt u
      → Between e u
  sighup-Between false s u b h = elim (handle_sighub-Reloaded K op (workers K op) s u b h) [
    | inl kept ↦ kept.0
    | inr renewed ↦ renewed.1
  ]
  sighup-Between true s u b h = elim (handle_sighub-Reloaded K op 0 s u b.0 h) [
    | inl kept ↦ (kept.0, λ none_left. b.1 (sym (ap is_empty kept.1) ∙ none_left))
    | inr renewed ↦ (subst (λ n. Supervised K n u) (b.1 renewed.0) renewed.1, λ _. b.1 renewed.0)
  ]

  -- A stop with no worker left exiting: there was none.
  none_exiting :
      (n : ℕ) (s u : State os)
      → Supervised K n s
      → Terminated K s u
      → is_empty u.exiting ≡ true
      → (n ≡ 0) × (is_empty s.exiting ≡ true)
  none_exiting n s u v t h = (
    sym v.count
        ∙ (has-none-length s.running (λ p. ground (arith, t.exiting p, has-empty u.exiting p h))).0,
    (has-none-length s.exiting (λ p. ground (arith, t.exiting p, has-empty u.exiting p h))).1,
  )

  sigterm-Between : (e : Bool) (s u : State os) → Between e s → Terminated K s u → Between true u
  sigterm-Between false s u b t = (t.supervised, λ h. (none_exiting (workers K op) s u b t h).0)
  sigterm-Between true s u b t = (t.supervised, λ h. b.1 (none_exiting 0 s u b.0 t h).1)

  dispatch-Good :
      (Q : IsQuiet os) (fuel : ℕ) (e : Bool) (sig : Signal) (s : State os)
      → Between e s
      → Q.pending s.machine.world < fuel
      → Good (dispatch os fuel op e sig s)
  unfolding dispatch
  dispatch-Good Q fuel true sigchld s b h = then_return (handle_sigchld os fuel op s)
  dispatch-Good Q fuel false sigchld s b h =
      then_again false (handle_sigchld os fuel op s)
        (λ u eq. subst (Returns _) eq (handle_sigchld-Supervised K Q op (workers K op) fuel s b h))
  dispatch-Good Q fuel e sighup s b h =
      then_again e (handle_sighub os op s) (λ u eq. sighup-Between e s u b eq)
  dispatch-Good Q fuel e sigterm s b h =
      then_again true (handle_sigterm os s) (λ u eq. sigterm_at e u b eq)
    where
      sigterm_at :
          (e : Bool) (u : State os)
          → Between e s
          → handle_sigterm os s ≡ returned tt u
          → Between true u
      sigterm_at false u b eq =
          sigterm-Between false s u b
            (subst (Returns _) eq (handle_sigterm-Terminated K (workers K op) s b))
      sigterm_at true u b eq =
          sigterm-Between true s u b (subst (Returns _) eq (handle_sigterm-Terminated K 0 s b.0))
  dispatch-Good Q fuel e sigint s b h = b
  dispatch-Good Q fuel e sigquit s b h = b
  dispatch-Good Q fuel e (other n) s b h = b

  pub wait-Between : (e : Bool) (s : State os) → Between e s → Between e (signalled os s)
  wait-Between false s b = sigwaitinfo-Supervised K (workers K op) s b
  wait-Between true s b = (sigwaitinfo-Supervised K 0 s b.0, b.1)

  interrupted-Good :
      (e b : Bool) (s : State os)
      → Between e s
      → Good (returned (if b then again e else return_ (pos 1)) s)
  interrupted-Good e true s h = h
  interrupted-Good e false s h = tt

  after_wait-Good :
      (Q : IsQuiet os) (fuel : ℕ) (e : Bool) (r : ℤ) (b : Bool) (sig : Signal) (s : State os)
      → Between e s
      → Q.pending s.machine.world < fuel
      → Good (after_wait os fuel op e (record { result = r; interrupted = b; signo = sig }) s)
  unfolding after_wait
  after_wait-Good Q fuel e (negsuc k) b sig s h lt = interrupted-Good e b s h
  after_wait-Good Q fuel e (pos k) b sig s h lt = dispatch-Good Q fuel e sig s h lt

  round-Good :
      (Q : IsQuiet os) (fuel : ℕ) (e : Bool) (s : State os)
      → Between e s
      → Q.pending (os.sigwaitinfo s.machine.world).1 < fuel
      → Good (round os fuel op e s)
  unfolding round
  round-Good Q fuel e s b h = after_wait-Good Q fuel e _ _ _ (signalled os s) (wait-Between e s b) h

  -- From a state with the option's number of workers, any number of rounds with enough fuel: as
  -- long as no SIGTERM has come, that number runs, however many workers have ended and whether or
  -- not reloads succeeded; after a SIGTERM none runs, and if the number is not 0 some worker is
  -- exiting. At all times the kernel's children are those of the two maps, and none is in both.
  pub Rounds-Between :
      (Q : IsQuiet os) (fuel : ℕ) {s t : State os} {e : Bool}
      → Supervised K (workers K op) s
      → Rounds Q op fuel s e t
      → Between e t
  Rounds-Between Q fuel v start = v
  Rounds-Between Q fuel v (next {e} {t = t} r lt eq) =
      subst Good eq (round-Good Q fuel e t (Rounds-Between Q fuel v r) lt)
