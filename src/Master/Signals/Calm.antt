-- ===== src/Master/Signals/Calm.antt =====
-- The main loop of `RunMaster` in mpic/master_linux.cc after SIGTERM, while workers are exiting.
use mpic.Prelude.{
  ℕ, zero, suc, ◌≡◌, refl, ap, inl, inr, Bool, true, false, List, [], ◌∷◌, ℤ, pos, negsuc, is_empty,
  if◌then◌else◌, Bool-cases,
}
use mpic.Prelude.State.{
  exited, aborted, unfinished, and_then, Outcome, returned, Leaves, Leaves-and_then, pure,
}
use mpic.Os.{Os, Call, WaitStatus, Signal, sighup, sigint, sigquit, sigterm, sigchld, other}
use mpic.Os.Kernel.{reports_end}
use mpic.Options.{Options}
use mpic.Master.{State, Routine}
use mpic.Master.Frame.{calls}
use mpic.Master.Processes.{ProcessMap, has}
use mpic.Master.Workers.{kill_children}
use mpic.Master.Signals.{
  Next, again, return_, forget, reap, handle_sigchld, handle_sighub, dispatch, after_wait,
  main_loop,
}
use mpic.Master.Signals.Supervised.{waited, signalled}

-- No process is running, and some calls were made.
abbrev Idle : {os : Os} → List Call → State os → Type 0
Idle cs s = (s.running ≡ []) × (calls s.machine.events ≡ cs)

module _ (os : Os) (op : Options) (cs : List Call) where
  forget-Idle : (p : ℕ) (s : State os) → Idle cs s → Leaves (Idle cs) (forget os op p s)
  unfolding forget has
  forget-Idle p s h = rw (ap (λ m. has m p) h.0) h

  reap-Idle : (r : ℤ × WaitStatus) (s : State os) → Idle cs s → Leaves (Idle cs) (reap os op r s)
  unfolding reap
  reap-Idle (negsuc k, st) s h = h
  reap-Idle (pos zero, st) s h = h
  reap-Idle (pos (suc k), st) s h = elim (Bool-cases (reports_end st)) [
    | inl e ↦ rw e (
        Leaves-and_then (Idle cs) (forget os op (suc k) s) (λ _. pure true)
          (forget-Idle (suc k) s h) (λ _ t i. i))
    | inr e ↦ rw e h
  ]

  next_round-Idle :
      (rest : Routine os (Unit {0}))
      → ((t : State os) → Idle cs t → Leaves (Idle cs) (rest t))
      → (more : Bool) (t : State os) → Idle cs t
      → let step : Routine os (Unit {0}) = elim more [ true ↦ rest | false ↦ pure tt ] in
        Leaves (Idle cs) (step t)
  next_round-Idle rest ih true t h = ih t h
  next_round-Idle rest ih false t h = h

  handle_sigchld-Idle :
      (fuel : ℕ) (s : State os) → Idle cs s → Leaves (Idle cs) (handle_sigchld os fuel op s)
  unfolding handle_sigchld
  handle_sigchld-Idle zero s h = h
  handle_sigchld-Idle (suc fuel) s h =
      Leaves-and_then (Idle cs) (reap os op (os.waitpid s.machine.world).0 (waited os s)) _
        (reap-Idle (os.waitpid s.machine.world).0 (waited os s) h)
        (next_round-Idle (handle_sigchld os fuel op) (handle_sigchld-Idle fuel))

  kill_children-nil :
      (m : ProcessMap) (s : State os) → m ≡ [] → kill_children os m s ≡ returned tt s
  unfolding kill_children
  kill_children-nil [] s h = refl
  kill_children-nil (e ∷ m) s h = cc

  -- What a round comes to while workers are exiting.
  abbrev Calm : Outcome Next (State os) → Type 0
  Calm (returned (again e) t) = Idle cs t × (e ≡ true) × (is_empty t.exiting ≡ false)
  Calm (returned (return_ c) t) = Idle cs t
  Calm (exited c t) = Idle cs t
  Calm (aborted t) = Idle cs t
  Calm (unfinished t) = Idle cs t

  last_round-Calm :
      (o : Outcome (Unit {0}) (State os))
      → Leaves (Idle cs) o
      → Calm (and_then o (λ _ t. returned (return_ (pos 0)) t))
  last_round-Calm (returned a t) h = h
  last_round-Calm (exited c t) h = h
  last_round-Calm (aborted t) h = h
  last_round-Calm (unfinished t) h = h

  dispatch-Calm :
      (fuel : ℕ) (sig : Signal) (s : State os)
      → Idle cs s
      → is_empty s.exiting ≡ false
      → Calm (dispatch os fuel op true sig s)
  unfolding dispatch handle_sighub
  dispatch-Calm fuel sigchld s h x =
      last_round-Calm (handle_sigchld os fuel op s) (handle_sigchld-Idle fuel s h)
  dispatch-Calm fuel sighup s h x = rw x (h, refl, x)
  dispatch-Calm fuel sigterm s h x = rw (kill_children-nil s.running s h.0) ((refl, h.1), refl, x)
  dispatch-Calm fuel sigint s h x = (h, refl, x)
  dispatch-Calm fuel sigquit s h x = (h, refl, x)
  dispatch-Calm fuel (other n) s h x = (h, refl, x)

  interrupted-Calm :
      (b : Bool) (s : State os)
      → Idle cs s
      → is_empty s.exiting ≡ false
      → Calm (returned (if b then again true else return_ (pos 1)) s)
  interrupted-Calm true s h x = (h, refl, x)
  interrupted-Calm false s h x = h

  after_wait-Calm :
      (fuel : ℕ) (r : ℤ) (b : Bool) (sig : Signal) (s : State os)
      → Idle cs s
      → is_empty s.exiting ≡ false
      → Calm (after_wait os fuel op true (record { result = r; interrupted = b; signo = sig }) s)
  unfolding after_wait
  after_wait-Calm fuel (negsuc k) b sig s h x = interrupted-Calm b s h x
  after_wait-Calm fuel (pos k) b sig s h x = dispatch-Calm fuel sig s h x

  loop_on-Idle :
      (o : Outcome Next (State os)) (rest : Bool → Routine os ℤ)
      → Calm o
      → ((t : State os) → Idle cs t → is_empty t.exiting ≡ false → Leaves (Idle cs) (rest true t))
      → Leaves
          (Idle cs)
          (and_then o (λ next. elim next [ again e ↦ rest e | return_ code ↦ pure code ]))
  loop_on-Idle (returned (again e) t) rest h ih = rw (h.1) (ih t h.0 h.2)
  loop_on-Idle (returned (return_ c) t) rest h ih = h
  loop_on-Idle (exited c t) rest h ih = h
  loop_on-Idle (aborted t) rest h ih = h
  loop_on-Idle (unfinished t) rest h ih = h

  main_loop-Idle :
      (rounds fuel : ℕ) (s : State os)
      → Idle cs s
      → is_empty s.exiting ≡ false
      → Leaves (Idle cs) (main_loop os rounds fuel op true s)
  unfolding main_loop
  main_loop-Idle zero fuel s h x = h
  main_loop-Idle (suc rounds) fuel s h x =
      loop_on-Idle (after_wait os fuel op true (os.sigwaitinfo s.machine.world).0 (signalled os s))
        (main_loop os rounds fuel op) (after_wait-Calm fuel _ _ _ (signalled os s) h x)
        (main_loop-Idle rounds fuel)

-- After SIGTERM, with no process running and one or more exiting, the main loop makes no POSIX call
-- besides its waits, over any number of rounds and whatever signals come: no worker is started,
-- and no process is signalled.
pub main_loop_calm :
    (os : Os) (op : Options) (rounds fuel : ℕ) (s : State os)
    → s.running ≡ []
    → is_empty s.exiting ≡ false
    → Leaves
        (λ t. (t.running ≡ []) × (calls t.machine.events ≡ calls s.machine.events))
        (main_loop os rounds fuel op true s)
main_loop_calm os op rounds fuel s h x =
    main_loop-Idle os op (calls s.machine.events) rounds fuel s (h, refl) x
