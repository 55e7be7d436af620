-- ===== src/Monitor/Stopping.antt =====
-- SIGHUP, SIGTERM, SIGINT and SIGQUIT in the monitor of examples/monitor-worker/monitor.cc.
use mpic.Prelude.{
  ℕ, zero, suc, ◌+◌, ◌≤◌, ◌≡◌, refl, ap, ◌∙◌, Bool, true, false, List, [], ◌∷◌, ◌++◌, arith, ℤ, pos,
  negsuc, if◌then◌else◌, inl, inr, Bool-cases, replicate,
}
use mathlib.Core.List.{append_assoc}
use mpic.Prelude.State.{
  Outcome, returned, exited, aborted, unfinished, and_then, pure, Leaves, Leaves-mono,
}
use mpic.Os.{Os, Call, kill, Signal, sigterm, sighup, sigchld, sigint, sigquit, other, WaitStatus}
use mpic.Os.Kernel.{reports_end}
use mpic.Os.Machine.{Machine, M, Event}
use mpic.Master.Frame.{calls, calls-append}
use mpic.Monitor.{Next, again, return_, child_ended, after_waitpid, dispatch, after_wait, main_loop}

module _ {os : Os} (wm : M os ℤ) (c : ℕ) where
  -- Nothing, or `n` times SIGTERM to the child.
  abbrev pub orders : ℕ → List Call
  orders n = replicate n (kill c sigterm)

  -- After the events `es`, up to `n` more calls, all of them SIGTERM to the child.
  abbrev pub Ordered : List Event → ℕ → Machine os → Type 0
  Ordered es n m = (k : ℕ) × (k ≤ n) × (calls m.events ≡ calls es ++ orders k)

  -- What a round comes to once the monitor is exiting.
  abbrev RoundOrdered : List Event → Outcome Next (Machine os) → Type 0
  RoundOrdered es (returned (again d e) m) = Ordered es 1 m × (d ≡ c) × (e ≡ true)
  RoundOrdered es (returned (return_ code) m) = Ordered es 1 m
  RoundOrdered es (exited code m) = Ordered es 1 m
  RoundOrdered es (aborted m) = Ordered es 1 m
  RoundOrdered es (unfinished m) = Ordered es 1 m

  append_nil : (cs : List Call) → cs ≡ cs ++ []
  append_nil [] = refl
  append_nil (x ∷ cs) = ap (◌∷◌ x) (append_nil cs)

  orders-add : (j k : ℕ) → orders j ++ orders k ≡ orders (j + k)
  orders-add zero k = ap orders (omega arith)
  orders-add (suc j) k =
      let sum : suc (j + k) ≡ suc j + k = omega arith in
      ap (◌∷◌ (kill c sigterm)) (orders-add j k) ∙ ap orders sum

  none_yet : (es : List Event) (n : ℕ) (m : Machine os) → m.events ≡ es → Ordered es n m
  none_yet es n m h = (0, omega arith, ap calls h ∙ append_nil (calls es))

  after_waitpid-Ordered :
      (r : ℤ × WaitStatus) (m : Machine os) → RoundOrdered m.events (after_waitpid os wm c true r m)
  unfolding after_waitpid child_ended
  after_waitpid-Ordered (negsuc n, st) m = (none_yet m.events 1 m refl, refl, refl)
  after_waitpid-Ordered (pos zero, st) m = (none_yet m.events 1 m refl, refl, refl)
  after_waitpid-Ordered (pos (suc n), st) m = elim (Bool-cases (reports_end st)) [
    | inl e ↦ rw e (none_yet m.events 1 m refl)
    | inr e ↦ rw e (none_yet m.events 1 m refl, refl, refl)
  ]

  dispatch-Ordered :
      (sig : Signal) (m : Machine os) → RoundOrdered m.events (dispatch os wm c true sig m)
  unfolding dispatch
  dispatch-Ordered sigchld m = after_waitpid-Ordered (os.waitpid m.world).0 _
  dispatch-Ordered sighup m = ((1, omega arith, calls-append m.events _), refl, refl)
  dispatch-Ordered sigterm m = ((1, omega arith, calls-append m.events _), refl, refl)
  dispatch-Ordered sigint m = ((1, omega arith, calls-append m.events _), refl, refl)
  dispatch-Ordered sigquit m = ((1, omega arith, calls-append m.events _), refl, refl)
  dispatch-Ordered (other n) m = ((1, omega arith, calls-append m.events _), refl, refl)

  interrupted-Ordered :
      (b : Bool) (m : Machine os)
      → RoundOrdered m.events (returned (if b then again c true else return_ (pos 1)) m)
  interrupted-Ordered true m = (none_yet m.events 1 m refl, refl, refl)
  interrupted-Ordered false m = none_yet m.events 1 m refl

  after_wait-Ordered :
      (r : ℤ) (b : Bool) (sig : Signal) (m : Machine os)
      → RoundOrdered m.events
          (after_wait os wm c true (record { result = r; interrupted = b; signo = sig }) m)
  unfolding after_wait
  after_wait-Ordered (negsuc n) b sig m = interrupted-Ordered b m
  after_wait-Ordered (pos n) b sig m = dispatch-Ordered sig m

  -- The calls of a round and then those of the rest.
  Ordered-trans :
      (es : List Event) (n : ℕ) (m t : Machine os)
      → Ordered es 1 m
      → Ordered m.events n t
      → Ordered es (suc n) t
  Ordered-trans es n m t (j, p, h) (k, q, g) = (
    j + k,
    omega arith,
    g
        ∙ (ap (λ cs. cs ++ orders k) h
            ∙ (append_assoc (calls es) (orders j) (orders k)
                ∙ ap (λ cs. calls es ++ cs) (orders-add j k))),
  )

  Ordered-weaken :
      (es : List Event) (n : ℕ) (m : Machine os) → Ordered es 1 m → Ordered es (suc n) m
  Ordered-weaken es n m (k, p, h) = (k, omega arith, h)

  loop_on-Ordered :
      (es : List Event) (n : ℕ) (o : Outcome Next (Machine os)) (rest : ℕ → Bool → M os ℤ)
      → RoundOrdered es o
      → ((m : Machine os) → Leaves (Ordered m.events n) (rest c true m))
      → Leaves
          (Ordered es (suc n))
          (and_then o (λ next. elim next [ again d e ↦ rest d e | return_ code ↦ pure code ]))
  loop_on-Ordered es n (returned (again d e) m) rest h ih =
      rw (h.1, h.2)
        (Leaves-mono (Ordered m.events n) (Ordered es (suc n)) (rest c true m) (ih m)
          (λ t. Ordered-trans es n m t h.0))
  loop_on-Ordered es n (returned (return_ code) m) rest h ih = Ordered-weaken es n m h
  loop_on-Ordered es n (exited code m) rest h ih = Ordered-weaken es n m h
  loop_on-Ordered es n (aborted m) rest h ih = Ordered-weaken es n m h
  loop_on-Ordered es n (unfinished m) rest h ih = Ordered-weaken es n m h

  -- Once the monitor is exiting, its loop only ever sends SIGTERM to its one child, at most once
  -- a round, over any number of rounds and whatever signals come: it makes no other call besides
  -- its waits, so no worker is started.
  pub main_loop-Ordered :
      (rounds : ℕ) (m : Machine os)
      → Leaves (Ordered m.events rounds) (main_loop os rounds wm c true m)
  unfolding main_loop
  main_loop-Ordered zero m = none_yet m.events 0 m refl
  main_loop-Ordered (suc rounds) m =
      loop_on-Ordered m.events rounds _ (main_loop os rounds wm)
        (after_wait-Ordered (os.sigwaitinfo m.world).0.result (os.sigwaitinfo m.world).0.interrupted
          (os.sigwaitinfo m.world).0.signo (record m { world = (os.sigwaitinfo m.world).1 }))
        (main_loop-Ordered rounds)
