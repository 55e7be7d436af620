-- ===== src/MasterWorkers/Lifetime.antt =====
-- A worker of examples/master-workers, from the fork to its end.
use mpic.Prelude.{
  ℕ, suc, ◌≤◌, ◌≡◌, refl, sym, ap, subst, ◌∙◌, Bool, true, false, List, [], ◌∷◌, ◌++◌, ℤ, pos,
  Bytes, bytes, replicate, Bool-cases, inl, inr,
}
use mathlib.Core.List.{append_assoc}
use mpic.Prelude.State.{
  Outcome, and_then, and_then_ext, returned, exited, aborted, unfinished, Exits, Exits-and_then,
  Exits-mono,
}
use mpic.Os.{Os, fork, unblock, sleep}
use mpic.Os.Machine.{Machine, M, called}
use mpic.Title.Writing.{shown, shown_again, set-shown}
use mpic.Farewell.{farewell}
use mpic.Farewell.Title.{Named, Told, get_exe_name-known, set_title-done}
use mpic.Title.{Title}
use mpic.Framework
use mpic.Framework.Ending.{Ended, run-Ended}
use mpic.MasterWorkers.{State, Routine, sigset, spawn_child_worker, after_fork, run_child, lift}
use mpic.MasterWorkers.CommandLine.{Options}
use mpic.MasterWorkers.Program
use mpic.MasterWorkers.Program.{run_worker, worker_main}

module _ {os : Os} where
  -- The worker's loop is that of examples/mpic-framework.
  run_worker_lem :
      (name : Bytes) (cs : List Bool) (m : Machine os)
      → run_worker os name cs m ≡ Framework.run os name cs m
  unfolding run_worker Framework.run Program.sigterm Framework.sigterm
  run_worker_lem name [] m = refl
  run_worker_lem name (true ∷ cs) m =
      and_then_ext (Framework.sigterm os name _) (λ _. run_worker os name cs)
        (λ _. Framework.run os name cs) (λ _. run_worker_lem name cs)
  run_worker_lem name (false ∷ cs) m = run_worker_lem name cs _

  lift-Exits :
      {A : Type 0} (code : ℤ) (P : Machine os → Type 0) (f : M os A) (s : State os)
      → Exits code P (f s.machine)
      → Exits code (λ u. P u.machine × (u ≡ record s { machine = u.machine })) (lift os f s)
  lift-Exits {A} code P f s h = of_outcome (f s.machine) h
    where
      of_outcome :
          (o : Outcome A (Machine os))
          → Exits code P o
          → Exits {A = A} code
              (λ (u : State os). P u.machine × (u ≡ record s { machine = u.machine }))
              (elim o [
                | returned a m ↦ returned a (record s { machine = m })
                | exited c m ↦ exited c (record s { machine = m })
                | aborted m ↦ aborted (record s { machine = m })
                | unfinished m ↦ unfinished (record s { machine = m })
              ])
      of_outcome (returned a m) h = h
      of_outcome (exited c m) h = (h.0, (h.1, refl))
      of_outcome (aborted m) h = h
      of_outcome (unfinished m) h = h

  worker_main-Ended :
      (p n : ℕ) (ps : List ℕ) (cs : List Bool) (s : State os)
      → Named p ps s.machine
      → Exits
          (pos 0)
          (λ u.
            Ended s.option.name p (suc n) s.machine u.machine
            × (u ≡ record s { machine = u.machine }))
          (worker_main os (replicate n false ++ (true ∷ cs)) s)
  unfolding worker_main
  worker_main-Ended p n ps cs s h =
      lift-Exits (pos 0) (Ended s.option.name p (suc n) s.machine)
        (run_worker os s.option.name (replicate n false ++ (true ∷ cs))) s
        (subst (Exits (pos 0) (Ended s.option.name p (suc n) s.machine))
          (sym (run_worker_lem s.option.name _ s.machine))
          (run-Ended s.option.name p ps n cs s.machine h))

  -- What a child leaves that a SIGTERM ends during sleep `n`.
  pub record Lived (p n : ℕ) (s u : State os) : Type 0 where
    pub events :
        u.machine.events
        ≡ s.machine.events
          ++ (called fork ∷ called (unblock sigset) ∷ replicate n (called (sleep 1))
              ++ (called (sleep 5) ∷ []))
    pub title : Told p s.option.name s.machine u.machine.title
    pub running : u.running ≡ []
    pub exiting : u.exiting ≡ []

  -- The child before its routine, with this title.
  abbrev begun : State os → Title → State os
  begun s t =
      let w = (os.sys fork s.machine.world).1 in
      record s {
        machine = record s.machine {
          world = (os.sys (unblock sigset) w).1;
          events = (s.machine.events ++ (called fork ∷ [])) ++ (called (unblock sigset) ∷ []);
          title = t;
        };
        running = [];
        exiting = [];
      }

  abbrev leave : ℤ → Routine os ℕ
  leave code = exited code

  then_work :
      (p n : ℕ) (ps : List ℕ) (cs : List Bool) (s : State os) (t : Title)
      → Named p ps (begun s t).machine
      → ((text : Bytes) (a : ℕ)
          → shown t.mem p t.g_last text a
            ≡ shown s.machine.title.mem p s.machine.title.g_last text a)
      → Exits
          (pos 0)
          (Lived p (suc n) s)
          (and_then (worker_main os (replicate n false ++ (true ∷ cs)) (begun s t)) leave)
  then_work p n ps cs s t h same =
      Exits-and_then (pos 0) (Lived p (suc n) s)
        (worker_main os (replicate n false ++ (true ∷ cs)) (begun s t)) _
        (Exits-mono (pos 0) _ (Lived p (suc n) s)
          (worker_main os (replicate n false ++ (true ∷ cs)) (begun s t))
          (worker_main-Ended p n ps cs (begun s t) h)
          (λ u e. record {
            events = e.0.events ∙ simp append_assoc;
            title = λ a. e.0.title a ∙ same (farewell s.machine.exe_name s.option.name) a;
            running = ap (λ v. v.running) e.1;
            exiting = ap (λ v. v.exiting) e.1;
          }))

  -- On the child's side of the fork, with the static name known and the title's space set up, a
  -- SIGTERM that comes during sleep `n + 1` of `RunWorker` ends the process with 0. The child has
  -- emptied both maps, unblocked the signals, slept `n + 1` times for a second and then once for
  -- five. Its title tells that the worker shuts down, also where it said before that it is a worker.
  pub spawn_child_worker-Lived :
      (p n : ℕ) (ps : List ℕ) (cs : List Bool) (op : Options) (s : State os)
      → Named p ps s.machine
      → (os.sys fork s.machine.world).0 ≡ pos 0
      → Exits
          (pos 0)
          (Lived p (suc n) s)
          (spawn_child_worker os (worker_main os (replicate n false ++ (true ∷ cs))) op s)
  unfolding spawn_child_worker after_fork run_child
  spawn_child_worker-Lived p n ps cs op s h child =
      let text = s.machine.exe_name ++ (bytes "(" ++ (op.name ++ bytes "): worker process")) in
      let (t, done, shows, last, start, _) = set-shown text s.machine.title p ps h.1 h.2 in
      let m₁ : Machine os = record s.machine {
        world = (os.sys fork s.machine.world).1;
        events = s.machine.events ++ (called fork ∷ []);
      } in
      let m₂ = (begun s s.machine.title).machine in
      elim (Bool-cases op.foreground) [
        | inl e ↦
            rw (child, after_fork, run_child, lift, get_exe_name-known m₁ h.0, e)
              (then_work p n ps cs s s.machine.title h (λ text a. refl))
        | inr e ↦
            rw
              (
                child,
                after_fork,
                run_child,
                lift,
                get_exe_name-known m₁ h.0,
                e,
                get_exe_name-known m₂ h.0,
                set_title-done text m₂ t done,
              )
              (then_work p n [] cs s t (h.0, start, subst (λ l. p ≤ l) (sym last) h.2)
                (λ new a.
                  ap (λ l. shown t.mem p l new a) last
                  ∙ shown_again s.machine.title.mem t.mem p s.machine.title.g_last text new shows
                      a))
      ]
