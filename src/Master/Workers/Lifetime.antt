-- ===== src/Master/Workers/Lifetime.antt =====
-- The child's side of `SpawnChildWorker` of mpic/master_linux.cc, from the fork to its end.
use mpic.Prelude.{
  ℕ, suc, ◌≡◌, refl, sym, ap, subst, false, some, List, [], ◌∷◌, ◌++◌, ℤ, pos, bytes,
}
use mathlib.Core.List.{append_assoc}
use mpic.Prelude.State.{returned, Exits}
use mpic.Os
use mpic.Os.{Os, fork, unblock, init_in_worker, uninit}
use mpic.Os.Machine.{Machine, called, invoked}
use mpic.Options.{Options}
use mpic.Title.{Title}
use mpic.Title.Writing.{shown, set-shown}
use mpic.Farewell.Title.{Named, get_exe_name-known, set_title-done}
use mpic.Master.{State, lift}
use mpic.Master.Workers.{sigset, spawn_child_worker, after_fork, run_child, run_module}

-- The module at this address throws nothing, and its `Run` returns this number.
pub record Serves (os : Os) (q : ℕ) (code : ℤ) : Type 0 where
  pub begun : ℤ
  pub ended : ℤ
  pub begins : (w : os.World) → (os.method (init_in_worker q) w).0 ≡ some begun
  pub runs : (w : os.World) → (os.method (Os.run q) w).0 ≡ some code
  pub ends : (w : os.World) → (os.method (uninit q) w).0 ≡ some ended

module _ {os : Os} where
  -- What a worker leaves whose module was at `suc q`; the title's space starts at `p`.
  pub record Worked (p q : ℕ) (op : Options) (s u : State os) : Type 0 where
    pub events :
        u.machine.events
        ≡ s.machine.events
          ++ (called fork
              ∷ called (unblock sigset)
              ∷ invoked (init_in_worker (suc q))
              ∷ invoked (Os.run (suc q))
              ∷ invoked (uninit (suc q))
              ∷ [])
    pub title :
        (a : ℕ)
        → u.machine.title.mem a
          ≡ shown s.machine.title.mem p s.machine.title.g_last
              (s.machine.exe_name ++ (bytes "(" ++ (op.name ++ bytes "): worker process")))
              a
    pub maps : (u.running ≡ []) × (u.exiting ≡ [])
    pub objects : (u.module_ptr ≡ 0) × (u.resource ≡ 0)

  -- The state after `Uninit`, and the reset of both objects.
  abbrev after_module : ℕ → State os → State os
  after_module q s =
      let v = (os.method (init_in_worker (suc q)) s.machine.world).1 in
      let w = (os.method (Os.run (suc q)) v).1 in
      record s {
        machine = record s.machine {
          world = (os.method (uninit (suc q)) w).1;
          events =
              ((s.machine.events ++ (invoked (init_in_worker (suc q)) ∷ []))
                ++ (invoked (Os.run (suc q)) ∷ []))
              ++ (invoked (uninit (suc q)) ∷ []);
        };
        module_ptr = 0;
        resource = 0;
      }

  run_module-known :
      (q : ℕ) (code : ℤ) (s : State os)
      → Serves os (suc q) code
      → run_module os (record s { module_ptr = suc q }) ≡ returned code (after_module q s)
  unfolding run_module
  run_module-known q code s S =
      let v = (os.method (init_in_worker (suc q)) s.machine.world).1 in
      let w = (os.method (Os.run (suc q)) v).1 in
      rw (S.begins s.machine.world, S.runs v, S.ends w) refl

  -- The child before its module runs, with this title.
  abbrev begun : State os → Title → State os
  begun s t =
      let w = (os.sys fork s.machine.world).1 in
      record s {
        machine = record s.machine {
          world = (os.sys (unblock sigset) w).1;
          events = (s.machine.events ++ (called fork ∷ [])) ++ (called (unblock sigset) ∷ []);
          title = t;
        };
        running = [];
        exiting = [];
      }

  with_module-Worked :
      (p q : ℕ) (ps : List ℕ) (code : ℤ) (op : Options) (s : State os)
      → Named p ps s.machine
      → op.foreground ≡ false
      → Serves os (suc q) code
      → (os.sys fork s.machine.world).0 ≡ pos 0
      → Exits code (Worked p q op s) (spawn_child_worker os op (record s { module_ptr = suc q }))
  unfolding spawn_child_worker after_fork run_child
  with_module-Worked p q ps code op s h fg S child =
      let text = s.machine.exe_name ++ (bytes "(" ++ (op.name ++ bytes "): worker process")) in
      let (t, done, shows, _, _, _) = set-shown text s.machine.title p ps h.1 h.2 in
      let m₁ : Machine os = record s.machine {
        world = (os.sys fork s.machine.world).1;
        events = s.machine.events ++ (called fork ∷ []);
      } in
      let m₂ = (begun s s.machine.title).machine in
      rw
        (
          child,
          after_fork,
          run_child,
          lift,
          get_exe_name-known m₁ h.0,
          fg,
          get_exe_name-known m₂ h.0,
          set_title-done text m₂ t done,
          run_module-known q code (begun s t) S,
        )
        (
          refl,
          record {
            events = simp append_assoc;
            title = shows;
            maps = (refl, refl);
            objects = (refl, refl);
          },
        )

  -- On the child's side of the fork, not in the foreground, with the static name known, the title's
  -- space set up, and a module that throws nothing: the process exits with the number that `Run` of
  -- the module returns. The child has emptied both maps and unblocked the signals, its title says
  -- that it is a worker, and it has called `InitInWorker`, `Run` and `Uninit`, in this order and once
  -- each, and reset both objects.
  pub spawn_child_worker-Worked :
      (p q : ℕ) (ps : List ℕ) (code : ℤ) (op : Options) (s : State os)
      → Named p ps s.machine
      → op.foreground ≡ false
      → s.module_ptr ≡ suc q
      → Serves os (suc q) code
      → (os.sys fork s.machine.world).0 ≡ pos 0
      → Exits code (Worked p q op s) (spawn_child_worker os op s)
  spawn_child_worker-Worked p q ps code op s h fg ptr S child =
      subst (λ v. Exits code (Worked p q op s) (spawn_child_worker os op v))
        (ap (λ a. record s { module_ptr = a }) (sym ptr))
        (with_module-Worked p q ps code op s h fg S child)
