-- ===== src/MasterWorkers/Lockstep.antt =====
-- The steps that `Run` of examples/master-workers/master.cc shares with that of mpic/master_linux.cc.
use mpic.Prelude.{◌≡◌, refl, Bool, true, false, ℤ, pos, is_negative, is_positive, if◌then◌else◌}
use mpic.Prelude.State.{
  Outcome, returned, exited, aborted, unfinished, map_state, map_state-and_then, ◌>>=◌, ◌>>◌, pure,
}
use mpic.Os.{Os, Call, daemon_pid_file_is_running, daemon_retval_wait}
use mpic.Os.Machine.{M, Machine}
use mpic.Options.{get_exe_name}
use mpic.Master
use mpic.Master.Daemon
use mpic.MasterWorkers
use mpic.MasterWorkers.{State, Routine}
use mpic.MasterWorkers.CommandLine.{Options}
use mpic.MasterWorkers.Likeness.{likeness}
use mpic.MasterWorkers.Daemon as Old

module _ {os : Os} (o : Options) where
  -- This routine comes out as the other one does, and leaves the same machine and maps.
  abbrev pub Like : {A : Type 0} → Routine os A → Master.Routine os A → Type 0
  Like f g = (s : Master.State os) → f (likeness o s) ≡ map_state (likeness o) (g s)

  lift-Like : {A : Type 0} (f : M os A) → Like (MasterWorkers.lift os f) (Master.lift os f)
  lift-Like {A} f s = of_outcome (f s.machine)
    where
      of_outcome :
          (r : Outcome A (Machine os))
          → MasterWorkers.lift os (λ _. r) (likeness o s)
            ≡ map_state (likeness o) (Master.lift os (λ _. r) s)
      of_outcome (returned a m) = refl
      of_outcome (exited c m) = refl
      of_outcome (aborted m) = refl
      of_outcome (unfinished m) = refl

  bind-Like :
      {A B : Type 0} (f : Routine os A) (f' : Master.Routine os A) (g : A → Routine os B)
      (g' : A → Master.Routine os B)
      → Like f f'
      → ((a : A) → Like (g a) (g' a))
      → Like (f >>= g) (f' >>= g')
  bind-Like f f' g g' h k s = rw (h s) (map_state-and_then (likeness o) (f' s) g' g k)

  pub if-Like :
      {A : Type 0} (b : Bool) (f g : Routine os A) (f' g' : Master.Routine os A)
      → Like f f'
      → Like g g'
      → Like (if b then f else g) (if b then f' else g')
  if-Like true f g f' g' h k = h
  if-Like false f g f' g' h k = k

  name-Like : Like (Old.name_for_message os) (Daemon.name_for_message os)
  unfolding Old.name_for_message Daemon.name_for_message
  name-Like =
      bind-Like (MasterWorkers.lift os (get_exe_name os)) (Master.lift os (get_exe_name os))
        (λ _. pure tt) (λ _. pure tt) (lift-Like (get_exe_name os)) (λ _ s. refl)

  -- A call, and what follows it.
  pub then_Like :
      {A : Type 0} (c : Call) (g : ℤ → Routine os A) (g' : ℤ → Master.Routine os A)
      → ((a : ℤ) → Like (g a) (g' a))
      → Like (MasterWorkers.sys os c >>= g) (Master.sys os c >>= g')
  then_Like c g g' k s = k _ _

  -- The name, and what follows it.
  pub named-Like :
      {A : Type 0} (g : Routine os A) (g' : Master.Routine os A)
      → Like g g'
      → Like (Old.name_for_message os >> g) (Daemon.name_for_message os >> g')
  named-Like g g' k =
      bind-Like (Old.name_for_message os) (Daemon.name_for_message os) (λ _. g) (λ _. g') name-Like
        (λ _. k)

  pub with_daemon-Like :
      (f : Routine os ℤ) (f' : Master.Routine os ℤ)
      → Like f f'
      → Like (Old.with_daemon os f) (Daemon.with_daemon os f')
  unfolding Old.with_daemon Daemon.with_daemon
  with_daemon-Like f f' h =
      then_Like daemon_pid_file_is_running
        (λ pid. Old.name_for_message os >> (if is_positive pid then f else pure (pos 1)))
        (λ pid. Daemon.name_for_message os >> (if is_positive pid then f' else pure (pos 1)))
        (λ pid.
          named-Like _ _
            (if-Like (is_positive pid) f (pure (pos 1)) f' (pure (pos 1)) h (λ s. refl)))

  pub in_parent-Like : Like (Old.in_parent os) (Daemon.in_parent os)
  unfolding Old.in_parent Daemon.in_parent
  in_parent-Like =
      then_Like (daemon_retval_wait 10)
        (λ r. if is_negative r then pure (pos 1) else Old.name_for_message os >> pure r)
        (λ r. if is_negative r then pure (pos 1) else Daemon.name_for_message os >> pure r)
        (λ r.
          if-Like (is_negative r) (pure (pos 1)) (Old.name_for_message os >> pure r) (pure (pos 1))
            (Daemon.name_for_message os >> pure r) (λ s. refl)
            (named-Like (pure r) (pure r) (λ s. refl)))
