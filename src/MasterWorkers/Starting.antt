-- ===== src/MasterWorkers/Starting.antt =====
-- `Run` of examples/master-workers/master.cc and of mpic/master_linux.cc, up to the daemon's side of
-- the fork.
use mpic.Prelude.{
  ℕ, zero, suc, ◌≡◌, refl, Bool, true, false, not, ◌||◌, [], ◌∷◌, ◌++◌, ℤ, pos, negsuc, is_zero,
  is_negative, if◌then◌else◌,
}
use mpic.Prelude.State.{map_state, ◌>>=◌, ◌>>◌, pure}
use mpic.Os.{Os, daemon_fork, daemon_pid_file_is_running, daemon_retval_init}
use mpic.Os.Machine.{called}
use mpic.Options
use mpic.Options.{get_exe_name}
use mpic.Master
use mpic.Master.Daemon
use mpic.MasterWorkers
use mpic.MasterWorkers.{State, Routine}
use mpic.MasterWorkers.CommandLine.{Options}
use mpic.MasterWorkers.Likeness.{likeness}
use mpic.MasterWorkers.Lockstep.{
  Like, if-Like, then_Like, named-Like, with_daemon-Like, in_parent-Like,
}
use mpic.MasterWorkers.Daemon as Old

module _ {os : Os} (o : Options) (wm : Routine os ℤ) (rounds fuel : ℕ) where
  after_daemon_fork-Like :
      (op' : Options.Options) (child : ℤ)
      → is_zero child ≡ false
      → Like o
          (Old.after_daemon_fork os wm rounds fuel o child)
          (Daemon.after_daemon_fork os rounds fuel op' child)
  unfolding Old.after_daemon_fork Daemon.after_daemon_fork
  after_daemon_fork-Like op' (negsuc n) h s = refl
  after_daemon_fork-Like op' (pos zero) h s = cc
  after_daemon_fork-Like op' (pos (suc n)) h s = in_parent-Like o s

  run_as_daemon-Like :
      (op' : Options.Options)
      → ((w : os.World) → is_zero (os.sys daemon_fork w).0 ≡ false)
      → Like o (Old.run_as_daemon os wm rounds fuel o) (Daemon.run_as_daemon os rounds fuel op')
  unfolding Old.run_as_daemon Daemon.run_as_daemon
  run_as_daemon-Like op' parent =
      then_Like o daemon_pid_file_is_running
        (λ pid. if not (is_negative pid) then Old.name_for_message os >> pure (pos 1) else ready)
        (λ pid.
          if not (is_negative pid) then Daemon.name_for_message os >> pure (pos 1) else ready')
        (λ pid.
          if-Like o (not (is_negative pid)) (Old.name_for_message os >> pure (pos 1)) ready
            (Daemon.name_for_message os >> pure (pos 1)) ready'
            (named-Like o (pure (pos 1)) (pure (pos 1)) (λ s. refl))
            (then_Like o daemon_retval_init (λ r. if not (is_zero r) then pure (pos 1) else child)
              (λ r. if not (is_zero r) then pure (pos 1) else child')
              (λ r.
                if-Like o (not (is_zero r)) (pure (pos 1)) child (pure (pos 1)) child' (λ s. refl)
                  (λ s.
                    after_daemon_fork-Like op' (os.sys daemon_fork s.machine.world).0
                      (parent s.machine.world) (forked s)))))
    where
      child : Routine os ℤ
      child = MasterWorkers.sys os daemon_fork >>= Old.after_daemon_fork os wm rounds fuel o

      ready : Routine os ℤ
      ready = do
        r ← MasterWorkers.sys os daemon_retval_init
        if not (is_zero r) then pure (pos 1) else child

      child' : Master.Routine os ℤ
      child' = Master.sys os daemon_fork >>= Daemon.after_daemon_fork os rounds fuel op'

      ready' : Master.Routine os ℤ
      ready' = do
        r ← Master.sys os daemon_retval_init
        if not (is_zero r) then pure (pos 1) else child'

      forked : Master.State os → Master.State os
      forked s = record s {
        machine = record s.machine {
          world = (os.sys daemon_fork s.machine.world).1;
          events = s.machine.events ++ (called daemon_fork ∷ []);
        };
      }

-- These options but the module's file, which the old master does not have.
abbrev pub old_options : Options.Options → Options
old_options op = record {
  original_cmdline = op.original_cmdline;
  initialized = op.initialized;
  name = op.name;
  kill = op.kill;
  reload = op.reload;
  status = op.status;
  newbin = op.newbin;
  foreground = op.foreground;
  debug = op.debug;
  log_dir = op.log_dir;
  pid_file = op.pid_file;
  cfg_file = op.cfg_file;
  worker_processes = op.worker_processes;
}

-- The choice of `Run`.
choice-Like :
    {os : Os} (o : Options) (k r st fg : Bool) (f₁ f₂ f₃ f₄ f₅ : Routine os ℤ)
    (g₁ g₂ g₃ g₄ g₅ : Master.Routine os ℤ) (s : Master.State os)
    → (k || (r || (st || not fg))) ≡ true
    → Like o f₁ g₁
    → Like o f₂ g₂
    → Like o f₃ g₃
    → Like o f₅ g₅
    → (if k
        then f₁ (likeness o s)
        else if r
        then f₂ (likeness o s)
        else if st
        then f₃ (likeness o s)
        else if fg
        then f₄ (likeness o s)
        else f₅ (likeness o s))
      ≡ map_state
          (likeness o)
          (if k then g₁ s else if r then g₂ s else if st then g₃ s else if fg then g₄ s else g₅ s)
choice-Like o true r st fg f₁ f₂ f₃ f₄ f₅ g₁ g₂ g₃ g₄ g₅ s h a b c e = a s
choice-Like o false true st fg f₁ f₂ f₃ f₄ f₅ g₁ g₂ g₃ g₄ g₅ s h a b c e = b s
choice-Like o false false true fg f₁ f₂ f₃ f₄ f₅ g₁ g₂ g₃ g₄ g₅ s h a b c e = c s
choice-Like o false false false true f₁ f₂ f₃ f₄ f₅ g₁ g₂ g₃ g₄ g₅ s h a b c e = cc
choice-Like o false false false false f₁ f₂ f₃ f₄ f₅ g₁ g₂ g₃ g₄ g₅ s h a b c e = e s

-- Where `daemon_fork` does not put the caller on the daemon's side, and not in the foreground unless
-- kill, reload or status is asked for, `Run` of the old master comes out as that of the library does
-- with the same options: with the same number, the same machine, its calls included, and the same
-- maps. Its routine, its rounds and its fuel play no part.
pub run-likeness :
    {os : Os} (wm : Routine os ℤ) (rounds fuel : ℕ) (s : Master.State os)
    → (s.option.kill || (s.option.reload || (s.option.status || not s.option.foreground))) ≡ true
    → ((w : os.World) → is_zero (os.sys daemon_fork w).0 ≡ false)
    → Old.run os wm rounds fuel (likeness (old_options s.option) s)
      ≡ map_state (likeness (old_options s.option)) (Daemon.run os rounds fuel s)
unfolding Old.run Daemon.run Old.kill_daemon Daemon.kill_daemon Old.reload_daemon
    Daemon.reload_daemon Old.check_status Daemon.check_status
run-likeness {os} wm rounds fuel s h parent =
    let o = old_options s.option in
    choice-Like o s.option.kill s.option.reload s.option.status s.option.foreground
      (Old.kill_daemon os) (Old.reload_daemon os) (Old.check_status os)
      (Old.run_foreground os wm rounds fuel o) (Old.run_as_daemon os wm rounds fuel o)
      (Daemon.kill_daemon os) (Daemon.reload_daemon os) (Daemon.check_status os)
      (Daemon.run_foreground os rounds fuel s.option) (Daemon.run_as_daemon os rounds fuel s.option)
      s h (with_daemon-Like o _ _ (λ t. refl)) (with_daemon-Like o _ _ (λ t. refl))
      (with_daemon-Like o _ _ (λ t. refl)) (run_as_daemon-Like o wm rounds fuel s.option parent)
