-- ===== src/Daemonizer.antt =====
-- examples/daemon/daemonizer.cc, and main.cc that uses it: a process that makes itself a daemon.
pub mod Forking
use mpic.Prelude.{
  ℕ, zero, suc, Bool, true, false, not, List, [], ◌∷◌, ℤ, pos, negsuc, Bytes, bytes, is_negative,
  ◌==◌, if◌then◌else◌,
}
use mpic.Prelude.State.{Outcome, returned, exited, ◌>>=◌, ◌>>◌, pure, abort}
use mpic.Os.{
  Os, getpid, sleep, daemon_retval_init, daemon_fork, daemon_retval_done, daemon_close_all,
  daemon_retval_wait, daemon_retval_send,
}
use mpic.Os.Machine.{M, sys}
use mpic.Echo.{same_text}

-- `==` of two ids.
abbrev pub same_pid : ℤ → ℤ → Bool
same_pid (pos m) (pos n) = m == n
same_pid (negsuc m) (negsuc n) = m == n
same_pid (pos m) (negsuc n) = false
same_pid (negsuc m) (pos n) = false

-- `argc == 2` and this one argument.
abbrev pub has_argument : Bytes → List Bytes → Bool
has_argument a [] = false
has_argument a (exe ∷ []) = false
has_argument a (exe ∷ b ∷ []) = same_text b a
has_argument a (exe ∷ b ∷ c ∷ bs) = false

module _ (os : Os) where
  -- The branches of `Init` after the fork. The parent exits alike, whatever the daemon has sent.
  unfoldable pub after_fork : ℤ → M os (Unit {0})
  after_fork (negsuc n) = do _ ← sys os daemon_retval_done; pure tt
  after_fork (pos (suc n)) = do _ ← sys os (daemon_retval_wait 20); exited (pos 0)
  after_fork (pos zero) = do
    closed ← sys os daemon_close_all
    (if is_negative closed then (do _ ← sys os (daemon_retval_send 1); pure tt) else pure tt)
    _ ← sys os (daemon_retval_send 0)
    pure tt

  unfoldable pub init : M os (Unit {0})
  unfolding after_fork
  init = do _ ← sys os daemon_retval_init; pid ← sys os daemon_fork; after_fork pid

  -- The destructor.
  unfoldable pub destroy : M os (Unit {0})
  destroy = do _ ← sys os (daemon_retval_send 0); pure tt

  -- The loop of `main`.
  unfoldable pub nap_times : ℕ → M os (Unit {0})
  nap_times zero = pure tt
  nap_times (suc n) = do _ ← sys os (sleep 1); nap_times n

  -- `main` from the second `getpid` on.
  unfoldable pub after_start : ℤ → Bool → M os ℤ
  unfolding nap_times
  after_start start_pid is_daemon = do
    pid ← sys os getpid
    if (if is_daemon then same_pid pid start_pid else not (same_pid pid start_pid))
        then abort
        else do nap_times 60; pure (pos 0)

  unfoldable pub main : List Bytes → M os ℤ
  unfolding init destroy after_start
  main argv = do
    start_pid ← sys os getpid
    if has_argument (bytes "-d") argv
        then (do init; destroy; after_start start_pid true)
        else if has_argument (bytes "-h") argv
        then pure (pos 0)
        else after_start start_pid false
