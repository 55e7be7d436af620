-- ===== src/Monitor/Program.antt =====
-- examples/monitor-worker/main.cc: the worker that the monitor keeps alive, and `main`.
use mpic.Prelude.{ℕ, zero, suc, ℤ, pos, pos_part, is_zero, bytes, if◌then◌else◌}
use mpic.Prelude.State.{◌>>=◌, ◌>>◌, pure}
use mpic.Os.{Os, getpid, fopen, fprintf, fflush, fclose, sleep}
use mpic.Os.Machine.{M, sys}
use mpic.Monitor.{init, run}

module _ (os : Os) where
  -- The loop of `RunWorker`, from line `i` on, with `n` lines left to write.
  unfoldable pub write_lines : ℕ → ℕ → ℕ → M os (Unit {0})
  write_lines f i zero = pure tt
  write_lines f i (suc n) = do
    pid ← sys os getpid
    _ ← sys os (fprintf f i pid)
    _ ← sys os (fflush f)
    _ ← sys os (sleep 1)
    write_lines f (suc i) n

  unfoldable pub run_worker : M os ℤ
  run_worker = do
    f ← sys os (fopen (bytes "/tmp/mpic.log") (bytes "a+"))
    if is_zero f
        then pure (pos 1)
        else do write_lines (pos_part f) 0 5; _ ← sys os (fclose (pos_part f)); pure (pos 0)

  -- `rounds` is that of the monitor's loop. What `Init` returns is not read.
  unfoldable pub main : ℕ → M os ℤ
  main rounds = do _ ← init os; run os rounds run_worker
