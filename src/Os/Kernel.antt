-- ===== src/Os/Kernel.antt =====
-- The POSIX behaviour of `fork` and `waitpid` that the master relies on: a table of the children
-- that have not been waited for.
use mpic.Prelude.{
  ℕ, suc, ◌≤◌, ◌<◌, ◌≡◌, Bool, true, false, not, ◌&&◌, ◌||◌, pos, ◌==◌, Bytes, if◌then◌else◌,
  pos_part, is_positive,
}
use mpic.Os.{Os, Call, fork, daemon_fork, Method, WaitStatus}

-- The calls that make a child.
abbrev pub makes_child : Call → Bool
makes_child fork = true
makes_child daemon_fork = true
makes_child _ = false

-- WIFEXITED, WIFSIGNALED or WCOREDUMP.
abbrev pub reports_end : WaitStatus → Bool
reports_end st = st.exited || (st.signaled || st.core_dumped)

-- A kernel with room for every fork, seen by the parent: `fork` gives a new positive id, which
-- joins the table. `waitpid` gives the id of a child in the table; it leaves the table if its
-- status reports its end. No other call changes the table.
pub record IsKernel (os : Os) : Type 0 where
  pub child : os.World → ℕ → Bool
  pub fork_id : os.World → ℕ
  pub fork_result : (w : os.World) → (os.sys fork w).0 ≡ pos (suc (fork_id w))
  pub fork_fresh : (w : os.World) → child w (suc (fork_id w)) ≡ false
  pub fork_child :
      (w : os.World) (p : ℕ) → child (os.sys fork w).1 p ≡ (p == suc (fork_id w) || child w p)
  pub sys_child :
      (c : Call) (w : os.World) (p : ℕ) → makes_child c ≡ false → child (os.sys c w).1 p ≡ child w p
  pub method_child : (c : Method) (w : os.World) (p : ℕ) → child (os.method c w).1 p ≡ child w p
  pub dlopen_child :
      (path : Bytes) (w : os.World) (p : ℕ) → child (os.dlopen path w).1 p ≡ child w p
  pub dlsym_child :
      (h : ℕ) (name : Bytes) (w : os.World) (p : ℕ) → child (os.dlsym h name w).1 p ≡ child w p
  pub dlerror_child : (w : os.World) (p : ℕ) → child (os.dlerror w).1 p ≡ child w p
  pub sigwaitinfo_child : (w : os.World) (p : ℕ) → child (os.sigwaitinfo w).1 p ≡ child w p
  pub waitpid_child :
      (w : os.World) (p : ℕ)
      → let r = (os.waitpid w).0 in
        child (os.waitpid w).1 p ≡ (
          if is_positive r.0 && reports_end r.1
          then not (p == pos_part r.0) && child w p
          else child w p)

-- While the master handles SIGCHLD no further child changes its state: `waitpid` has fewer than
-- `pending` children to report, and a fork adds none.
pub record IsQuiet (os : Os) : Type 0 where
  pub pending : os.World → ℕ
  pub waitpid_pending :
      (w : os.World) → is_positive (os.waitpid w).0.0 ≡ true → pending (os.waitpid w).1 < pending w
  pub fork_pending : (w : os.World) → pending (os.sys fork w).1 ≤ pending w
