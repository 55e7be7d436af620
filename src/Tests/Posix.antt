-- ===== src/Tests/Posix.antt =====
-- A small system on which the code runs: ids count up, a signalled process ends at once, and the
-- library's factories and methods answer 1.
use mpic.Prelude.{
  ℕ, zero, suc, ◌<◌, ◌≡◌, refl, Bool, true, false, not, ◌&&◌, ◌||◌, none, some, List, [], ◌∷◌, ◌++◌,
  arith, ℤ, pos, negsuc, pos_part, is_positive, ◌==◌, leb, length, if◌then◌else◌, bytes,
}
use mpic.Os.{Os, Call, fork, kill, Signal, WaitStatus, SigInfo, sigchld}
use mpic.Os.Kernel.{IsKernel, IsQuiet, makes_child, reports_end}

-- `live` is the table of children, `dead` those that `waitpid` has still to report, and `signals`
-- what `sigwaitinfo` will give.
pub record World : Type 0 where
  pub next : ℕ
  pub live : ℕ → Bool
  pub dead : List ℕ
  pub signals : List Signal

abbrev pub sys : Call → World → ℤ × World
sys fork w =
    (pos (suc w.next), record w { next = suc w.next; live = λ p. p == suc w.next || w.live p })
sys (kill p s) w = (pos 0, record w { dead = w.dead ++ (p ∷ []) })
sys _ w = (pos 0, w)

abbrev pub ended : WaitStatus
ended = record { exited = true; signaled = false; core_dumped = false }

abbrev report : List ℕ → World → (ℤ × WaitStatus) × World
report [] w = ((pos 0, ended), w)
report (zero ∷ ds) w = ((pos 0, ended), record w { dead = ds })
report (suc d ∷ ds) w =
    ((pos (suc d), ended), record w { live = λ p. not (p == suc d) && w.live p; dead = ds })

abbrev info : ℤ → Signal → SigInfo
info r s = record { result = r; interrupted = false; signo = s }

abbrev next_signal : List Signal → World → SigInfo × World
next_signal [] w = (info (negsuc 0) sigchld, w)
next_signal (s ∷ ss) w = (info (pos 17) s, record w { signals = ss })

abbrev pub posix : Os
posix = record {
  World = World;
  sys = sys;
  method = λ c w. (some (pos 1), w);
  waitpid = λ w. report w.dead w;
  sigwaitinfo = λ w. next_signal w.signals w;
  malloc = λ n w. (5000, w);
  stat = λ path w. ((pos 0, true), w);
  realpath = λ path w. (some path, w);
  readlink = λ w. ((pos 11, bytes "/bin/nfmpic"), w);
  dlopen = λ path w. (7, w);
  dlsym = λ h name w. (9, w);
  dlerror = λ w. (none, w);
}

abbrev pub child : World → ℕ → Bool
child w p = leb p w.next && w.live p

pub fork_fresh : (w : World) → child w (suc w.next) ≡ false
fork_fresh w = ground arith

pub fork_child : (w : World) (p : ℕ) → child (sys fork w).1 p ≡ (p == suc w.next || child w p)
fork_child w p = ground arith

pub sys_child :
    (c : Call) (w : World) (p : ℕ) → makes_child c ≡ false → child (sys c w).1 p ≡ child w p
sys_child fork w p h = cc
sys_child (kill q s) w p h = refl
sys_child _ w p h = refl

pub waitpid_child :
    (ds : List ℕ) (w : World) (p : ℕ)
    → let r = (report ds w).0 in
      child (report ds w).1 p ≡ (
        if is_positive r.0 && reports_end r.1
        then not (p == pos_part r.0) && child w p
        else child w p)
waitpid_child [] w p = refl
waitpid_child (zero ∷ ds) w p = refl
waitpid_child (suc d ∷ ds) w p = ground arith

pub sigwaitinfo_child :
    (ss : List Signal) (w : World) (p : ℕ) → child (next_signal ss w).1 p ≡ child w p
sigwaitinfo_child [] w p = refl
sigwaitinfo_child (s ∷ ss) w p = refl

abbrev pub kernel : IsKernel posix
kernel = record {
  child = child;
  fork_id = λ w. w.next;
  fork_result = λ w. refl;
  fork_fresh = fork_fresh;
  fork_child = fork_child;
  sys_child = sys_child;
  method_child = λ c w p. refl;
  dlopen_child = λ path w p. refl;
  dlsym_child = λ h name w p. refl;
  dlerror_child = λ w p. refl;
  sigwaitinfo_child = λ w p. sigwaitinfo_child w.signals w p;
  waitpid_child = λ w p. waitpid_child w.dead w p;
}

pub waitpid_pending :
    (ds : List ℕ) (w : World)
    → ds ≡ w.dead
    → is_positive (report ds w).0.0 ≡ true
    → length (report ds w).1.dead < length w.dead
waitpid_pending [] w e h = cc
waitpid_pending (zero ∷ ds) w e h = cc
waitpid_pending (suc d ∷ ds) w e h = rw (← e) (omega arith)

abbrev pub quiet : IsQuiet posix
quiet = record {
  pending = λ w. length w.dead;
  waitpid_pending = λ w. waitpid_pending w.dead w refl;
  fork_pending = λ w. omega arith;
}
