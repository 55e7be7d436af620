-- ===== src/Daemonizer/Forking.antt =====
-- `Daemonizer::Init` of examples/daemon/daemonizer.cc and its use in main.cc, by what the fork gives.
use mpic.Prelude.{
  ℕ, zero, suc, ◌≡◌, refl, Bool, true, map, List, [], ◌∷◌, ◌++◌, ℤ, pos, negsuc, Bytes, bytes,
  if◌then◌else◌, is_negative, ◌==◌, arith, Bool-cases, inl, inr,
}
use mathlib.Core.List.{append_assoc}
use mpic.Prelude.State.{Outcome, returned, exited, aborted, unfinished, Returns, Exits}
use mpic.Os.{
  Os, Call, getpid, daemon_retval_init, daemon_fork, daemon_retval_done, daemon_close_all,
  daemon_retval_wait, daemon_retval_send,
}
use mpic.Os.Machine.{Machine, called}
use mpic.Daemonizer.{after_fork, init, destroy, after_start, main}
use mpic.Echo.{same_text}

module _ {os : Os} (m : Machine os) where
  -- The world after the first two calls, what the fork gave, and whether the descriptors close.
  abbrev forking : ℤ × os.World
  forking = os.sys daemon_fork (os.sys daemon_retval_init m.world).1

  abbrev pub forked : ℤ
  forked = forking.0

  abbrev pub close_fails : Bool
  close_fails = is_negative (os.sys daemon_close_all forking.1).0

  abbrev Happened : List Call → Machine os → Type 0
  Happened cs n = n.events ≡ m.events ++ map called (daemon_retval_init ∷ daemon_fork ∷ cs)

  -- What `Init` comes to.
  abbrev pub Forks : ℤ → Outcome (Unit {0}) (Machine os) → Type 0
  Forks (negsuc n) o = Returns (λ _ u. Happened (daemon_retval_done ∷ []) u) o
  Forks (pos (suc n)) o = Exits (pos 0) (Happened (daemon_retval_wait 20 ∷ [])) o
  Forks (pos zero) o =
      Returns
        (λ _ u.
          Happened
            (daemon_close_all
              ∷ (if close_fails
                  then daemon_retval_send 1 ∷ daemon_retval_send 0 ∷ []
                  else daemon_retval_send 0 ∷ []))
            u)
        o

  -- The machine after the fork.
  abbrev after : Machine os
  after = record m {
    world = forking.1;
    events = (m.events ++ called daemon_retval_init ∷ []) ++ called daemon_fork ∷ [];
  }

  after_fork-Forks : (pid : ℤ) → Forks pid (after_fork os pid after)
  unfolding after_fork
  after_fork-Forks (negsuc n) = simp append_assoc
  after_fork-Forks (pos (suc n)) = (refl, simp append_assoc)
  after_fork-Forks (pos zero) = elim (Bool-cases close_fails) [
    | inl e ↦ rw e (simp append_assoc)
    | inr e ↦ rw e (simp append_assoc)
  ]

  -- `Init` comes back in the daemon, and also where the fork has failed. The parent exits with 0,
  -- whatever it was sent. A daemon that cannot close its descriptors sends 1, and then still 0.
  pub init-Forks : Forks forked (init os m)
  unfolding init
  init-Forks = after_fork-Forks forked

-- The process ends by an assertion.
abbrev pub Aborts : {A S : Type 0} → Outcome A S → Type 0
Aborts (returned a s) = ⊥
Aborts (exited c s) = ⊥
Aborts (aborted s) = Unit
Aborts (unfinished s) = ⊥

-- `main` with the option of a daemon, in a process of id `p` whose fork fails, ends at its assertion
-- that the id has changed, since `Init` comes back without a word that it failed.
pub main_fork_fails :
    {os : Os} (m : Machine os) (exe : Bytes) (p n : ℕ)
    → ((w : os.World) → (os.sys getpid w).0 ≡ pos p)
    → ((w : os.World) → (os.sys daemon_fork w).0 ≡ negsuc n)
    → Aborts (main os (exe ∷ bytes "-d" ∷ []) m)
unfolding main init after_fork destroy after_start same_text
main_fork_fails {os} m exe p n id fails =
    let w₁ = (os.sys getpid m.world).1 in
    let w₂ = (os.sys daemon_retval_init w₁).1 in
    let w₃ = (os.sys daemon_fork w₂).1 in
    let w₄ = (os.sys daemon_retval_done w₃).1 in
    let w₅ = (os.sys (daemon_retval_send 0) w₄).1 in rw (fails w₂, id m.world, id w₅, same p) tt
  where
    same : (q : ℕ) → (q == q) ≡ true
    same q = ground arith
