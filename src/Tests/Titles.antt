-- ===== src/Tests/Titles.antt =====
-- The theorem on the process title, in a space of eight bytes.
use mpic.Prelude.{
  ℕ, ◌+◌, ◌-◌, ◌≡◌, refl, true, false, inl, some, [], ◌∷◌, ◌++◌, bytes, map, get_or, arith,
}
use mpic.Title.{Title, read_str, address_space, env_size, init, set}
use mpic.Title.Writing.{shown, set-shown}
use mpic.Title.Placing.{Outside}
use mpic.Title.Keeping.{set-keeps_environ}
use mpic.Title.Moving.{init-keeps_environ}

abbrev pub before : Title
before = record { mem = λ a. 7; argv = 100 ∷ 104 ∷ []; environ = []; attached = true; g_last = 108 }

set-shown_example :
    (t : Title) × (set (bytes "echo") before ≡ some t)
    × ((a : ℕ) → t.mem a ≡ shown (λ b. 7) 100 108 (bytes "echo") a)
    × (t.g_last ≡ 108)
    × (t.argv ≡ 100 ∷ [])
    × (t.environ ≡ [])
set-shown_example = set-shown (bytes "echo") before 100 (104 ∷ []) refl (omega arith)

-- Two arguments, "a" and "b", at 100, and behind them the environment, "X=1" at 104.
abbrev started : Title
started = record {
  mem = λ a. get_or (bytes "a" ++ 0 ∷ bytes "b" ++ 0 ∷ bytes "X=1") (a - 100) 0;
  argv = 100 ∷ 102 ∷ [];
  environ = 104 ∷ [];
  attached = false;
  g_last = 0;
}

init-keeps_environ_example :
    let r = init 200 started in
    (r.0 ≡ true)
    × (map (read_str address_space r.1.mem) r.1.environ ≡ bytes "X=1" ∷ [])
    × Outside 200 (200 + env_size started) started.mem r.1.mem
init-keeps_environ_example =
    init-keeps_environ 199 started (bytes "X=1" ∷ [])
      ((omega arith, (refl, (refl, (refl, refl))), omega arith, inl (omega arith)), tt)

set-keeps_environ_example :
    (u : Title) × (set (bytes "echo") (init 200 started).1 ≡ some u)
    × (map (read_str address_space u.mem) u.environ ≡ bytes "X=1" ∷ [])
    × (u.g_last ≡ 107)
    × ((a : ℕ) → u.mem a ≡ shown (init 200 started).1.mem 100 107 (bytes "echo") a)
set-keeps_environ_example =
    set-keeps_environ 199 100 started (bytes "a") (bytes "b" ∷ []) (bytes "X=1" ∷ []) (bytes "echo")
      (record {
        args = (
          (omega arith, (refl, refl), omega arith, inl (omega arith)),
          ((omega arith, (refl, refl), omega arith, inl (omega arith)), tt),
        );
        args_adjacent = (refl, (refl, tt));
        env = ((omega arith, (refl, (refl, (refl, refl))), omega arith, inl (omega arith)), tt);
        env_adjacent = (refl, tt);
        apart = inl (omega arith);
      })
