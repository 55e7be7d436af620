-- ===== src/Title/Keeping.antt =====
-- `Title::Init` and then `Title::Set` of mpic/title.cc, where the arguments and the environment lie one
-- string behind the other, as Linux places them.
use mpic.Prelude.{
  ℕ, suc, ◌+◌, ◌-◌, ◌≤◌, ◌<◌, ◌≡◌, ◌⊎◌, inl, inr, refl, sym, ap, subst, ◌∙◌, true, false, some, [],
  ◌∷◌, ◌++◌, List, Bytes, ◌==◌, length, map, arith, if◌then◌else◌,
}
use mathlib.Core.List.{append_assoc, append-nil}
use mpic.Title.{
  Title, Memory, Moved, strlen, read_str, address_space, env_size, walk_env, walk_argv, first, init,
  set,
}
use mpic.Title.Writing.{shown, set-shown}
use mpic.Title.Placing.{AllPlaced, total, Outside, AllPlaced-Outside, strlen-Holds}
use mpic.Title.Moving.{
  Walking, moved, moved-Walking, move_one-moved, walk_env-Walked, sum_sizes-total, read_all,
}

-- The strings stand one behind the other, from `x` on.
abbrev pub Adjacent : ℕ → List ℕ → List Bytes → Type 0
Adjacent x [] [] = Unit {0}
Adjacent x (e ∷ es) (s ∷ ss) = (e ≡ x) × Adjacent (e + (length s + 1)) es ss
Adjacent x _ _ = ⊥

-- Each string, with its NUL, lies between `lo` and `hi`.
abbrev Boxed : ℕ → ℕ → List ℕ → List Bytes → Type 0
Boxed lo hi [] [] = Unit {0}
Boxed lo hi (e ∷ es) (s ∷ ss) = (lo ≤ e) × (e + length s < hi) × Boxed lo hi es ss
Boxed lo hi _ _ = ⊥

Boxed-snoc :
    (lo hi : ℕ) (es : List ℕ) (ss : List Bytes) (e : ℕ) (s : Bytes)
    → Boxed lo hi es ss
    → lo ≤ e
    → e + length s < hi
    → Boxed lo hi (es ++ (e ∷ [])) (ss ++ (s ∷ []))
Boxed-snoc lo hi [] [] e s h l r = (l, r, tt)
Boxed-snoc lo hi (d ∷ es) (t ∷ ss) e s h l r = (h.0, h.1, Boxed-snoc lo hi es ss e s h.2 l r)
Boxed-snoc lo hi [] (t ∷ ss) e s h l r = absurd h
Boxed-snoc lo hi (d ∷ es) [] e s h l r = absurd h

-- `g_last` after the arguments.
walk_argv-Adjacent :
    (lo hi : ℕ) (mem : Memory) (x : ℕ) (es : List ℕ) (ss : List Bytes)
    → AllPlaced lo hi mem es ss
    → Adjacent x es ss
    → walk_argv mem es x ≡ x + total ss
unfolding walk_argv
walk_argv-Adjacent lo hi mem x [] [] h a = omega arith
walk_argv-Adjacent lo hi mem x (e ∷ es) (s ∷ ss) h a =
    let size : strlen mem e ≡ length s = strlen-Holds mem e s h.0.0 h.0.1 h.0.2 in
    let next : (if x == e then e + strlen mem e + 1 else x) ≡ e + (length s + 1) =
      ground (arith, size, a.0) in
    let rest = walk_argv-Adjacent lo hi mem (e + (length s + 1)) es ss h.1 a.1 in
    ap (walk_argv mem es) next ∙ omega (arith, rest, a.0)
walk_argv-Adjacent lo hi mem x [] (s ∷ ss) h a = absurd h
walk_argv-Adjacent lo hi mem x (e ∷ es) [] h a = absurd h

-- Every string of the environment is moved into the block, and `g_last` passes over all of them.
walk_env-Boxed :
    (lo hi : ℕ) (w : Moved) (ts : List Bytes) (es : List ℕ) (ss : List Bytes)
    → Walking lo hi w ts es ss
    → Boxed lo hi w.environ ts
    → Adjacent w.last es ss
    → Boxed lo hi (walk_env w es).environ (ts ++ ss) × ((walk_env w es).last ≡ w.last + total ss)
unfolding walk_env
walk_env-Boxed lo hi w ts [] [] v b a =
    (subst (Boxed lo hi w.environ) (sym (append-nil ts)) b, omega arith)
walk_env-Boxed lo hi w ts (e ∷ es) (s ∷ ss) v b a =
    let follows : (w.last == e) ≡ true = ground (arith, a.0) in
    let r =
      walk_env-Boxed lo hi (moved w e s) (ts ++ (s ∷ [])) es ss
        (moved-Walking lo hi w ts e es s ss v)
        (Boxed-snoc lo hi w.environ ts w.free s b v.used (omega (arith, v.room))) a.1 in
    subst
      (λ x.
        Boxed lo hi (walk_env x es).environ (ts ++ (s ∷ ss))
        × ((walk_env x es).last ≡ w.last + total (s ∷ ss)))
      (sym (move_one-moved lo hi w e s v.waiting.0 follows))
      (
        subst (Boxed lo hi (walk_env (moved w e s) es).environ) (append_assoc ts (s ∷ []) ss) r.0,
        omega (arith, r.1, a.0),
      )
walk_env-Boxed lo hi w ts [] (s ∷ ss) v b a = absurd a
walk_env-Boxed lo hi w ts (e ∷ es) [] v b a = absurd a

-- Strings in a block that lies apart from the title's space lie apart from it.
AllPlaced-Boxed :
    (lo free hi start last : ℕ) (mem : Memory) (es : List ℕ) (ss : List Bytes)
    → (last ≤ lo) ⊎ (hi ≤ start)
    → AllPlaced free hi mem es ss
    → Boxed lo hi es ss
    → AllPlaced start last mem es ss
AllPlaced-Boxed lo free hi start last mem [] [] far h b = tt
AllPlaced-Boxed lo free hi start last mem (e ∷ es) (s ∷ ss) far h b = (
  (
    h.0.0,
    h.0.1,
    h.0.2,
    elim far [ inl f ↦ inr (omega (arith, f, b.0)) | inr f ↦ inl (omega (arith, f, b.1)) ],
  ),
  AllPlaced-Boxed lo free hi start last mem es ss far h.1 b.2,
)
AllPlaced-Boxed lo free hi start last mem [] (s ∷ ss) far h b = absurd h
AllPlaced-Boxed lo free hi start last mem (e ∷ es) [] far h b = absurd h

shown_outside :
    (mem : Memory) (start last : ℕ) (text : Bytes) (a : ℕ)
    → (a < start) ⊎ (last ≤ a)
    → shown mem start last text a ≡ mem a
shown_outside mem start last text a (inl h) = ground (arith, h)
shown_outside mem start last text a (inr h) = ground (arith, h)

-- The state that `Init` leaves, for a block at `suc p` that lies apart from the strings.
module _ (p start : ℕ) (t : Title) (arg : Bytes) (more ss : List Bytes) where
  -- The end of the block, and that of the strings.
  abbrev pub block_end : ℕ
  block_end = suc p + env_size t

  abbrev pub strings_end : ℕ
  strings_end = start + total (arg ∷ more) + total ss

  -- The arguments, and behind them the environment, from `start` on, and the block apart from them.
  pub record LaidOut : Type 0 where
    pub args : AllPlaced (suc p) block_end t.mem t.argv (arg ∷ more)
    pub args_adjacent : Adjacent start t.argv (arg ∷ more)
    pub env : AllPlaced (suc p) block_end t.mem t.environ ss
    pub env_adjacent : Adjacent (start + total (arg ∷ more)) t.environ ss
    pub apart : (strings_end ≤ suc p) ⊎ (block_end ≤ start)

  first_argv :
      (x : ℕ) (es : List ℕ) → Adjacent x es (arg ∷ more) → (rest : List ℕ) × (es ≡ x ∷ rest)
  first_argv x [] a = absurd a
  first_argv x (e ∷ es) a = (es, ap (λ y. y ∷ es) a.0)

  init-LaidOut :
      LaidOut
      → let u = (init (suc p) t).1 in
        AllPlaced start (strings_end - 1) u.mem u.environ ss
        × (u.g_last ≡ strings_end - 1)
        × (u.argv ≡ t.argv)
  unfolding init env_size
  init-LaidOut l =
      let (rest, e) = first_argv start t.argv l.args_adjacent in
      let last : walk_argv t.mem t.argv (first t.argv) ≡ start + total (arg ∷ more) =
        ap (λ es. walk_argv t.mem t.argv (first es)) e
        ∙ walk_argv-Adjacent (suc p) block_end t.mem start t.argv (arg ∷ more) l.args
            l.args_adjacent in
      let w : Moved = record {
        mem = t.mem;
        environ = [];
        last = walk_argv t.mem t.argv (first t.argv);
        free = suc p;
      } in
      let v : Walking (suc p) block_end w [] t.environ ss = record {
        used = omega arith;
        room = omega (arith, sum_sizes-total (suc p) block_end t.mem t.environ ss l.env);
        ready = tt;
        waiting = l.env;
      } in
      let done = walk_env w t.environ in
      let placed = walk_env-Walked (suc p) block_end w [] t.environ ss v in
      let boxed =
        walk_env-Boxed (suc p) block_end w [] t.environ ss v tt
          (subst (λ x. Adjacent x t.environ ss) (sym last) l.env_adjacent) in
      let given : (suc p == 0) ≡ false = ground arith in
      let some_left : (done.last == 0) ≡ false = ground (arith, boxed.1, last) in
      rw (given, some_left)
        (
          AllPlaced-Boxed (suc p) done.free block_end start (strings_end - 1) done.mem done.environ
              ss (elim l.apart [ inl f ↦ inl (omega (arith, f)) | inr f ↦ inr f ]) placed.0 boxed.0,
          omega (arith, boxed.1, last),
          refl,
        )

  -- Where the arguments and, behind them, the environment lie one string behind the other, and the
  -- block that `malloc` gave lies apart from them, a `Set` after `Init` comes back and the
  -- environment still reads as it did before `Init`, string by string. The title has all the room of the
  -- arguments and the environment but one byte.
  pub set-keeps_environ :
      (text : Bytes)
      → LaidOut
      → (u : Title) × (set text (init (suc p) t).1 ≡ some u)
        × (map (read_str address_space u.mem) u.environ ≡ ss)
        × (u.g_last ≡ strings_end - 1)
        × ((a : ℕ) → u.mem a ≡ shown (init (suc p) t).1.mem start (strings_end - 1) text a)
  set-keeps_environ text l =
      let i = (init (suc p) t).1 in
      let (placed, last, argv) = init-LaidOut l in
      let (rest, e) = first_argv start t.argv l.args_adjacent in
      let (u, done, mem, g, _, env) =
        set-shown text i start rest (argv ∙ e) (omega (arith, last)) in
      let seen : (a : ℕ) → u.mem a ≡ shown i.mem start (strings_end - 1) text a =
        λ a. mem a ∙ ap (λ g. shown i.mem start g text a) last in
      let kept : Outside start (strings_end - 1) i.mem u.mem =
        λ a out. seen a ∙ shown_outside i.mem start (strings_end - 1) text a out in
      (
        u,
        done,
        ap (map (read_str address_space u.mem)) env
            ∙ read_all start (strings_end - 1) u.mem i.environ ss (
                AllPlaced-Outside start start (strings_end - 1) i.mem u.mem i.environ ss kept
                  (omega arith) placed),
        g ∙ last,
        seen,
      )
