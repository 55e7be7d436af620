-- ===== src/Title/Moving.antt =====
-- What `Title::Init` of mpic/title.cc does to the environment: strings that follow the arguments
-- are moved to the block that `malloc` gave.
use mpic.Prelude.{
  ℕ, suc, ◌+◌, ◌-◌, ◌≤◌, ◌<◌, ◌≡◌, ◌⊎◌, inl, inr, refl, sym, subst, ◌∙◌, true, false, [], ◌∷◌, ◌++◌,
  List, Bytes, ◌==◌, length, map, arith, Bool-cases,
}
use mathlib.Core.List.{append_assoc, append-nil}
use mpic.Title.{
  Title, Memory, Moved, read_str, address_space, write, padded, sum_sizes, env_size, move_one,
  walk_env, walk_argv, first, init,
}
use mpic.Title.Writing.{length-padded, get_or-filled}
use mpic.Title.Reading.{Holds, Holds-of, read_str-Holds}
use mpic.Title.Placing.{
  Placed, AllPlaced, total, Outside, write-Outside, write_at, Placed-Outside, AllPlaced-Outside,
  AllPlaced-snoc, strlen-Holds,
}

-- A copy of `s` with its NUL.
pub copied : Memory → ℕ → Bytes → Memory
copied mem p s = write mem p (padded (length s + 1) s)

copied-Holds : (mem : Memory) (p : ℕ) (s : Bytes) → Holds (copied mem p s) p s
unfolding copied
copied-Holds mem p s = Holds-of (copied mem p s) p s (λ i l.
    write_at mem p (padded (length s + 1) s) i (omega (arith, length-padded (length s + 1) s))
    ∙ get_or-filled (length s + 1) (length s + 1 - length s) s i (omega arith))

copied-Outside :
    (mem : Memory) (p hi : ℕ) (s : Bytes)
    → p + length s + 1 ≤ hi
    → Outside p hi mem (copied mem p s)
unfolding copied
copied-Outside mem p hi s l a (inl h) = write-Outside mem p (padded (length s + 1) s) a (inl h)
copied-Outside mem p hi s l a (inr h) =
    write-Outside mem p (padded (length s + 1) s) a
      (inr (omega (arith, length-padded (length s + 1) s)))

Outside-trans :
    (lo lo' hi : ℕ) (m m' m'' : Memory)
    → lo ≤ lo'
    → Outside lo' hi m m'
    → Outside lo hi m' m''
    → Outside lo hi m m''
Outside-trans lo lo' hi m m' m'' l p q a (inl h) = q a (inl h) ∙ p a (inl (omega arith))
Outside-trans lo lo' hi m m' m'' l p q a (inr h) = q a (inr h) ∙ p a (inr h)

-- The loop over the environment, with the strings `ts` done and `ss` to do, in a block from `lo` to
-- `hi` of which the part below `free` is used.
pub record Walking (lo hi : ℕ) (w : Moved) (ts : List Bytes) (es : List ℕ) (ss : List Bytes)
    : Type 0 where
  pub used : lo ≤ w.free
  pub room : w.free + total ss ≤ hi
  pub ready : AllPlaced w.free hi w.mem w.environ ts
  pub waiting : AllPlaced lo hi w.mem es ss

-- What the loop leaves.
abbrev pub Walked : ℕ → ℕ → Memory → Moved → List Bytes → Type 0
Walked lo hi mem w ss = AllPlaced w.free hi w.mem w.environ ss × Outside lo hi mem w.mem

-- The state after a string `s` at `e` that is moved, and after one that is not.
abbrev pub moved : Moved → ℕ → Bytes → Moved
moved w e s = record {
  mem = copied w.mem w.free s;
  environ = w.environ ++ (w.free ∷ []);
  last = e + (length s + 1);
  free = w.free + (length s + 1);
}

abbrev kept : Moved → ℕ → Moved
kept w e = record w { environ = w.environ ++ (e ∷ []) }

pub moved-Walking :
    (lo hi : ℕ) (w : Moved) (ts : List Bytes) (e : ℕ) (es : List ℕ) (s : Bytes) (ss : List Bytes)
    → Walking lo hi w ts (e ∷ es) (s ∷ ss)
    → Walking lo hi (moved w e s) (ts ++ s ∷ []) es ss
moved-Walking lo hi w ts e es s ss v = record {
  used = omega (arith, v.used);
  room = omega (arith, v.room);
  ready =
      AllPlaced-snoc (w.free + (length s + 1)) hi (copied w.mem w.free s) w.environ ts w.free s
        (AllPlaced-Outside w.free (w.free + (length s + 1)) hi w.mem (copied w.mem w.free s)
          w.environ ts (copied-Outside w.mem w.free hi s (omega (arith, v.room))) (omega arith)
          v.ready)
        (v.waiting.0.0, copied-Holds w.mem w.free s, v.waiting.0.2, inl (omega arith));
  waiting =
      AllPlaced-Outside lo lo hi w.mem (copied w.mem w.free s) es ss
        (λ a h. copied-Outside w.mem w.free hi s (omega (arith, v.room)) a (above a h))
        (omega arith) v.waiting.1;
}
  where
    above : (a : ℕ) → (a < lo) ⊎ (hi ≤ a) → (a < w.free) ⊎ (hi ≤ a)
    above a (inl h) = inl (omega (arith, v.used))
    above a (inr h) = inr h

kept-Walking :
    (lo hi : ℕ) (w : Moved) (ts : List Bytes) (e : ℕ) (es : List ℕ) (s : Bytes) (ss : List Bytes)
    → Walking lo hi w ts (e ∷ es) (s ∷ ss)
    → Walking lo hi (kept w e) (ts ++ s ∷ []) es ss
kept-Walking lo hi w ts e es s ss v = record {
  used = v.used;
  room = omega (arith, v.room);
  ready =
      AllPlaced-snoc w.free hi w.mem w.environ ts e s v.ready
        (Placed-Outside lo w.free hi w.mem w.mem e s (λ a h. refl) v.used v.waiting.0);
  waiting = v.waiting.1;
}

-- A round, by whether the string follows the one before it.
pub move_one-moved :
    (lo hi : ℕ) (w : Moved) (e : ℕ) (s : Bytes)
    → Placed lo hi w.mem e s
    → (w.last == e) ≡ true
    → move_one w e ≡ moved w e s
unfolding move_one copied
move_one-moved lo hi w e s (t, h, small, out) next =
    rw (next, strlen-Holds w.mem e s t h small, read_str-Holds address_space w.mem e s t h small)
      refl

move_one-kept : (w : Moved) (e : ℕ) → (w.last == e) ≡ false → move_one w e ≡ kept w e
unfolding move_one
move_one-kept w e other = rw other refl

pub walk_env-Walked :
    (lo hi : ℕ) (w : Moved) (ts : List Bytes) (es : List ℕ) (ss : List Bytes)
    → Walking lo hi w ts es ss
    → Walked lo hi w.mem (walk_env w es) (ts ++ ss)
unfolding walk_env
walk_env-Walked lo hi w ts [] [] v =
    (subst (AllPlaced w.free hi w.mem w.environ) (sym (append-nil ts)) v.ready, λ a h. refl)
walk_env-Walked lo hi w ts (e ∷ es) (s ∷ ss) v = elim (Bool-cases (w.last == e)) [
  | inl next ↦
      let r =
        walk_env-Walked lo hi (moved w e s) (ts ++ s ∷ []) es ss
          (moved-Walking lo hi w ts e es s ss v) in
      subst (λ x. Walked lo hi w.mem (walk_env x es) (ts ++ s ∷ ss))
        (sym (move_one-moved lo hi w e s v.waiting.0 next))
        (
          subst
              (AllPlaced (walk_env (moved w e s) es).free hi (walk_env (moved w e s) es).mem
                (walk_env (moved w e s) es).environ)
              (append_assoc ts (s ∷ []) ss) r.0,
          Outside-trans lo w.free hi w.mem (copied w.mem w.free s) (walk_env (moved w e s) es).mem
              v.used (copied-Outside w.mem w.free hi s (omega (arith, v.room))) r.1,
        )
  | inr other ↦
      let r =
        walk_env-Walked lo hi (kept w e) (ts ++ s ∷ []) es ss
          (kept-Walking lo hi w ts e es s ss v) in
      subst (λ x. Walked lo hi w.mem (walk_env x es) (ts ++ s ∷ ss)) (sym (move_one-kept w e other))
        (
          subst
              (AllPlaced (walk_env (kept w e) es).free hi (walk_env (kept w e) es).mem
                (walk_env (kept w e) es).environ)
              (append_assoc ts (s ∷ []) ss) r.0,
          r.1,
        )
]
walk_env-Walked lo hi w ts [] (s ∷ ss) v = absurd v.waiting
walk_env-Walked lo hi w ts (e ∷ es) [] v = absurd v.waiting

pub sum_sizes-total :
    (lo hi : ℕ) (mem : Memory) (es : List ℕ) (ss : List Bytes)
    → AllPlaced lo hi mem es ss
    → sum_sizes mem es ≡ total ss
unfolding sum_sizes
sum_sizes-total lo hi mem [] [] h = refl
sum_sizes-total lo hi mem (e ∷ es) (s ∷ ss) h =
    omega (arith, strlen-Holds mem e s h.0.0 h.0.1 h.0.2, sum_sizes-total lo hi mem es ss h.1)
sum_sizes-total lo hi mem [] (s ∷ ss) h = absurd h
sum_sizes-total lo hi mem (e ∷ es) [] h = absurd h

pub read_all :
    (lo hi : ℕ) (mem : Memory) (es : List ℕ) (ss : List Bytes)
    → AllPlaced lo hi mem es ss
    → map (read_str address_space mem) es ≡ ss
read_all lo hi mem [] [] h = refl
read_all lo hi mem (e ∷ es) (s ∷ ss) h =
    rw (read_str-Holds address_space mem e s h.0.0 h.0.1 h.0.2, read_all lo hi mem es ss h.1) refl
read_all lo hi mem [] (s ∷ ss) h = absurd h
read_all lo hi mem (e ∷ es) [] h = absurd h

-- If `malloc` gave a block of the size that `Init` asked for, and the strings of the environment lie
-- outside it, `Init` returns true. The environment then reads as it did before, string by string,
-- wherever its strings stand now, and all memory outside the block is as it was.
pub init-keeps_environ :
    (p : ℕ) (t : Title) (ss : List Bytes)
    → AllPlaced (suc p) (suc p + env_size t) t.mem t.environ ss
    → let r = init (suc p) t in
      (r.0 ≡ true)
      × (map (read_str address_space r.1.mem) r.1.environ ≡ ss)
      × Outside (suc p) (suc p + env_size t) t.mem r.1.mem
unfolding init env_size
init-keeps_environ p t ss placed =
    let w : Moved = record {
      mem = t.mem;
      environ = [];
      last = walk_argv t.mem t.argv (first t.argv);
      free = suc p;
    } in
    let hi = suc p + sum_sizes t.mem t.environ in
    let r = walk_env-Walked (suc p) hi w [] t.environ ss (record {
      used = omega arith;
      room = omega (arith, sum_sizes-total (suc p) hi t.mem t.environ ss placed);
      ready = tt;
      waiting = placed;
    }) in
    let done = walk_env w t.environ in
    let given : (suc p == 0) ≡ false = ground arith in
    rw given (refl, read_all done.free hi done.mem done.environ ss r.0, r.1)
