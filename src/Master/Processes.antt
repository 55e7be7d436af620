-- ===== src/Master/Processes.antt =====
-- `Process` and `ProcessMap` of mpic/master.h. A `std::map` is its entries in ascending order of
-- their keys; the keys are process ids, which the code inserts only if they are positive.
use mpic.Prelude.{
  ℕ, zero, suc, ◌≤◌, ◌<◌, ◌≡◌, refl, Bool, true, false, ◌&&◌, ◌||◌, not, List, [], ◌∷◌, arith, ltb,
  ◌==◌, if◌then◌else◌, length,
}

pub record Process : Type 0 where
  pub pid : ℕ

abbrev pub ProcessMap : Type 0
ProcessMap = List (ℕ × Process)

-- `m.find(pid) != m.end()`
unfoldable pub has : ProcessMap → ℕ → Bool
has [] p = false
has ((k, _) ∷ m) p = p == k || has m p

-- `m[pid] = e`
unfoldable pub insert : ℕ → Process → ProcessMap → ProcessMap
insert p e [] = (p, e) ∷ []
insert p e ((k, v) ∷ m) =
    let rest = insert p e m in
    if ltb p k then (p, e) ∷ (k, v) ∷ m else if p == k then (k, e) ∷ m else (k, v) ∷ rest

-- `m.erase(pid)`
unfoldable pub erase : ℕ → ProcessMap → ProcessMap
erase p [] = []
erase p ((k, v) ∷ m) = let rest = erase p m in if p == k then m else (k, v) ∷ rest

-- The keys ascend, and all are above `n`.
abbrev pub Above : ℕ → ProcessMap → Type 0
Above n [] = Unit {0}
Above n ((k, _) ∷ m) = (n < k) × Above k m

-- A `std::map` in order, of positive keys.
abbrev pub IsMap : ProcessMap → Type 0
IsMap m = Above 0 m

pub has-insert :
    (p : ℕ) (e : Process) (m : ProcessMap) (q : ℕ) → has (insert p e m) q ≡ (q == p || has m q)
unfolding has insert
has-insert p e [] q = refl
has-insert p e (_ ∷ m) q = ground (arith, has-insert p e m q)

pub has-eq-false : (n : ℕ) (m : ProcessMap) (q : ℕ) → q ≤ n → Above n m → has m q ≡ false
unfolding has
has-eq-false n [] q h a = refl
has-eq-false n ((k, _) ∷ m) q h a = ground (arith, has-eq-false k m q)

pub has-erase :
    (n p : ℕ) (m : ProcessMap) (q : ℕ) → Above n m → has (erase p m) q ≡ (not (q == p) && has m q)
unfolding has erase
has-erase n p [] q a = ground arith
has-erase n p ((k, _) ∷ m) q a = ground (arith, has-erase k p m q a.1, has-eq-false k m q)

Above-mono : (a b : ℕ) (m : ProcessMap) → a ≤ b → Above b m → Above a m
Above-mono a b [] h r = tt
Above-mono a b (_ ∷ m) h r = (omega arith, r.1)

pub insert-Above :
    (n p : ℕ) (e : Process) (m : ProcessMap) → n < p → Above n m → Above n (insert p e m)
unfolding insert
insert-Above n p e [] h a = (h, tt)
insert-Above n p e ((k, _) ∷ m) h a = ground (arith, insert-Above k p e m)

pub erase-Above : (n p : ℕ) (m : ProcessMap) → Above n m → Above n (erase p m)
unfolding erase
erase-Above n p [] a = tt
erase-Above n p ((k, _) ∷ m) a = ground (arith, erase-Above k p m a.1, Above-mono n k m)

pub length-insert :
    (p : ℕ) (e : Process) (m : ProcessMap)
    → has m p ≡ false
    → length (insert p e m) ≡ suc (length m)
unfolding has insert
length-insert p e [] h = refl
length-insert p e ((k, _) ∷ m) h = ground (arith, length-insert p e m)

pub length-erase : (p : ℕ) (m : ProcessMap) → has m p ≡ true → suc (length (erase p m)) ≡ length m
unfolding has erase
length-erase p [] h = cc
length-erase p ((k, _) ∷ m) h = ground (arith, length-erase p m)

pub length-insert-le : (p : ℕ) (e : Process) (m : ProcessMap) → suc zero ≤ length (insert p e m)
unfolding insert
length-insert-le p e [] = omega arith
length-insert-le p e ((k, _) ∷ m) = ground arith
