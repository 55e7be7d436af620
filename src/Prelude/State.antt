-- ===== src/Prelude/State.antt =====
-- A C++ routine as a function of a state: it returns, or the process ends on the way.
use mathlib.Core.Path.{◌≡◌, refl}
use mathlib.Core.Bool.{Bool, true, false}
use mpic.Prelude.Tests.{if◌then◌else◌}
use mpic.Prelude.Int.{ℤ}

-- `exited` is a call of `exit`, `aborted` a failed assertion, a fatal log line, a read through NULL
-- or an exception that nothing catches, and `unfinished` a loop whose rounds were used up.
pub data Outcome (A S : Type 0) : Type 0 where
  returned : A → S → Outcome A S
  exited : ℤ → S → Outcome A S
  aborted : S → Outcome A S
  unfinished : S → Outcome A S

module _ {S : Type 0} where
  abbrev pub pure : {A : Type 0} → A → S → Outcome A S
  pure a s = returned a s

  abbrev pub abort : {A : Type 0} → S → Outcome A S
  abort s = aborted s

  abbrev pub and_then : {A B : Type 0} → Outcome A S → (A → S → Outcome B S) → Outcome B S
  and_then (returned a s) f = f a s
  and_then (exited c s) f = exited c s
  and_then (aborted s) f = aborted s
  and_then (unfinished s) f = unfinished s

  pub and_then_ext :
      {A B : Type 0} (o : Outcome A S) (f g : A → S → Outcome B S)
      → ((a : A) (s : S) → f a s ≡ g a s)
      → and_then o f ≡ and_then o g
  and_then_ext (returned a s) f g e = e a s
  and_then_ext (exited c s) f g e = refl
  and_then_ext (aborted s) f g e = refl
  and_then_ext (unfinished s) f g e = refl

  infixl 5 ◌>>=◌ ◌>>◌
  abbrev pub ◌>>=◌ : {A B : Type 0} → (S → Outcome A S) → (A → S → Outcome B S) → S → Outcome B S
  ◌>>=◌ m f s = and_then (m s) f

  abbrev pub ◌>>◌ : {A B : Type 0} → (S → Outcome A S) → (S → Outcome B S) → S → Outcome B S
  ◌>>◌ m n s = and_then (m s) (λ _. n)

  abbrev pub modify : (S → S) → S → Outcome (Unit {0}) S
  modify f s = returned tt (f s)

  -- The routine comes back, with a value and a state of which `P` holds.
  abbrev pub Returns : {A : Type 0} → (A → S → Type 0) → Outcome A S → Type 0
  Returns P (returned a s) = P a s
  Returns P (exited c s) = ⊥
  Returns P (aborted s) = ⊥
  Returns P (unfinished s) = ⊥

  -- `P` holds of the state that the routine leaves, however it ends.
  abbrev pub Leaves : {A : Type 0} → (S → Type 0) → Outcome A S → Type 0
  Leaves P (returned a s) = P s
  Leaves P (exited c s) = P s
  Leaves P (aborted s) = P s
  Leaves P (unfinished s) = P s

  pub Returns-and_then :
      {A B : Type 0} (P : A → S → Type 0) (Q : B → S → Type 0) (o : Outcome A S)
      (f : A → S → Outcome B S)
      → Returns P o
      → ((a : A) (s : S) → P a s → Returns Q (f a s))
      → Returns Q (and_then o f)
  Returns-and_then P Q (returned a s) f p q = q a s p
  Returns-and_then P Q (exited c s) f p q = absurd p
  Returns-and_then P Q (aborted s) f p q = absurd p
  Returns-and_then P Q (unfinished s) f p q = absurd p

  -- The process exits with this number, in a state of which `P` holds.
  abbrev pub Exits : {A : Type 0} → ℤ → (S → Type 0) → Outcome A S → Type 0
  Exits code P (returned a s) = ⊥
  Exits code P (exited c s) = (c ≡ code) × P s
  Exits code P (aborted s) = ⊥
  Exits code P (unfinished s) = ⊥

  pub Exits-and_then :
      {A B : Type 0} (code : ℤ) (P : S → Type 0) (o : Outcome A S) (f : A → S → Outcome B S)
      → Exits code P o
      → Exits code P (and_then o f)
  Exits-and_then code P (returned a s) f h = absurd h
  Exits-and_then code P (exited c s) f h = h
  Exits-and_then code P (aborted s) f h = h
  Exits-and_then code P (unfinished s) f h = h

  -- A routine's result, passed on to `exit`.
  pub Exits-Returns :
      (A : Type 0) (code : ℤ) (P : ℤ → S → Type 0) (Q : S → Type 0) (o : Outcome ℤ S)
      → Returns P o
      → ((c : ℤ) (s : S) → P c s → (c ≡ code) × Q s)
      → Exits {A = A} code Q (and_then o exited)
  Exits-Returns A code P Q (returned a s) p q = q a s p
  Exits-Returns A code P Q (exited c s) p q = absurd p
  Exits-Returns A code P Q (aborted s) p q = absurd p
  Exits-Returns A code P Q (unfinished s) p q = absurd p

  pub Exits-mono :
      {A : Type 0} (code : ℤ) (P Q : S → Type 0) (o : Outcome A S)
      → Exits code P o
      → ((s : S) → P s → Q s)
      → Exits code Q o
  Exits-mono code P Q (returned a s) h q = h
  Exits-mono code P Q (exited c s) h q = (h.0, q s h.1)
  Exits-mono code P Q (aborted s) h q = h
  Exits-mono code P Q (unfinished s) h q = h

  pub Leaves-and_then :
      {A B : Type 0} (P : S → Type 0) (o : Outcome A S) (f : A → S → Outcome B S)
      → Leaves P o
      → ((a : A) (s : S) → P s → Leaves P (f a s))
      → Leaves P (and_then o f)
  Leaves-and_then P (returned a s) f p q = q a s p
  Leaves-and_then P (exited c s) f p q = p
  Leaves-and_then P (aborted s) f p q = p
  Leaves-and_then P (unfinished s) f p q = p

  pub Returns-mono :
      {A : Type 0} (P Q : A → S → Type 0) (o : Outcome A S)
      → Returns P o
      → ((a : A) (s : S) → P a s → Q a s)
      → Returns Q o
  Returns-mono P Q (returned a s) p q = q a s p
  Returns-mono P Q (exited c s) p q = p
  Returns-mono P Q (aborted s) p q = p
  Returns-mono P Q (unfinished s) p q = p

  pub Returns-and :
      {A : Type 0} (P Q : A → S → Type 0) (o : Outcome A S)
      → Returns P o
      → Returns Q o
      → Returns (λ a s. P a s × Q a s) o
  Returns-and P Q (returned a s) p q = (p, q)
  Returns-and P Q (exited c s) p q = p
  Returns-and P Q (aborted s) p q = p
  Returns-and P Q (unfinished s) p q = p

  pub Returns-Leaves :
      {A : Type 0} (P : A → S → Type 0) (Q : S → Type 0) (o : Outcome A S)
      → Returns P o
      → Leaves Q o
      → Returns (λ a s. P a s × Q s) o
  Returns-Leaves P Q (returned a s) p q = (p, q)
  Returns-Leaves P Q (exited c s) p q = p
  Returns-Leaves P Q (aborted s) p q = p
  Returns-Leaves P Q (unfinished s) p q = p

  pub Leaves-mono :
      {A : Type 0} (P Q : S → Type 0) (o : Outcome A S)
      → Leaves P o
      → ((s : S) → P s → Q s)
      → Leaves Q o
  Leaves-mono P Q (returned a s) p q = q s p
  Leaves-mono P Q (exited c s) p q = q s p
  Leaves-mono P Q (aborted s) p q = q s p
  Leaves-mono P Q (unfinished s) p q = q s p

  -- The branches of a test.
  pub Returns-then :
      {A : Type 0} (P : A → S → Type 0) (b : Bool) (o p : Outcome A S)
      → b ≡ true
      → Returns P o
      → Returns P (if b then o else p)
  Returns-then P true o p e r = r
  Returns-then P false o p e r = cc

  pub Returns-otherwise :
      {A : Type 0} (P : A → S → Type 0) (b : Bool) (o p : Outcome A S)
      → b ≡ false
      → Returns P p
      → Returns P (if b then o else p)
  Returns-otherwise P true o p e r = cc
  Returns-otherwise P false o p e r = r

-- The same outcome, seen in another state.
abbrev pub map_state : {A S T : Type 0} → (S → T) → Outcome A S → Outcome A T
map_state h (returned a s) = returned a (h s)
map_state h (exited c s) = exited c (h s)
map_state h (aborted s) = aborted (h s)
map_state h (unfinished s) = unfinished (h s)

pub map_state-and_then :
    {A B S T : Type 0} (h : S → T) (o : Outcome A S) (f : A → S → Outcome B S)
    (g : A → T → Outcome B T)
    → ((a : A) (s : S) → g a (h s) ≡ map_state h (f a s))
    → and_then (map_state h o) g ≡ map_state h (and_then o f)
map_state-and_then h (returned a s) f g e = e a s
map_state-and_then h (exited c s) f g e = refl
map_state-and_then h (aborted s) f g e = refl
map_state-and_then h (unfinished s) f g e = refl

pub Returns-map_state :
    {A S T : Type 0} (P : A → S → Type 0) (Q : A → T → Type 0) (h : S → T) (o : Outcome A S)
    → Returns P o
    → ((a : A) (s : S) → P a s → Q a (h s))
    → Returns Q (map_state h o)
Returns-map_state P Q h (returned a s) p f = f a s p
Returns-map_state P Q h (exited c s) p f = p
Returns-map_state P Q h (aborted s) p f = p
Returns-map_state P Q h (unfinished s) p f = p

pub then_branch :
    {A S : Type 0} (b : Bool) (f g : S → Outcome A S) (s : S)
    → b ≡ true
    → (if b then f else g) s ≡ f s
then_branch true f g s e = refl
then_branch false f g s e = cc

-- The branch of a test that fails.
pub Returns-else :
    {A S : Type 0} (P : A → S → Type 0) (b : Bool) (f g : S → Outcome A S) (s : S)
    → b ≡ false
    → Returns P (g s)
    → Returns P ((if b then f else g) s)
Returns-else P true f g s e p = cc
Returns-else P false f g s e p = p

-- A routine that comes back does so with some value and state.
pub returned_with :
    {A S : Type 0} (P : A → S → Type 0) (o : Outcome A S)
    → Returns P o
    → (a : A) × (t : S) × (o ≡ returned a t) × P a t
returned_with P (returned a t) h = (a, t, refl, h)
returned_with P (exited c t) h = absurd h
returned_with P (aborted t) h = absurd h
returned_with P (unfinished t) h = absurd h
