-- ===== src/Master/Loader/Holding.antt =====
-- What the steps of `LoadModule` of mpic/master.cc rely on, and what they leave alone.
use mpic.Prelude.{
  ℕ, suc, ◌≡◌, ◌⊎◌, refl, sym, ap, ◌∙◌, Bool, true, false, not, ◌&&◌, Option, none, some, List, [],
  ◌∷◌, ◌++◌, pos, ℤ, Bytes, is_zero, arith,
}
use mathlib.Core.List.{append_assoc, append-nil}
use mpic.Prelude.State.{◌>>=◌, Returns, Returns-and_then, Returns-mono}
use mpic.Os.{Os, dlclose, new_object, set_resource, uninit}
use mpic.Os.Machine.{Event, called}
use mpic.Master.{State, Routine}
use mpic.DynLib.{DynLib}

-- What is relied on: after a call of the dynamic loader that fails `dlerror` has a text, a factory
-- throws or gives an object, and `SetResource` and `Uninit` throw nothing.
pub record Fair (os : Os) : Type 0 where
  pub open_text :
      (path : Bytes) (w : os.World)
      → (os.dlopen path w).0 ≡ 0
      → (text : Bytes) × ((os.dlerror (os.dlopen path w).1).0 ≡ some text)
  pub symbol_text :
      (h : ℕ) (name : Bytes) (w : os.World)
      → (os.dlsym h name w).0 ≡ 0
      → (text : Bytes) × ((os.dlerror (os.dlsym h name w).1).0 ≡ some text)
  pub close_text :
      (h : ℕ) (w : os.World)
      → is_zero (os.sys (dlclose h) w).0 ≡ false
      → (text : Bytes) × ((os.dlerror (os.sys (dlclose h) w).1).0 ≡ some text)
  pub makes :
      (p : ℕ) (w : os.World)
      → ((os.method (new_object p) w).0 ≡ none)
        ⊎ ((a : ℕ) × ((os.method (new_object p) w).0 ≡ some (pos (suc a))))
  pub takes : (a r : ℕ) (w : os.World) → (c : ℤ) × ((os.method (set_resource a r) w).0 ≡ some c)
  pub ends : (a : ℕ) (w : os.World) → (c : ℤ) × ((os.method (uninit a) w).0 ≡ some c)

abbrev is_close : Event → Bool
is_close (called (dlclose h)) = true
is_close _ = false

-- No library is closed.
abbrev pub none_closed : List Event → Bool
none_closed [] = true
none_closed (e ∷ es) = not (is_close e) && none_closed es

pub none_closed-append :
    (es fs : List Event)
    → none_closed es ≡ true
    → none_closed fs ≡ true
    → none_closed (es ++ fs) ≡ true
none_closed-append [] fs h k = k
none_closed-append (e ∷ es) fs h k = ground (arith, none_closed-append es fs)

-- The handle that is open, 0 if there is none.
abbrev pub handle_of : Option DynLib → ℕ
handle_of none = 0
handle_of (some l) = l.handler

module _ {os : Os} where
  -- From one state to another: nothing was closed, and maps and handle are as they were.
  pub record Held (s u : State os) : Type 0 where
    pub made : List Event
    pub events : u.machine.events ≡ s.machine.events ++ made
    pub kept_open : none_closed made ≡ true
    pub handle : handle_of u.dlmodule ≡ handle_of s.dlmodule
    pub running : u.running ≡ s.running
    pub exiting : u.exiting ≡ s.exiting

  pub Held-refl : (s : State os) → Held s s
  Held-refl s = record {
    made = [];
    events = sym (append-nil s.machine.events);
    kept_open = refl;
    handle = refl;
    running = refl;
    exiting = refl;
  }

  pub Held-trans : {s t u : State os} → Held s t → Held t u → Held s u
  Held-trans {s} a b = record {
    made = a.made ++ b.made;
    events =
        b.events ∙ (ap (λ es. es ++ b.made) a.events ∙ append_assoc s.machine.events a.made b.made);
    kept_open = none_closed-append a.made b.made a.kept_open b.kept_open;
    handle = b.handle ∙ a.handle;
    running = b.running ∙ a.running;
    exiting = b.exiting ∙ a.exiting;
  }

  -- A step of the machine that makes one call, which closes nothing.
  pub step-Held :
      (s : State os) (w : os.World) (e : Event)
      → is_close e ≡ false
      → Held s (record s {
        machine = record s.machine { world = w; events = s.machine.events ++ e ∷ [] };
      })
  step-Held s w e h = record {
    made = e ∷ [];
    events = refl;
    kept_open = rw h refl;
    handle = refl;
    running = refl;
    exiting = refl;
  }

  -- A routine that comes back so.
  abbrev pub Holds : {A : Type 0} → Routine os A → Type 0
  Holds {A} f = (s : State os) → Returns {A = A} (λ _ u. Held s u) (f s)

  pub Holds-then :
      {A B : Type 0} (f : Routine os A) (g : A → Routine os B)
      → Holds f
      → ((a : A) → Holds (g a))
      → Holds (f >>= g)
  Holds-then f g h k s =
      Returns-and_then (λ _ u. Held s u) (λ _ u. Held s u) (f s) g (h s)
        (λ a t e.
          Returns-mono (λ _ u. Held t u) (λ _ u. Held s u) (g a t) (k a t)
            (λ b u e'. Held-trans e e'))
