-- ===== src/Master/Loader/Cleaning.antt =====
-- `LoadModule` and then `UnloadModule` of mpic/master.cc, however far the first one comes.
use mpic.Prelude.{
  ℕ, zero, suc, ◌≡◌, refl, sym, ap, subst, ◌∙◌, Bool, true, false, Option, none, some, List, [],
  ◌∷◌, ◌++◌, is_zero, if◌then◌else◌, Bool-cases, inl, inr,
}
use mathlib.Core.List.{append_assoc, append-nil}
use mpic.Prelude.State.{Returns, Returns-and_then, Returns-mono}
use mpic.Os.{Os, dlclose, uninit}
use mpic.Os.Machine.{Machine, Event, called, invoked}
use mpic.DynLib.{DynLib, is_null, unload, get_error}
use mpic.Master.{State, lift}
use mpic.Master.Lifting.{lift-Returns}
use mpic.Master.Loader.{load_module, close_library, unload_module_by, unload_module}
use mpic.Master.Loader.Lifecycle.{load_unload}
use mpic.Master.Loader.Trying.{Tried, found, opened_handle, left_open, load_module-Tried}
use mpic.Master.Loader.Holding.{Fair, none_closed, none_closed-append, handle_of}

is_null-zero : (p : ℕ) → is_null p ≡ true → p ≡ 0
is_null-zero zero h = refl
is_null-zero (suc p) h = cc

-- What `Unload` of a library calls: nothing if it is not loaded.
abbrev closing : ℕ → List Event
closing h = if is_null h then [] else called (dlclose h) ∷ []

module _ {os : Os} where
  -- The library is gone, and what closed it was the last call.
  abbrev ClosedAfter : ℕ → State os → Unit {0} → State os → Type 0
  ClosedAfter h s _ t =
      (t.machine.events ≡ s.machine.events ++ closing h)
      × (t.dlmodule ≡ none)
      × (t.module_ptr ≡ s.module_ptr)
      × (t.resource ≡ s.resource)
      × (t.running ≡ s.running)
      × (t.exiting ≡ s.exiting)

  -- What is left after `LoadModule` and `UnloadModule`: `made` is what they called before the last
  -- step, which closes the handle that `LoadModule` left, if there is one.
  pub record Cleaned (s : State os) (ok : Bool) (t : State os) : Type 0 where
    pub made : List Event
    pub events : t.machine.events ≡ s.machine.events ++ (made ++ closing (left_open s))
    pub kept_open : none_closed made ≡ true
    pub closed :
        ok ≡ true
        → (t.machine.events ≡ s.machine.events ++ (made ++ called (dlclose (opened_handle s)) ∷ []))
          × (is_null (opened_handle s) ≡ false)
    pub module_ptr : t.module_ptr ≡ 0
    pub resource : t.resource ≡ 0
    pub dlmodule : t.dlmodule ≡ none
    pub running : t.running ≡ s.running
    pub exiting : t.exiting ≡ s.exiting

  -- A handle that `dlopen` gave is closed.
  closing_opened :
      (s : State os)
      → (found s ≡ true) × (is_null (left_open s) ≡ false)
      → (closing (left_open s) ≡ called (dlclose (opened_handle s)) ∷ [])
        × (is_null (opened_handle s) ≡ false)
  closing_opened s (f, n) =
      let e : left_open s ≡ opened_handle s = rw f refl in
      let m : is_null (opened_handle s) ≡ false = subst (λ h. is_null h ≡ false) e n in
      (rw (n, e) refl, m)

module _ {os : Os} (F : Fair os) where
  unload-closing :
      (h : ℕ) (l : DynLib) (m : Machine os)
      → Returns (λ _ n. n.events ≡ m.events ++ closing h) (unload os (record l { handler = h }) m)
  unfolding unload get_error
  unload-closing zero l m = sym (append-nil m.events)
  unload-closing (suc h) l m = elim (Bool-cases (is_zero (os.sys (dlclose (suc h)) m.world).0)) [
    | inl f ↦ rw f refl
    | inr f ↦ let (text, g) = F.close_text (suc h) m.world f in rw (f, g) refl
  ]

  close_library-ClosedAfter :
      (o : Option DynLib) (s : State os)
      → s.dlmodule ≡ o
      → Returns (ClosedAfter (handle_of o) s) (close_library os (unload os) o s)
  unfolding close_library
  close_library-ClosedAfter none s e =
      (sym (append-nil s.machine.events), e, refl, refl, refl, refl)
  close_library-ClosedAfter (some l) s e =
      Returns-and_then _ (ClosedAfter l.handler s) (lift os (unload os l) s) _
        (lift-Returns (λ _ n. n.events ≡ s.machine.events ++ closing l.handler) (unload os l) s
          (unload-closing l.handler l s.machine))
        (λ r u (n, f, a).
          subst (λ v. ClosedAfter l.handler s tt (record v { dlmodule = none })) (sym f)
            (a, refl, refl, refl, refl, refl))

  -- The last step, from a state that has told the module.
  close_part :
      (s u v : State os) (ok : Bool) (told : List Event) (a : Tried s (left_open s) (found s) ok u)
      → v.machine.events ≡ u.machine.events ++ told
      → none_closed told ≡ true
      → (v.module_ptr ≡ 0)
        × (v.resource ≡ 0)
        × (v.dlmodule ≡ u.dlmodule)
        × (v.running ≡ u.running)
        × (v.exiting ≡ u.exiting)
      → Returns (λ _ t. Cleaned s ok t) (close_library os (unload os) u.dlmodule v)
  close_part s u v ok told a e open_still (p, r, d, running, exiting) =
      Returns-mono (ClosedAfter (handle_of u.dlmodule) v) (λ _ t. Cleaned s ok t) _
        (close_library-ClosedAfter u.dlmodule v d)
        (λ _ t c.
          let events : t.machine.events
              ≡ s.machine.events ++ ((a.made ++ told) ++ closing (left_open s)) =
            c.0 ∙ simp (e, a.events, a.handle, append_assoc) in
          record {
            made = a.made ++ told;
            events = events;
            kept_open = none_closed-append a.made told a.kept_open open_still;
            closed = λ yes.
                let (last, set) = closing_opened s (a.is_open yes) in
                (events ∙ ap (λ es. s.machine.events ++ ((a.made ++ told) ++ es)) last, set);
            module_ptr = c.2 ∙ p;
            resource = c.3 ∙ r;
            dlmodule = c.1;
            running = c.4 ∙ (running ∙ a.running);
            exiting = c.5 ∙ (exiting ∙ a.exiting);
          })

  unload_module-Cleaned :
      (s u : State os) (ok : Bool)
      → Tried s (left_open s) (found s) ok u
      → Returns (λ _ t. Cleaned s ok t) (unload_module os u)
  unfolding unload_module_by
  unload_module-Cleaned s u ok a = elim (Bool-cases (is_null u.module_ptr)) [
    | inl e ↦ rw e (
        close_part s u _ ok [] a (sym (append-nil u.machine.events)) refl
          (is_null-zero u.module_ptr e, refl, refl, refl, refl))
    | inr e ↦
        let (c, f) = F.ends u.module_ptr u.machine.world in
        rw (e, f)
          (close_part s u _ ok (invoked (uninit u.module_ptr) ∷ []) a refl refl
            (refl, refl, refl, refl, refl))
  ]

  -- From any state, `LoadModule` and then `UnloadModule` return, however far the first one comes, if a
  -- failed call of the dynamic loader has a text, a factory throws or gives an object, and
  -- `SetResource` and `Uninit` throw nothing. None of the three pointers is set then, and the maps
  -- are as they were. No library is closed but by the last call of all. That closes the handle that
  -- `dlopen` gave for the module's file, or the one from before if there is no readable file, unless
  -- it is NULL. If `LoadModule` returned true, `dlopen` gave a handle that is not NULL, and the last
  -- call closes just that.
  pub load_module-Cleaned : (s : State os) → Returns (Cleaned s) (load_unload os s)
  load_module-Cleaned s =
      Returns-and_then (Tried s (left_open s) (found s)) (Cleaned s) (load_module os s) _
        (load_module-Tried F s)
        (λ ok u a.
          Returns-and_then (λ _ t. Cleaned s ok t) (Cleaned s) (unload_module os u) _
            (unload_module-Cleaned s u ok a) (λ _ t c. c))
