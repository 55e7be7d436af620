-- ===== src/Master/Loader/Trying.antt =====
-- `LoadModule` of mpic/master.cc, however far it comes.
use mpic.Prelude.{
  ℕ, zero, suc, ◌≡◌, refl, sym, ap, subst, ◌∙◌, Bool, true, false, not, ◌&&◌, some, List, [], ◌∷◌,
  ◌++◌, Bytes, is_zero, if◌then◌else◌, Bool-cases, inl, inr,
}
use mathlib.Core.List.{append_assoc}
use mpic.Prelude.State.{and_then, pure, ◌>>=◌, Returns, Returns-and_then, Returns-mono}
use mpic.Os.{Os, file_exists, file_readable}
use mpic.Os.Machine.{Machine, Event, called}
use mpic.DynLib.{DynLib, is_null, load, get_error, new_dyn_lib}
use mpic.FileUtil.{is_file_exist, is_readable}
use mpic.Master.{State, lift}
use mpic.Master.Lifting.{lift-Returns}
use mpic.Master.Loader.{init_resource, init_module, open_library, load_module}
use mpic.Master.Loader.Making.{init_resource-Held, init_module-Held}
use mpic.Master.Loader.Holding.{
  Fair, none_closed, none_closed-append, handle_of, Held, Held-refl, Held-trans, step-Held,
}

not_true : {A : Type 0} → false ≡ true → A
not_true e = cc

not_closed : (a b : Bool) → a ≡ true → a ≡ not b → b ≡ false
not_closed a true e f = cc
not_closed a false e f = refl

module _ {os : Os} where
  -- The world when `LoadModule` asks whether its file can be read, and when it opens the library.
  abbrev at_readable : State os → os.World
  at_readable s = (os.sys (file_exists s.option.module_file) s.machine.world).1

  abbrev at_open : State os → os.World
  at_open s = (os.sys (file_readable s.option.module_file) (at_readable s)).1

  -- The file is there and can be read.
  abbrev pub found : State os → Bool
  found s =
      is_zero (os.sys (file_exists s.option.module_file) s.machine.world).0
      && is_zero (os.sys (file_readable s.option.module_file) (at_readable s)).0

  -- What `dlopen` gives for it, 0 for NULL.
  abbrev pub opened_handle : State os → ℕ
  opened_handle s = (os.dlopen s.option.module_file (at_open s)).0

  -- The handle that `LoadModule` leaves: that of before if it finds no file.
  abbrev pub left_open : State os → ℕ
  left_open s = if found s then opened_handle s else handle_of s.dlmodule

  -- What `LoadModule` comes to where `dlopen` is reached or not, and `h` is the handle that is left:
  -- nothing was closed, and it succeeded only if `h` was opened.
  pub record Tried (s : State os) (h : ℕ) (reached ok : Bool) (u : State os) : Type 0 where
    pub made : List Event
    pub events : u.machine.events ≡ s.machine.events ++ made
    pub kept_open : none_closed made ≡ true
    pub handle : handle_of u.dlmodule ≡ h
    pub is_open : ok ≡ true → (reached ≡ true) × (is_null h ≡ false)
    pub running : u.running ≡ s.running
    pub exiting : u.exiting ≡ s.exiting

  -- A `LoadModule` that does not come to `dlopen`.
  Held-Tried : {s u : State os} → Held s u → Tried s (handle_of s.dlmodule) false false u
  Held-Tried e = record {
    made = e.made;
    events = e.events;
    kept_open = e.kept_open;
    handle = e.handle;
    is_open = not_true;
    running = e.running;
    exiting = e.exiting;
  }

module _ {os : Os} (F : Fair os) where
  abbrev LoadedIf : Bytes → Machine os → Bool × DynLib → Machine os → Type 0
  LoadedIf path m r n =
      (n.events ≡ m.events)
      × (r.0 ≡ not (is_null (os.dlopen path m.world).0))
      × (r.1.handler ≡ (os.dlopen path m.world).0)

  load-LoadedIf :
      (path : Bytes) (m : Machine os) → Returns (LoadedIf path m) (load os (new_dyn_lib path) m)
  unfolding load get_error
  load-LoadedIf path m = go (os.dlopen path m.world).0 refl
    where
      go :
          (h : ℕ)
          → (os.dlopen path m.world).0 ≡ h
          → Returns (LoadedIf path m) (load os (new_dyn_lib path) m)
      go zero e =
          let (text, f) = F.open_text path m.world e in
          rw (e, f) (refl, ap (λ h. not (is_null h)) (sym e), sym e)
      go (suc h) e = rw e (refl, ap (λ h. not (is_null h)) (sym e), sym e)

  abbrev OpenedIf : Bytes → State os → Bool → State os → Type 0
  OpenedIf path s ok u =
      (ok ≡ not (is_null (os.dlopen path s.machine.world).0))
      × (handle_of u.dlmodule ≡ (os.dlopen path s.machine.world).0)
      × (u.machine.events ≡ s.machine.events)
      × (u.running ≡ s.running)
      × (u.exiting ≡ s.exiting)

  open_library-OpenedIf :
      (path : Bytes) (s : State os) → Returns (OpenedIf path s) (open_library os path s)
  unfolding open_library
  open_library-OpenedIf path s =
      let t : State os = record s { dlmodule = some (new_dyn_lib path) } in
      Returns-and_then _ (OpenedIf path s) (lift os (load os (new_dyn_lib path)) t) _
        (lift-Returns (LoadedIf path s.machine) (load os (new_dyn_lib path)) t
          (load-LoadedIf path s.machine))
        (λ (ok, l) u (n, f, a).
          subst (λ v. OpenedIf path s ok (record v { dlmodule = some l })) (sym f)
            (a.1, a.2, a.0, refl, refl))

  opened-Tried :
      {t u v : State os} (path : Bytes) (opened ok : Bool)
      → OpenedIf path t opened u
      → Held u v
      → (ok ≡ true → opened ≡ true)
      → Tried t (os.dlopen path t.machine.world).0 true ok v
  opened-Tried {t} path opened ok a b h = record {
    made = b.made;
    events = b.events ∙ ap (λ es. es ++ b.made) a.2;
    kept_open = b.kept_open;
    handle = b.handle ∙ a.1;
    is_open = λ e. (refl, not_closed opened (is_null (os.dlopen path t.machine.world).0) (h e) a.0);
    running = b.running ∙ a.3;
    exiting = b.exiting ∙ a.4;
  }

  -- From the opening of the library on.
  loading_part :
      (path : Bytes) (t : State os)
      → Returns (Tried t (os.dlopen path t.machine.world).0 true) (
          and_then (open_library os path t) (λ opened. if not opened then pure false else do
            resource_ok ← init_resource os
            if not resource_ok then pure false else init_module os))
  loading_part path t =
      Returns-and_then (OpenedIf path t) Done (open_library os path t) _
        (open_library-OpenedIf path t)
        (λ opened u a. elim (Bool-cases opened) [
          | inr e ↦ rw e (opened-Tried path opened false a (Held-refl u) not_true)
          | inl e ↦
              let loaded =
                ap is_null a.1
                ∙ not_closed opened (is_null (os.dlopen path t.machine.world).0) e a.0 in
              rw e (
                Returns-and_then (λ _ v. Held u v) Done (init_resource os u) _
                  (init_resource-Held F u loaded)
                  (λ ok v b. elim (Bool-cases ok) [
                    | inr f ↦ rw f (opened-Tried path opened false a b not_true)
                    | inl f ↦ rw f (
                        Returns-mono (λ _ w. Held v w) Done (init_module os v)
                          (init_module-Held F v (ap is_null b.handle ∙ loaded))
                          (λ ok w c. opened-Tried path opened ok a (Held-trans b c) (λ _. e)))
                  ]))
        ])
    where
      Done : Bool → State os → Type 0
      Done = Tried t (os.dlopen path t.machine.world).0 true

  Tried-trans :
      {s t u : State os} {h : ℕ} {r ok : Bool} → Held s t → Tried t h r ok u → Tried s h r ok u
  Tried-trans {s} a b = record {
    made = a.made ++ b.made;
    events =
        b.events ∙ (ap (λ es. es ++ b.made) a.events ∙ append_assoc s.machine.events a.made b.made);
    kept_open = none_closed-append a.made b.made a.kept_open b.kept_open;
    handle = b.handle;
    is_open = b.is_open;
    running = b.running ∙ a.running;
    exiting = b.exiting ∙ a.exiting;
  }

  pub load_module-Tried :
      (s : State os) → Returns (Tried s (left_open s) (found s)) (load_module os s)
  unfolding load_module is_file_exist is_readable
  load_module-Tried s =
      let path = s.option.module_file in
      let w = (os.sys (file_exists path) s.machine.world).1 in
      let t : State os = record s {
        machine = record s.machine {
          world = w;
          events = s.machine.events ++ called (file_exists path) ∷ [];
        };
      } in
      let first = step-Held s w (called (file_exists path)) refl in
      let both =
        Held-trans first
          (step-Held t (os.sys (file_readable path) w).1 (called (file_readable path)) refl) in
      elim (Bool-cases (is_zero (os.sys (file_exists path) s.machine.world).0)) [
        | inr e ↦ rw e (Held-Tried first)
        | inl e ↦ elim (Bool-cases (is_zero (os.sys (file_readable path) w).0)) [
          | inr f ↦ rw (e, f) (Held-Tried both)
          | inl f ↦
              rw (e, f)
                (Returns-mono _ (Tried s (opened_handle s) true) _ (loading_part path _)
                  (λ ok u a. Tried-trans both a))
        ]
      ]
