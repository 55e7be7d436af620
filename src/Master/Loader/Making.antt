-- ===== src/Master/Loader/Making.antt =====
-- `InitResource` and `InitModule` of mpic/master.cc, however far they come.
use mpic.Prelude.{
  ℕ, zero, suc, ◌≡◌, inl, inr, refl, sym, ap, subst, ◌∙◌, false, Option, none, some, [], ℤ, Bytes,
  bytes,
}
use mathlib.Core.List.{append-nil}
use mpic.Prelude.State.{Returns, Returns-and_then, Returns-mono}
use mpic.Os.{Os, Method, new_object, set_resource, resource_init, init_in_master}
use mpic.Os.Machine
use mpic.Os.Machine.{Machine, M, Event, called, invoked}
use mpic.Master.{State, lift}
use mpic.Master.Lifting.{lift-Returns}
use mpic.Master.Loader.{
  symbol_of, keep_symbol, as_bool, try_bool, as_pointer, try_new, set_up_resource, new_resource,
  init_resource, set_up_module, new_module, init_module,
}
use mpic.DynLib.{DynLib, is_null, get_symbol, get_error, symbol_found}
use mpic.Master.Loader.Holding.{
  Fair, handle_of, Held, Held-refl, Held-trans, Holds, Holds-then, step-Held,
}

-- The steps of the library's object make no call that is kept.
abbrev SameHandle : {os : Os} {A : Type 0} → DynLib → Machine os → A × DynLib → Machine os → Type 0
SameHandle l m r n = (n.events ≡ m.events) × (r.1.handler ≡ l.handler)

module _ {os : Os} (F : Fair os) where
  get_symbol-SameHandle :
      (name : Bytes) (l : DynLib) (m : Machine os)
      → Returns (SameHandle l m) (get_symbol os name l m)
  unfolding get_symbol symbol_found get_error
  get_symbol-SameHandle name l m = go (os.dlsym l.handler name m.world).0 refl
    where
      go :
          (p : ℕ)
          → (os.dlsym l.handler name m.world).0 ≡ p
          → Returns (SameHandle l m) (get_symbol os name l m)
      go zero e = let (text, f) = F.symbol_text l.handler name m.world e in rw (e, f) (refl, refl)
      go (suc p) e = rw e (refl, refl)

  method-Holds : (c : Method) → Holds (lift os (Machine.method os c))
  method-Holds c s = step-Held s _ (invoked c) refl

  as_bool-Holds : (r : Option ℤ) → Holds (as_bool os r)
  unfolding as_bool
  as_bool-Holds none s = Held-refl s
  as_bool-Holds (some b) s = Held-refl s

  try_bool-Holds : (a : ℕ) (c : Method) → Holds (try_bool os (suc a) c)
  unfolding try_bool
  try_bool-Holds a c =
      Holds-then (lift os (Machine.method os c)) (as_bool os) (method-Holds c) as_bool-Holds

  -- The pointer that a factory gives is not NULL.
  abbrev NotNull : Option ℕ → Type 0
  NotNull none = Unit {0}
  NotNull (some a) = is_null a ≡ false

  try_new-NotNull : (p : ℕ) (s : State os) → Returns (λ r u. Held s u × NotNull r) (try_new os p s)
  unfolding try_new as_pointer
  try_new-NotNull p s = elim (F.makes p s.machine.world) [
    | inl e ↦ rw e (step-Held s _ (invoked (new_object p)) refl, tt)
    | inr (a, e) ↦ rw e (step-Held s _ (invoked (new_object p)) refl, refl)
  ]

  resource-Held : (r : ℕ) (s : State os) → Held s (record s { resource = r })
  resource-Held r s = record {
    made = [];
    events = sym (append-nil s.machine.events);
    kept_open = refl;
    handle = refl;
    running = refl;
    exiting = refl;
  }

  module-Held : (a : ℕ) (s : State os) → Held s (record s { module_ptr = a })
  module-Held a s = record {
    made = [];
    events = sym (append-nil s.machine.events);
    kept_open = refl;
    handle = refl;
    running = refl;
    exiting = refl;
  }

  set_up_resource-Held :
      (r : Option ℕ) (s : State os) → NotNull r → Returns (λ _ u. Held s u) (set_up_resource os r s)
  unfolding set_up_resource
  set_up_resource-Held none s h = Held-refl s
  set_up_resource-Held (some zero) s h = cc
  set_up_resource-Held (some (suc a)) s h =
      Returns-mono (λ _ u. Held (record s { resource = suc a }) u) (λ _ u. Held s u) _
        (try_bool-Holds a (resource_init (suc a)) (record s { resource = suc a }))
        (λ b u e. Held-trans (resource-Held (suc a) s) e)

  set_up_module-Held :
      (r : Option ℕ) (s : State os) → NotNull r → Returns (λ _ u. Held s u) (set_up_module os r s)
  unfolding set_up_module
  set_up_module-Held none s h = Held-refl s
  set_up_module-Held (some zero) s h = cc
  set_up_module-Held (some (suc a)) s h =
      let (c, e) = F.takes (suc a) s.resource s.machine.world in
      let t : State os = record s { module_ptr = suc a } in
      rw e (
        Returns-mono _ (λ _ u. Held s u) _ (try_bool-Holds a (init_in_master (suc a)) _)
          (λ b u f.
            Held-trans (module-Held (suc a) s)
              (Held-trans (step-Held t _ (invoked (set_resource (suc a) s.resource)) refl) f)))

  new_resource-Holds : (p : ℕ) → Holds (new_resource os p)
  unfolding new_resource
  new_resource-Holds zero s = Held-refl s
  new_resource-Holds (suc p) s =
      Returns-and_then (λ r u. Held s u × NotNull r) (λ _ u. Held s u) (try_new os (suc p) s)
        (set_up_resource os) (try_new-NotNull (suc p) s)
        (λ r t (e, h).
          Returns-mono (λ _ u. Held t u) (λ _ u. Held s u) _ (set_up_resource-Held r t h)
            (λ b u f. Held-trans e f))

  new_module-Holds : (p : ℕ) → Holds (new_module os p)
  unfolding new_module
  new_module-Holds zero s = Held-refl s
  new_module-Holds (suc p) s =
      Returns-and_then (λ r u. Held s u × NotNull r) (λ _ u. Held s u) (try_new os (suc p) s)
        (set_up_module os) (try_new-NotNull (suc p) s)
        (λ r t (e, h).
          Returns-mono (λ _ u. Held t u) (λ _ u. Held s u) _ (set_up_module-Held r t h)
            (λ b u f. Held-trans e f))

  symbol_of-Held :
      (name : Bytes) (o : Option DynLib) (s : State os)
      → s.dlmodule ≡ o
      → is_null (handle_of o) ≡ false
      → Returns (λ _ u. Held s u) (symbol_of os name o s)
  unfolding symbol_of keep_symbol
  symbol_of-Held name none s e h = cc
  symbol_of-Held name (some l) s e h =
      Returns-and_then _ (λ _ u. Held s u) (lift os (get_symbol os name l) s) (keep_symbol os)
        (lift-Returns (SameHandle l s.machine) (get_symbol os name l) s
          (get_symbol-SameHandle name l s.machine))
        (λ (p, l') u (n, f, a).
          subst (λ v. Held s (record v { dlmodule = some l' })) (sym f)
            (record {
              made = [];
              events = a.0 ∙ sym (append-nil s.machine.events);
              kept_open = refl;
              handle = a.1 ∙ sym (ap handle_of e);
              running = refl;
              exiting = refl;
            }))

  pub init_resource-Held :
      (s : State os)
      → is_null (handle_of s.dlmodule) ≡ false
      → Returns (λ _ u. Held s u) (init_resource os s)
  unfolding init_resource
  init_resource-Held s h =
      Returns-and_then (λ _ u. Held s u) (λ _ u. Held s u) _ _
        (symbol_of-Held (bytes "MPIC_NewResource") s.dlmodule s refl h)
        (λ p t e.
          Returns-mono (λ _ u. Held t u) (λ _ u. Held s u) _ (new_resource-Holds p t)
            (λ b u f. Held-trans e f))

  pub init_module-Held :
      (s : State os)
      → is_null (handle_of s.dlmodule) ≡ false
      → Returns (λ _ u. Held s u) (init_module os s)
  unfolding init_module
  init_module-Held s h =
      Returns-and_then (λ _ u. Held s u) (λ _ u. Held s u) _ _
        (symbol_of-Held (bytes "MPIC_NewModule") s.dlmodule s refl h)
        (λ p t e.
          Returns-mono (λ _ u. Held t u) (λ _ u. Held s u) _ (new_module-Holds p t)
            (λ b u f. Held-trans e f))
