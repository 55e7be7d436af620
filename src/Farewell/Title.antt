-- ===== src/Farewell/Title.antt =====
-- The title that the handlers of SIGTERM leave.
use mpic.Prelude.{ℕ, ◌≤◌, ◌≡◌, refl, false, List, ◌∷◌, Bytes, is_empty, some}
use mpic.Prelude.State.{returned}
use mpic.Os.{Os}
use mpic.Os.Machine.{Machine, set_title}
use mpic.Options.{get_exe_name}
use mpic.Title.{Title, set}
use mpic.Title.Writing.{shown, set-shown}
use mpic.Farewell.{announce, farewell}

module _ {os : Os} where
  pub get_exe_name-known :
      (m : Machine os) → is_empty m.exe_name ≡ false → get_exe_name os m ≡ returned m.exe_name m
  unfolding get_exe_name
  get_exe_name-known m h = rw h refl

  pub set_title-done :
      (text : Bytes) (m : Machine os) (t : Title)
      → set text m.title ≡ some t
      → set_title os text m ≡ returned tt (record m { title = t })
  unfolding set_title
  set_title-done text m t h = rw (set_title, h) refl

  -- The static name is known, and the title's space starts at `p`.
  abbrev pub Named : ℕ → List ℕ → Machine os → Type 0
  Named p ps m = (is_empty m.exe_name ≡ false) × (m.title.argv ≡ p ∷ ps) × (p ≤ m.title.g_last)

  -- The memory of the title reads as the farewell of this machine.
  abbrev pub Told : ℕ → Bytes → Machine os → Title → Type 0
  Told p name m t =
      (a : ℕ) → t.mem a ≡ shown m.title.mem p m.title.g_last (farewell m.exe_name name) a

  pub announce_lem :
      (p : ℕ) (ps : List ℕ) (name : Bytes) (m : Machine os)
      → Named p ps m
      → (t : Title) × (announce os name m ≡ returned tt (record m { title = t })) × Told p name m t
  unfolding announce
  announce_lem p ps name m h =
      let r = set-shown (farewell m.exe_name name) m.title p ps h.1 h.2 in
      (
        r.0,
        rw (get_exe_name-known m h.0, set_title-done (farewell m.exe_name name) m r.0 r.1) refl,
        r.2,
      )
