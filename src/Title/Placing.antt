-- ===== src/Title/Placing.antt =====
-- C strings in the memory of mpic/title.cc, and what a write elsewhere leaves of them.
use mpic.Prelude.{
  ℕ, ◌+◌, ◌-◌, ◌≤◌, ◌<◌, ◌≡◌, ◌⊎◌, inl, inr, ap, ◌∙◌, [], ◌∷◌, ◌++◌, List, Bytes, length, get_or,
  arith,
}
use mpic.Title.{Memory, strlen, address_space, write}
use mpic.Title.Reading.{Text, Holds, Holds-of, get_or-Holds, read_str-Holds}

-- The C string `s` stands at `e`, below `lo` or from `hi` on.
abbrev pub Placed : ℕ → ℕ → Memory → ℕ → Bytes → Type 0
Placed lo hi mem e s =
    Text s × Holds mem e s × (length s < address_space) × ((e + length s < lo) ⊎ (hi ≤ e))

abbrev pub AllPlaced : ℕ → ℕ → Memory → List ℕ → List Bytes → Type 0
AllPlaced lo hi mem [] [] = Unit {0}
AllPlaced lo hi mem (e ∷ es) (s ∷ ss) = Placed lo hi mem e s × AllPlaced lo hi mem es ss
AllPlaced lo hi mem _ _ = ⊥

-- The bytes that the strings take.
abbrev pub total : List Bytes → ℕ
total [] = 0
total (s ∷ ss) = length s + 1 + total ss

-- The memory below `lo` and from `hi` on is the same.
abbrev pub Outside : ℕ → ℕ → Memory → Memory → Type 0
Outside lo hi mem mem' = (a : ℕ) → (a < lo) ⊎ (hi ≤ a) → mem' a ≡ mem a

pub write-Outside :
    (mem : Memory) (p : ℕ) (bs : Bytes) → Outside p (p + length bs) mem (write mem p bs)
unfolding write
write-Outside mem p bs a (inl h) = ground (arith, h)
write-Outside mem p bs a (inr h) = ground (arith, h)

pub write_at :
    (mem : Memory) (p : ℕ) (bs : Bytes) (i : ℕ)
    → i < length bs
    → write mem p bs (p + i) ≡ get_or bs i 0
unfolding write
write_at mem p bs i h =
    let back : p + i - p ≡ i = omega arith in ground (arith, h, ap (λ j. get_or bs j 0) back)

Holds-Outside :
    (lo hi : ℕ) (mem mem' : Memory) (e : ℕ) (s : Bytes)
    → Outside lo hi mem mem'
    → (e + length s < lo) ⊎ (hi ≤ e)
    → Holds mem e s
    → Holds mem' e s
Holds-Outside lo hi mem mem' e s same out h = Holds-of mem' e s (λ i l.
    same (e + i) elim out [ inl o ↦ inl (omega arith) | inr o ↦ inr (omega arith) ]
    ∙ get_or-Holds mem e s i l h)

pub Placed-Outside :
    (lo lo' hi : ℕ) (mem mem' : Memory) (e : ℕ) (s : Bytes)
    → Outside lo hi mem mem'
    → lo ≤ lo'
    → Placed lo hi mem e s
    → Placed lo' hi mem' e s
Placed-Outside lo lo' hi mem mem' e s same le (t, h, small, out) = (
  t,
  Holds-Outside lo hi mem mem' e s same out h,
  small,
  elim out [ inl o ↦ inl (omega arith) | inr o ↦ inr o ],
)

pub AllPlaced-Outside :
    (lo lo' hi : ℕ) (mem mem' : Memory) (es : List ℕ) (ss : List Bytes)
    → Outside lo hi mem mem'
    → lo ≤ lo'
    → AllPlaced lo hi mem es ss
    → AllPlaced lo' hi mem' es ss
AllPlaced-Outside lo lo' hi mem mem' [] [] same le h = tt
AllPlaced-Outside lo lo' hi mem mem' (e ∷ es) (s ∷ ss) same le h = (
  Placed-Outside lo lo' hi mem mem' e s same le h.0,
  AllPlaced-Outside lo lo' hi mem mem' es ss same le h.1,
)
AllPlaced-Outside lo lo' hi mem mem' [] (s ∷ ss) same le h = h
AllPlaced-Outside lo lo' hi mem mem' (e ∷ es) [] same le h = h

pub AllPlaced-snoc :
    (lo hi : ℕ) (mem : Memory) (es : List ℕ) (ss : List Bytes) (e : ℕ) (s : Bytes)
    → AllPlaced lo hi mem es ss
    → Placed lo hi mem e s
    → AllPlaced lo hi mem (es ++ e ∷ []) (ss ++ s ∷ [])
AllPlaced-snoc lo hi mem [] [] e s h p = (p, tt)
AllPlaced-snoc lo hi mem (d ∷ es) (t ∷ ss) e s h p = (h.0, AllPlaced-snoc lo hi mem es ss e s h.1 p)
AllPlaced-snoc lo hi mem [] (s' ∷ ss) e s h p = absurd h
AllPlaced-snoc lo hi mem (d ∷ es) [] e s h p = absurd h

pub strlen-Holds :
    (mem : Memory) (e : ℕ) (s : Bytes)
    → Text s
    → Holds mem e s
    → length s < address_space
    → strlen mem e ≡ length s
unfolding strlen
strlen-Holds mem e s t h l = ap length (read_str-Holds address_space mem e s t h l)
