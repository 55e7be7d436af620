-- ===== src/Title/Reading.antt =====
-- Reading back what mpic/title.cc writes.
use mpic.Prelude.{
  ℕ, zero, suc, ◌+◌, ◌-◌, ◌≤◌, ◌<◌, ◌≡◌, ◌≢◌, refl, ap, ◌∙◌, some, [], ◌∷◌, List, Bytes, c_str,
  length, get_or, arith,
}
use mpic.Title.{Title, Memory, read_str, address_space, set}
use mpic.Title.Writing.{shown, set-shown}

-- A text of a C string: no byte of it is NUL.
abbrev pub Text : Bytes → Type 0
Text [] = Unit {0}
Text (b ∷ s) = (b ≢ 0) × Text s

-- The bytes of `s` stand from `p` on, and a NUL behind them.
abbrev pub Holds : Memory → ℕ → Bytes → Type 0
Holds mem p [] = mem p ≡ 0
Holds mem p (b ∷ s) = (mem p ≡ b) × Holds mem (p + 1) s

pub read_str-Holds :
    (n : ℕ) (mem : Memory) (p : ℕ) (s : Bytes)
    → Text s
    → Holds mem p s
    → length s < n
    → read_str n mem p ≡ s
unfolding read_str
read_str-Holds zero mem p s t h l = absurd (omega arith)
read_str-Holds (suc n) mem p [] t h l = rw (h, read_str)
read_str-Holds (suc n) mem p (zero ∷ s) t h l = absurd (t.0 refl)
read_str-Holds (suc n) mem p (suc b ∷ s) t h l =
    rw (h.0, read_str) (ap (◌∷◌ (suc b)) (read_str-Holds n mem (p + 1) s t.1 h.1 (omega arith)))

c_str-Text : (s : Bytes) → Text s → c_str s ≡ s
c_str-Text [] t = refl
c_str-Text (b ∷ s) t = ground (arith, c_str-Text s t.1)

-- `Holds`, from the bytes at each place.
pub Holds-of :
    (mem : Memory) (p : ℕ) (s : Bytes)
    → ((i : ℕ) → i ≤ length s → mem (p + i) ≡ get_or s i 0)
    → Holds mem p s
Holds-of mem p [] h = let e : p ≡ p + 0 = omega arith in ap mem e ∙ h 0 (omega arith)
Holds-of mem p (b ∷ s) h = (
  (let e : p ≡ p + 0 = omega arith in ap mem e ∙ h 0 (omega arith)),
  Holds-of mem (p + 1) s
      (λ i l. let e : p + 1 + i ≡ p + suc i = omega arith in ap mem e ∙ h (suc i) (omega arith)),
)

inside :
    (start last : ℕ) (mem : Memory) (text : Bytes) (i : ℕ)
    → Text text
    → start + i < last
    → shown mem start last text (start + i) ≡ get_or text i 0
inside start last mem text i t l =
    let back : start + i - start ≡ i = omega arith in
    ground (
      arith,
      l,
      ap (λ s. get_or s (start + i - start) 0) (c_str-Text text t),
      ap (λ j. get_or text j 0) back,
    )

-- A title without a NUL, shorter than the space between `argv[0]` and `g_last`, is read back as the
-- C string at `argv[0]` after `Set`.
pub read_str-set :
    (text : Bytes) (t : Title) (start : ℕ) (rest : List ℕ)
    → t.argv ≡ start ∷ rest
    → Text text
    → start + length text < t.g_last
    → length text < address_space
    → (t' : Title) × (set text t ≡ some t') × (read_str address_space t'.mem start ≡ text)
read_str-set text t start rest e nul_free fits small =
    let (t', done, mem, last, argv, _) = set-shown text t start rest e (omega arith) in
    (
      t',
      done,
      read_str-Holds address_space t'.mem start text nul_free
          (Holds-of t'.mem start text
            (λ i l. mem (start + i) ∙ inside start t.g_last t.mem text i nul_free (omega arith)))
          small,
    )

pub get_or-Holds :
    (mem : Memory) (p : ℕ) (s : Bytes) (i : ℕ)
    → i ≤ length s
    → Holds mem p s
    → mem (p + i) ≡ get_or s i 0
get_or-Holds mem p [] i l h = let e : p + i ≡ p = omega arith in ap mem e ∙ h
get_or-Holds mem p (b ∷ s) zero l h = let e : p + 0 ≡ p = omega arith in ap mem e ∙ h.0
get_or-Holds mem p (b ∷ s) (suc i) l h =
    let e : p + suc i ≡ p + 1 + i = omega arith in
    ap mem e ∙ get_or-Holds mem (p + 1) s i (omega arith) h.1
