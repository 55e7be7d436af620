-- ===== src/Title/Writing.antt =====
-- What `Title::Set` of mpic/title.cc leaves in memory.
use mpic.Prelude.{
  ℕ, zero, suc, ◌+◌, ◌-◌, ◌≤◌, ◌<◌, ◌≡◌, refl, ap, ◌∙◌, false, ◌&&◌, none, some, List, [], ◌∷◌,
  ◌++◌, Bytes, c_str, ltb, leb, if◌then◌else◌, length, take, replicate, get_or, arith,
  length-append,
}
use Prim.Native.Nat.{min}
use mpic.Title.{Title, Memory, write, padded, set, overwrite}

length-replicate : (n b : ℕ) → length (replicate n b) ≡ n
length-replicate zero b = refl
length-replicate (suc n) b = ap suc (length-replicate n b)

get_or-replicate : (n i : ℕ) → get_or (replicate n zero) i zero ≡ zero
get_or-replicate zero i = refl
get_or-replicate (suc n) zero = refl
get_or-replicate (suc n) (suc i) = get_or-replicate n i

get_or_past : (s : Bytes) (i : ℕ) → length s ≤ i → get_or s i 0 ≡ 0
get_or_past [] i h = refl
get_or_past (x ∷ s) zero h = absurd (omega arith)
get_or_past (x ∷ s) (suc i) h = get_or_past s i (omega arith)

length-c_str : (s : Bytes) → length (c_str s) ≤ length s
length-c_str [] = omega arith
length-c_str (b ∷ s) = ground (arith, length-c_str s)

length-take : (n : ℕ) (s : Bytes) → length (take n s) ≡ min n (length s)
length-take zero s = omega arith
length-take (suc n) [] = omega arith
length-take (suc n) (x ∷ s) = omega (arith, length-take n s)

pub length-padded : (n : ℕ) (s : Bytes) → length (padded n s) ≡ n
length-padded n s = omega (
  arith,
  length-append (take n s) (replicate (n - length s) 0),
  length-take n s,
  length-replicate (n - length s) 0,
)

-- The first `n` bytes of the text, cut and filled up.
pub get_or-filled :
    (n m : ℕ) (s : Bytes) (i : ℕ)
    → i < n
    → get_or (take n s ++ replicate m zero) i zero ≡ get_or s i zero
get_or-filled zero m s i h = absurd (omega arith)
get_or-filled (suc n) m [] i h = get_or-replicate m i
get_or-filled (suc n) m (x ∷ s) zero h = refl
get_or-filled (suc n) m (x ∷ s) (suc i) h = get_or-filled n m s i (omega arith)

-- Memory after `strncpy` to `start` and `memset` up to `last`, with `p` as the source computes it.
module _ (mem : Memory) (start last : ℕ) (text : Bytes) where
  abbrev copied : Memory
  copied = write mem start (padded (last - start) (c_str text))

  abbrev p : ℕ
  p = start + min (length text) (last - start)

  -- The string inside the space, then zeros up to its end, and nothing else.
  abbrev pub shown : ℕ → ℕ
  shown a = if leb start a && ltb a last then get_or (c_str text) (a - start) 0 else mem a

  copied_lem : (a : ℕ) → start ≤ last → copied a ≡ shown a
  unfolding write
  copied_lem a h = ground (
    arith,
    length-padded (last - start) (c_str text),
    get_or-filled (last - start) (last - start - length (c_str text)) (c_str text) (a - start),
  )

  cleared_lem : (a : ℕ) → start ≤ last → write copied p (replicate (last - p) 0) a ≡ shown a
  unfolding write
  cleared_lem a h = ground (
    arith,
    length-replicate (last - p) 0,
    get_or-replicate (last - p) (a - p),
    get_or_past (c_str text) (a - start),
    length-c_str text,
    copied_lem a h,
  )

-- Where the title's space starts at `argv[0]` and does not end before it, `Set` comes back. From
-- then on the space holds the text up to its first NUL, cut to the size of the space, and zeros up
-- to the end of the space; all other memory is as it was, and so are the space and the array of the
-- environment.
pub set-shown :
    (text : Bytes) (t : Title) (start : ℕ) (rest : List ℕ)
    → t.argv ≡ start ∷ rest
    → start ≤ t.g_last
    → (t' : Title) × (set text t ≡ some t')
      × ((a : ℕ) → t'.mem a ≡ shown t.mem start t.g_last text a)
      × (t'.g_last ≡ t.g_last)
      × (t'.argv ≡ start ∷ [])
      × (t'.environ ≡ t.environ)
unfolding set overwrite
set-shown text t start rest e h =
    let e' =
      ap (λ ps. elim ps [ [] ↦ none | a ∷ _ ↦ overwrite a text (record t { argv = a ∷ [] }) ]) e in
    let n : ltb t.g_last start ≡ false = ground (arith, h) in
    let q = p t.mem start t.g_last text in
    (
      record t {
        argv = start ∷ [];
        mem = write (copied t.mem start t.g_last text) q (replicate (t.g_last - q) 0);
      },
      e' ∙ rw n refl,
      (λ a. cleared_lem t.mem start t.g_last text a h),
      refl,
      refl,
      refl,
    )

-- A second text takes the place of the first.
pub shown_again :
    (mem mem' : Memory) (start last : ℕ) (text text' : Bytes)
    → ((a : ℕ) → mem' a ≡ shown mem start last text a)
    → (a : ℕ) → shown mem' start last text' a ≡ shown mem start last text' a
shown_again mem mem' start last text text' h a = ground (arith, h a)
