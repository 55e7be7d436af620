-- ===== src/FileUtil/Stem.antt =====
-- The name that `GetFileNameWithoutExt` of mpic/internal/file_util.cc is meant to give, by recursion on
-- the path.
use mpic.Prelude.{
  ℕ, ◌^◌, ◌<◌, ◌≡◌, refl, sym, ap, subst, ◌∙◌, Bool, true, false, ◌||◌, some, [], ◌∷◌, ◌++◌, Bytes,
  arith, length, ◌==◌, if◌then◌else◌, Bool-cases, inl, inr,
}
use mathlib.Core.List.{append_assoc}
use mpic.FileUtil.{slash, dot, get_file_name_without_ext}
use mpic.FileUtil.BaseName.{
  Lacks, IsDirPart, none_given, ends_in_slash, file_name-strips_ext, file_name_without_dot,
}

abbrev has : ℕ → Bytes → Bool
has c [] = false
has c (x ∷ xs) = x == c || has c xs

-- What stands behind the last slash; the whole path if it has none.
abbrev pub base_name : Bytes → Bytes
base_name [] = []
base_name (x ∷ xs) =
    let rest = base_name xs in if has slash xs then rest else if x == slash then xs else x ∷ xs

-- What stands before the last dot; the whole name if it has none.
abbrev pub stem : Bytes → Bytes
stem [] = []
stem (x ∷ xs) =
    let rest = stem xs in if has dot xs then x ∷ rest else if x == dot then [] else x ∷ xs

has-Lacks : (c : ℕ) (xs : Bytes) → has c xs ≡ false → Lacks c xs
has-Lacks c [] h = tt
has-Lacks c (x ∷ xs) h = ground (arith, has-Lacks c xs)

last_one :
    (c x : ℕ) (xs : Bytes) → has c (x ∷ xs) ≡ true → has c xs ≡ false → (x == c ≡ true) × (x ≡ c)
last_one c x xs h e = ground (arith, h, e)

-- The last slash, with what stands on either side of it.
base_name_split :
    (xs : Bytes)
    → has slash xs ≡ true
    → (d : Bytes) × (xs ≡ d ++ slash ∷ base_name xs) × Lacks slash (base_name xs)
base_name_split [] h = cc
base_name_split (x ∷ xs) h = elim (Bool-cases (has slash xs)) [
  | inl e ↦ let (d, f, l) = base_name_split xs e in rw e (x ∷ d, ap (λ ys. x ∷ ys) f, l)
  | inr e ↦
      let (t, f) = last_one slash x xs h e in
      rw (e, t) ([], ap (λ y. y ∷ xs) f, has-Lacks slash xs e)
]

base_name_whole : (xs : Bytes) → has slash xs ≡ false → base_name xs ≡ xs
base_name_whole [] h = refl
base_name_whole (x ∷ xs) h = ground (arith, h)

-- The last dot, with what stands on either side of it.
stem_split :
    (xs : Bytes) → has dot xs ≡ true → (ext : Bytes) × (xs ≡ stem xs ++ dot ∷ ext) × Lacks dot ext
stem_split [] h = cc
stem_split (x ∷ xs) h = elim (Bool-cases (has dot xs)) [
  | inl e ↦ let (ext, f, l) = stem_split xs e in rw e (ext, ap (λ ys. x ∷ ys) f, l)
  | inr e ↦
      let (t, f) = last_one dot x xs h e in rw (e, t) (xs, ap (λ y. y ∷ xs) f, has-Lacks dot xs e)
]

stem_whole : (xs : Bytes) → has dot xs ≡ false → stem xs ≡ xs
stem_whole [] h = refl
stem_whole (x ∷ xs) h = ground (arith, h)

Lacks-append_left : (c : ℕ) (xs ys : Bytes) → Lacks c (xs ++ ys) → Lacks c xs
Lacks-append_left c [] ys h = tt
Lacks-append_left c (x ∷ xs) ys h = (h.0, Lacks-append_left c xs ys h.1)

Lacks-append_right : (c : ℕ) (xs ys : Bytes) → Lacks c (xs ++ ys) → Lacks c ys
Lacks-append_right c [] ys h = h
Lacks-append_right c (x ∷ xs) ys h = Lacks-append_right c xs ys h.1

-- A name behind its directory part loses its extension.
name_lem :
    (d name : Bytes)
    → IsDirPart d
    → Lacks slash name
    → length (d ++ name) < 2 ^ 64
    → get_file_name_without_ext (d ++ name) ≡ some (stem name)
name_lem d name isd l h = elim (Bool-cases (has dot name)) [
  | inr e ↦
      file_name_without_dot d name isd l (has-Lacks dot name e) h
      ∙ ap some (sym (stem_whole name e))
  | inl e ↦
      let (ext, f, no_dot) = stem_split name e in
      let l' = subst (Lacks slash) f l in
      subst (λ n. get_file_name_without_ext (d ++ n) ≡ some (stem name)) (sym f)
        (file_name-strips_ext d (stem name) ext isd
          (Lacks-append_left slash (stem name) (dot ∷ ext) l')
          (Lacks-append_right slash (stem name) (dot ∷ ext) l').1 no_dot
          (subst (λ n. length (d ++ n) < 2 ^ 64) f h))
]

-- For every path below 2^64 bytes, the result is what stands before the last dot of what stands
-- behind the last slash: the whole of that if it has no dot, also where a directory has one.
pub file_name-stem :
    (path : Bytes)
    → length path < 2 ^ 64
    → get_file_name_without_ext path ≡ some (stem (base_name path))
file_name-stem path h = elim (Bool-cases (has slash path)) [
  | inr e ↦
      name_lem [] path none_given (has-Lacks slash path e) h
      ∙ ap (λ n. some (stem n)) (sym (base_name_whole path e))
  | inl e ↦
      let (d, f, l) = base_name_split path e in
      let g = f ∙ sym (append_assoc d (slash ∷ []) (base_name path)) in
      subst (λ p. get_file_name_without_ext p ≡ some (stem (base_name path))) (sym g)
        (name_lem (d ++ slash ∷ []) (base_name path) (ends_in_slash d) l
          (subst (λ p. length p < 2 ^ 64) g h))
]
