-- ===== src/FileUtil/BaseName.antt =====
-- What `GetFileNameWithoutExt` of mpic/internal/file_util.cc gives.
use mpic.Prelude.{
  ℕ, zero, suc, ◌^◌, ◌≤◌, ◌<◌, ◌≡◌, refl, sym, ap, ◌∙◌, ◌≢◌, inl, inr, Option-cases, none, some, [],
  ◌∷◌, ◌++◌, Bytes, arith, length, length-append, take-length-append, drop-length-append, take_all,
  take,
}
use Prim.Native.Nat.{min}
use mathlib.Core.List.{append_assoc}
use mpic.FileUtil.{
  position, sub_size, slash, dot, last_index, get_file_name_without_ext, substr, name_start,
}

-- No byte of the text is `c`.
abbrev pub Lacks : ℕ → Bytes → Type 0
Lacks c [] = Unit {0}
Lacks c (x ∷ xs) = (x ≢ c) × Lacks c xs

-- A directory part: nothing, or a text that ends in a slash.
pub data IsDirPart : Bytes → Type 0 where
  none_given : IsDirPart []
  ends_in_slash : (d : Bytes) → IsDirPart (d ++ slash ∷ [])

last_index-Lacks : (c : ℕ) (s : Bytes) → Lacks c s → last_index c s ≡ none
unfolding last_index
last_index-Lacks c [] h = refl
last_index-Lacks c (x ∷ s) h = ground (arith, last_index-Lacks c s h.1)

last_index-append_Lacks :
    (c : ℕ) (xs ys : Bytes) → Lacks c ys → last_index c (xs ++ c ∷ ys) ≡ some (length xs)
unfolding last_index
last_index-append_Lacks c [] ys h = ground (arith, last_index-Lacks c ys h)
last_index-append_Lacks c (x ∷ xs) ys h = ground (arith, last_index-append_Lacks c xs ys h)

Lacks-append : (c : ℕ) (xs ys : Bytes) → Lacks c xs → Lacks c ys → Lacks c (xs ++ ys)
Lacks-append c [] ys p q = q
Lacks-append c (x ∷ xs) ys p q = (p.0, Lacks-append c xs ys p.1 q)

-- The name starts after the directory part.
name_start_lem :
    (d name : Bytes)
    → IsDirPart d
    → Lacks slash name
    → length (d ++ name) < 2 ^ 64
    → name_start (d ++ name) ≡ length d
unfolding name_start
name_start_lem d name none_given l h = rw (last_index-Lacks slash name l)
name_start_lem d name (ends_in_slash d') l h =
    rw (append_assoc d' (slash ∷ []) name, last_index-append_Lacks slash d' name l)
      (ground (arith, length-append d' (slash ∷ []), length-append (d' ++ slash ∷ []) name))

substr-append :
    (d name : Bytes) (n : ℕ)
    → substr (d ++ name) (length d) n ≡ some (take (min n (length name)) name)
unfolding substr
substr-append d name n = rw (drop-length-append d name) (ground (arith, length-append d name))

file_name_lem :
    (d name : Bytes)
    → IsDirPart d
    → Lacks slash name
    → length (d ++ name) < 2 ^ 64
    → get_file_name_without_ext (d ++ name)
      ≡ some (
          take
            (min (sub_size (position (last_index dot (d ++ name))) (length d)) (length name))
            name)
unfolding get_file_name_without_ext
file_name_lem d name isd l h =
    rw (name_start_lem d name isd l h)
      (substr-append d name (sub_size (position (last_index dot (d ++ name))) (length d)))

last_index-append_left :
    (c : ℕ) (xs ys : Bytes) → Lacks c ys → last_index c (xs ++ ys) ≡ last_index c xs
unfolding last_index
last_index-append_left c [] ys h = last_index-Lacks c ys h
last_index-append_left c (x ∷ xs) ys h = ground (arith, last_index-append_left c xs ys h)

last_index-lt : (c : ℕ) (xs : Bytes) (i : ℕ) → last_index c xs ≡ some i → i < length xs
unfolding last_index
last_index-lt c [] i h = cc
last_index-lt c (x ∷ xs) zero h = omega arith
last_index-lt c (x ∷ xs) (suc i) h = ground (arith, last_index-lt c xs i)

-- A dot inside the directory part, or none at all, leaves at least the whole name.
cut_whole :
    (d name : Bytes)
    → length (d ++ name) < 2 ^ 64
    → length name ≤ sub_size (position (last_index dot d)) (length d)
cut_whole d name h = elim (Option-cases (last_index dot d)) [
  | inl e ↦ rw e (omega (arith, length-append d name))
  | inr (i, e) ↦ rw e (omega (arith, length-append d name, last_index-lt dot d i e))
]

-- For a directory part and a name below 2^64 bytes together, where the name is a stem, a dot and an
-- extension with no dot or slash in it, the result is the stem.
pub file_name-strips_ext :
    (d stem ext : Bytes)
    → IsDirPart d
    → Lacks slash stem
    → Lacks slash ext
    → Lacks dot ext
    → length (d ++ (stem ++ dot ∷ ext)) < 2 ^ 64
    → get_file_name_without_ext (d ++ (stem ++ dot ∷ ext)) ≡ some stem
file_name-strips_ext d stem ext isd ls le ld h =
    file_name_lem d (stem ++ dot ∷ ext) isd
      (Lacks-append slash stem (dot ∷ ext) ls ((omega arith), le)) h
    ∙ ap some (
        rw (sym (append_assoc d stem (dot ∷ ext)), last_index-append_Lacks dot (d ++ stem) ext ld)
          (rw cut (take-length-append stem (dot ∷ ext))))
  where
    cut : min (sub_size (length (d ++ stem)) (length d)) (length (stem ++ dot ∷ ext)) ≡ length stem
    cut = omega (
      arith,
      length-append d stem,
      length-append stem (dot ∷ ext),
      length-append d (stem ++ dot ∷ ext),
    )

-- For a directory part and a name below 2^64 bytes together, where the name has no dot and no
-- slash, the result is the whole name, also if the directory part has dots.
pub file_name_without_dot :
    (d name : Bytes)
    → IsDirPart d
    → Lacks slash name
    → Lacks dot name
    → length (d ++ name) < 2 ^ 64
    → get_file_name_without_ext (d ++ name) ≡ some name
file_name_without_dot d name isd ls ld h =
    file_name_lem d name isd ls h
    ∙ ap some (
        rw (last_index-append_left dot d name ld)
          (take_all _ name (omega (arith, cut_whole d name h))))
