-- ===== src/FileUtil.antt =====
-- mpic/internal/file_util.cc, on Linux.
pub mod BaseName
pub mod Stem
use mpic.Prelude.{
  is_zero, ℕ, zero, suc, ◌+◌, ◌-◌, ◌%◌, ◌^◌, ◌≡◌, Bool, true, false, Option, none, some, List, [],
  ◌∷◌, ℤ, pos, negsuc, Bytes, ◌==◌, ltb, if◌then◌else◌, length, take, drop,
}
use Prim.Native.Nat.{min}
use mpic.Prelude.State.{◌>>=◌, pure, abort}
use mpic.Os.{Os, file_exists, file_readable}
use mpic.Os.Machine.{M, sys, stat, realpath}

abbrev pub slash : ℕ
slash = b'/'

abbrev pub dot : ℕ
dot = b'.'

-- The index that `std::string::find_last_of` finds for one byte.
unfoldable pub last_index : ℕ → Bytes → Option ℕ
last_index c [] = none
last_index c (x ∷ xs) = elim (last_index c xs) [
  | none ↦ if x == c then some 0 else none
  | some i ↦ some (suc i)
]

-- `std::string::npos`, and the arithmetic of `size_t`.
abbrev pub npos : ℕ
npos = 2 ^ 64 - 1

abbrev pub position : Option ℕ → ℕ
position none = npos
position (some i) = i

abbrev pub sub_size : ℕ → ℕ → ℕ
sub_size a b = (a + 2 ^ 64 - b) % 2 ^ 64

-- `std::string::substr`, which throws `out_of_range` past the end.
pub substr : Bytes → ℕ → ℕ → Option Bytes
substr s start n =
    if ltb (length s) start then none else some (take (min n (length s - start)) (drop start s))

-- `iStart`, one past the last slash.
pub name_start : Bytes → ℕ
name_start path =
    let i = position (last_index slash path) in if i == npos then 0 else (i + 1) % 2 ^ 64

pub get_file_name_without_ext : Bytes → Option Bytes
get_file_name_without_ext path =
    let start = name_start path in
    substr path start (sub_size (position (last_index dot path)) start)

module _ (os : Os) where
  unfoldable pub is_file_exist : Bytes → M os Bool
  is_file_exist path = do r ← sys os (file_exists path); pure (is_zero r)

  unfoldable pub is_readable : Bytes → M os Bool
  is_readable path = do r ← sys os (file_readable path); pure (is_zero r)

  unfoldable pub is_dir : Bytes → M os Bool
  is_dir path = do (r, directory) ← stat os path; pure (if is_zero r then directory else false)

  -- A `std::string` made of the NULL that a failed `realpath` gives ends the process.
  unfoldable pub real_path : Bytes → M os Bytes
  real_path [] = abort
  real_path (c ∷ path) = do
    p ← realpath os (c ∷ path)
    elim p [ none ↦ abort | some absolute ↦ pure absolute ]
