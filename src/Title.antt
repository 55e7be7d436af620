-- ===== src/Title.antt =====
-- mpic/title.cc, on Linux: the process title is written over the argument strings, after the
-- environment strings that follow them have been moved away. Memory is a function from addresses
-- to bytes; `argv` and `environ` are the pointers of the two arrays, without the NULL at their end.
pub mod Writing
pub mod Reading
pub mod Placing
pub mod Moving
pub mod Keeping
use mpic.Prelude.{
  ℕ, zero, suc, ◌+◌, ◌-◌, ◌^◌, Bool, true, false, ◌&&◌, Option, none, some, List, [], ◌∷◌, ◌++◌,
  Bytes, c_str, ltb, leb, ◌==◌, if◌then◌else◌, length, take, replicate, get_or,
}
use Prim.Native.Nat.{min}

abbrev pub Memory : Type 0
Memory = ℕ → ℕ

-- `attached` is whether `g_argv` is set, and a `g_last` of 0 is NULL.
pub record Title : Type 0 where
  pub mem : Memory
  pub argv : List ℕ
  pub environ : List ℕ
  pub attached : Bool
  pub g_last : ℕ

-- The C string at an address; `n` bounds its length.
pub read_str : ℕ → Memory → ℕ → Bytes
read_str zero mem p = []
read_str (suc n) mem p = elim (mem p) [ zero ↦ [] | suc c ↦ suc c ∷ read_str n mem (p + 1) ]

abbrev pub address_space : ℕ
address_space = 2 ^ 64

unfoldable pub strlen : Memory → ℕ → ℕ
unfolding read_str
strlen mem p = length (read_str address_space mem p)

-- The bytes `bs`, stored from `p` on.
pub write : Memory → ℕ → Bytes → Memory
write mem p bs a = if leb p a && ltb a (p + length bs) then get_or bs (a - p) 0 else mem a

-- What `strncpy(p, s, n)` stores: the string, cut or filled up with zeros to `n` bytes.
abbrev pub padded : ℕ → Bytes → Bytes
padded n s = take n s ++ replicate (n - length s) 0

-- The first loop of `Init`.
pub sum_sizes : Memory → List ℕ → ℕ
unfolding strlen
sum_sizes mem [] = 0
sum_sizes mem (e ∷ es) = strlen mem e + 1 + sum_sizes mem es

pub env_size : Title → ℕ
unfolding sum_sizes
env_size t = sum_sizes t.mem t.environ

-- The second loop: `g_last` goes on while the strings lie one behind the other.
pub walk_argv : Memory → List ℕ → ℕ → ℕ
walk_argv mem [] last = last
walk_argv mem (a ∷ rest) last =
    walk_argv mem rest (if last == a then a + strlen mem a + 1 else last)

-- The third loop: an adjacent string of the environment is copied to `p`.
pub record Moved : Type 0 where
  pub mem : Memory
  pub environ : List ℕ
  pub last : ℕ
  pub free : ℕ

-- One string, with the results of the loop so far; `environ` is built from its end.
pub move_one : Moved → ℕ → Moved
move_one w e =
    let size = strlen w.mem e + 1 in
    if w.last == e
    then record {
      mem = write w.mem w.free (padded size (read_str address_space w.mem e));
      environ = w.environ ++ (w.free ∷ []);
      last = e + size;
      free = w.free + size;
    }
    else record w { environ = w.environ ++ (e ∷ []) }

pub walk_env : Moved → List ℕ → Moved
unfolding move_one
walk_env w [] = w
walk_env w (e ∷ es) = walk_env (move_one w e) es

abbrev pub first : List ℕ → ℕ
first [] = 0
first (a ∷ _) = a

-- `Init` with the address that `malloc` gave. `g_last--` wraps at 0.
pub init : ℕ → Title → Bool × Title
unfolding walk_argv walk_env
init p t =
    let set : Title = record t { attached = true } in
    if p == 0
    then (false, set)
    else let last = walk_argv t.mem t.argv (first t.argv) in
      let w = walk_env (record { mem = t.mem; environ = []; last = last; free = p }) t.environ in
      (
        true,
        record set {
          mem = w.mem;
          environ = w.environ;
          g_last = if w.last == 0 then address_space - 1 else w.last - 1;
        },
      )

-- `Set` after its first line. `none` is a fault: with `g_last` before `argv[0]` the length wraps to
-- nearly all of the address space.
pub overwrite : ℕ → Bytes → Title → Option Title
overwrite start text t =
    let n = t.g_last - start in
    let p = start + min (length text) n in
    if ltb t.g_last start
    then none
    else some (record t {
      mem = write (write t.mem start (padded n (c_str text))) p (replicate (t.g_last - p) 0);
    })

-- `Set`; `g_argv[1] = NULL` ends the array after its first pointer.
pub set : Bytes → Title → Option Title
unfolding overwrite
set text t = elim t.argv [
  | [] ↦ none
  | start ∷ _ ↦ overwrite start text (record t { argv = start ∷ [] })
]
