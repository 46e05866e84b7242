-- ===== src/Engine/Key.antt =====
-- engine/walker/key.rs, and the scalar loop of engine/simd.rs that it compares bytes with.
pub mod Terminated
use artisan.Prelude.{
  ℕ, zero, suc, ◌+◌, ◌-◌, ◌≤◌, Bool, true, false, ◌&&◌, ◌||◌, not, Option, none, some, List, [],
  ◌∷◌, ◌++◌, ltb, leb, ◌==◌, if◌then◌else◌, length, take, drop, slice, get_elem?, get_or,
}

pub record SearchKey : Type 0 where
  pub bytes : List ℕ
  virtual_terminator : Bool

abbrev pub user : List ℕ → SearchKey
user bytes = record { bytes = bytes; virtual_terminator = true }

-- `longest_common_prefix`
abbrev pub longest_common_prefix : List ℕ → List ℕ → ℕ
longest_common_prefix [] ys = 0
longest_common_prefix (x ∷ xs) [] = 0
longest_common_prefix (x ∷ xs) (y ∷ ys) = if x == y then suc (longest_common_prefix xs ys) else 0

abbrev pub key_len : SearchKey → ℕ
key_len k = length k.bytes + (if k.virtual_terminator then 1 else 0)

abbrev pub remaining_len : SearchKey → ℕ → ℕ
remaining_len k depth = key_len k - depth

unfoldable pub byte_at : SearchKey → ℕ → Option ℕ
byte_at k i =
    if ltb i (length k.bytes)
    then some (get_or k.bytes i 0)
    else if k.virtual_terminator && i == length k.bytes
    then some 0
    else none

unfoldable pub eq_slice : SearchKey → List ℕ → Bool
eq_slice k other =
    if not k.virtual_terminator
    then length k.bytes == length other && longest_common_prefix k.bytes other == length k.bytes
    else if not (length other == length k.bytes + 1)
    then false
    else longest_common_prefix k.bytes (take (length k.bytes) other) == length k.bytes
      && get_or other (length k.bytes) 0 == 0

unfoldable pub range_eq : SearchKey → ℕ → List ℕ → Bool
range_eq k depth [] = leb depth (key_len k)
range_eq k depth (o ∷ os) =
    let other = o ∷ os in
    let raw_len = length k.bytes - depth in
    if ltb (remaining_len k depth) (length other)
    then false
    else if not k.virtual_terminator || leb (depth + length other) (length k.bytes)
    then longest_common_prefix (slice depth (depth + length other) k.bytes) other == length other
    else if ltb depth (length k.bytes)
    then longest_common_prefix (drop depth k.bytes) (take raw_len other) == raw_len
      && get_or other raw_len 0 == 0
    else o == 0

-- The tail of the key against bytes that are there.
abbrev pub common_tail : Bool → List ℕ → List ℕ → ℕ
common_tail false raw_tail other = longest_common_prefix raw_tail other
common_tail true raw_tail other =
    let common = longest_common_prefix raw_tail other in
    if ltb common (length raw_tail) || common == length other
    then common
    else common + (if get_or other common 0 == 0 then 1 else 0)

unfoldable pub common_prefix_with_slice : SearchKey → ℕ → List ℕ → ℕ
common_prefix_with_slice k depth [] = 0
common_prefix_with_slice k depth (o ∷ os) =
    if leb (key_len k) depth
    then 0
    else if not k.virtual_terminator || ltb depth (length k.bytes)
    then common_tail k.virtual_terminator (drop depth k.bytes) (o ∷ os)
    else if o == 0
    then 1
    else 0

-- The bytes that a leaf of the key holds: `write_to_slice`.
unfoldable pub padded : SearchKey → List ℕ
padded k = if k.virtual_terminator then k.bytes ++ (0 ∷ []) else k.bytes
