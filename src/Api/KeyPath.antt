-- ===== src/Api/KeyPath.antt =====
-- api/key.rs: keys of path segments, and prefixes for scans. A key is its bytes.
pub mod Segments
use artisan.Prelude.{
  ℕ, ◌+◌, Bool, true, false, ◌&&◌, ◌||◌, not, Option, none, some, List, [], ◌∷◌, ◌++◌, ◌==◌,
  if◌then◌else◌, length,
}
use artisan.Engine.Key.Terminated.{same}

pub data KeyPathError : Type 0 where
  empty_segment : KeyPathError
  contains_delimiter : KeyPathError
  contains_nul : KeyPathError
  dot_segment : KeyPathError

pub data Built : Type 0 where
  built : List ℕ → Built
  rejected : KeyPathError → Built

abbrev pub delimiter : ℕ
delimiter = 47

abbrev pub nul : ℕ
nul = 0

abbrev pub contains : ℕ → List ℕ → Bool
contains x [] = false
contains x (b ∷ bytes) = (b == x) || contains x bytes

abbrev pub ends_with : ℕ → List ℕ → Bool
ends_with x [] = false
ends_with x (b ∷ []) = b == x
ends_with x (b ∷ c ∷ bytes) = ends_with x (c ∷ bytes)

unfoldable pub validate_segment : List ℕ → Option KeyPathError
validate_segment segment =
    if length segment == 0
    then some empty_segment
    else if contains delimiter segment
    then some contains_delimiter
    else if contains nul segment
    then some contains_nul
    else if same segment (46 ∷ []) || same segment (46 ∷ 46 ∷ [])
    then some dot_segment
    else none

-- A delimiter behind bytes that do not end in one.
abbrev pub delimited : List ℕ → List ℕ
delimited bytes =
    if not (length bytes == 0) && not (ends_with delimiter bytes)
    then bytes ++ (delimiter ∷ [])
    else bytes

unfoldable pub with_namespace : List ℕ → Built
with_namespace ns = elim (validate_segment ns) [
  | none ↦ built (ns ++ (delimiter ∷ []))
  | some e ↦ rejected e
]

unfoldable pub push : List ℕ → List ℕ → Built
push bytes segment = elim (validate_segment segment) [
  | none ↦ built (delimited bytes ++ segment)
  | some e ↦ rejected e
]

unfoldable pub into_prefix : List ℕ → List ℕ
into_prefix bytes = delimited bytes

abbrev pub and_then : Built → (List ℕ → Built) → Built
and_then (built bytes) f = f bytes
and_then (rejected e) f = rejected e

-- Segments pushed one after the other.
abbrev pub push_all : List ℕ → List (List ℕ) → Built
push_all bytes [] = built bytes
push_all bytes (s ∷ segments) = and_then (push bytes s) (λ bytes'. push_all bytes' segments)
