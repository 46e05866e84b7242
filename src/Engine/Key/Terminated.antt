-- ===== src/Engine/Key/Terminated.antt =====
-- A key whose terminator is virtual reads like its bytes with the terminator behind them.
use artisan.Prelude.{
  ℕ, zero, suc, ◌+◌, ◌-◌, ◌≤◌, ◌<◌, ◌≡◌, ◌≢◌, refl, sym, Bool, true, false, ◌&&◌, List, [], ◌∷◌,
  ◌++◌, ltb, leb, ◌==◌, tests, if◌then◌else◌, length, take, drop, get_elem?, get_or, arith,
  Bool-cases, inl, inr, length-append, drop-append, drop_of_length-le, length-drop,
}
use artisan.Engine.Key.{
  longest_common_prefix, byte_at, eq_slice, range_eq, common_tail, common_prefix_with_slice, user,
}

abbrev pub same : List ℕ → List ℕ → Bool
same [] [] = true
same [] (y ∷ ys) = false
same (x ∷ xs) [] = false
same (x ∷ xs) (y ∷ ys) = (x == y) && same xs ys

abbrev pub starts : List ℕ → List ℕ → Bool
starts [] xs = true
starts (o ∷ os) [] = false
starts (o ∷ os) (x ∷ xs) = (x == o) && starts os xs

pub same_self : (xs : List ℕ) → same xs xs ≡ true
same_self [] = refl
same_self (x ∷ xs) = ground (arith, same_self xs)

pub same_eq : (xs ys : List ℕ) → same xs ys ≡ true → xs ≡ ys
same_eq [] [] h = refl
same_eq [] (y ∷ ys) h = absurd (cc h)
same_eq (x ∷ xs) [] h = absurd (cc h)
same_eq (x ∷ xs) (y ∷ ys) h = ground (arith, same_eq xs ys)

-- The stored form of a user key.
abbrev pub full : List ℕ → List ℕ
full bytes = bytes ++ (0 ∷ [])

pub byte_at-full : (bytes : List ℕ) (i : ℕ) → byte_at (user bytes) i ≡ get_elem? (full bytes) i
unfolding byte_at
byte_at-full [] zero = ground arith
byte_at-full [] (suc i) = ground arith
byte_at-full (b ∷ bytes) zero = ground arith
byte_at-full (b ∷ bytes) (suc i) = ground (arith, byte_at-full bytes i)

-- The bytes against the tail `w` of a key.
whole_tail :
    (w other : List ℕ)
    → length other ≡ length w + 1
    → ((longest_common_prefix w (take (length w) other) == length w)
        && (get_or other (length w) 0 == 0))
      ≡ same (w ++ (0 ∷ [])) other
whole_tail [] [] h = absurd (omega arith)
whole_tail [] (o ∷ []) h = ground arith
whole_tail [] (o ∷ p ∷ os) h = absurd (omega arith)
whole_tail (x ∷ w) [] h = absurd (omega arith)
whole_tail (x ∷ w) (o ∷ os) h = ground (arith, whole_tail w os)

inner_tail :
    (w other z : List ℕ)
    → length other ≤ length w
    → (longest_common_prefix (take (length other) w) other == length other) ≡ starts other (w ++ z)
inner_tail w [] z h = ground arith
inner_tail [] (o ∷ os) z h = absurd (omega arith)
inner_tail (x ∷ w) (o ∷ os) z h = ground (arith, inner_tail w os z)

tail_common :
    (w other : List ℕ) → common_tail true w other ≡ longest_common_prefix (w ++ (0 ∷ [])) other
tail_common [] [] = ground arith
tail_common [] (o ∷ os) = ground arith
tail_common (x ∷ w) [] = ground arith
tail_common (x ∷ w) (o ∷ os) = ground (arith, tail_common w os)

-- What stands behind `depth`.
pub drop-full :
    (bytes : List ℕ) (d : ℕ) → d ≤ length bytes → drop d (full bytes) ≡ drop d bytes ++ (0 ∷ [])
drop-full bytes zero h = refl
drop-full [] (suc d) h = absurd (omega arith)
drop-full (b ∷ bytes) (suc d) h = drop-full bytes d (omega arith)

same-length : (xs ys : List ℕ) → length xs ≢ length ys → same xs ys ≡ false
same-length [] [] n = absurd (n refl)
same-length [] (y ∷ ys) n = refl
same-length (x ∷ xs) [] n = refl
same-length (x ∷ xs) (y ∷ ys) n = ground (arith, same-length xs ys)

common_nil : (xs : List ℕ) → longest_common_prefix xs [] ≡ 0
common_nil [] = refl
common_nil (x ∷ xs) = refl

drop_end : (bytes : List ℕ) → drop (length bytes) (full bytes) ≡ 0 ∷ []
drop_end bytes = drop-append bytes (0 ∷ [])

pub eq_slice-full : (bytes other : List ℕ) → eq_slice (user bytes) other ≡ same (full bytes) other
unfolding eq_slice
eq_slice-full bytes other =
    ground
      (arith, whole_tail bytes other, same-length (full bytes) other, length-append bytes (0 ∷ []))

pub common_prefix_with_slice-full :
    (bytes other : List ℕ) (d : ℕ)
    → common_prefix_with_slice (user bytes) d other
      ≡ longest_common_prefix (drop d (full bytes)) other
unfolding common_prefix_with_slice
common_prefix_with_slice-full bytes [] d = sym (common_nil (drop d (full bytes)))
common_prefix_with_slice-full bytes (o ∷ os) d = elim (Bool-cases (leb (length bytes + 1) d)) [
  | inl past ↦
      rw (past, drop_of_length-le d (full bytes) (ground (arith, length-append bytes (0 ∷ []))))
        refl
  | inr more ↦ elim (Bool-cases (ltb d (length bytes))) [
    | inl inside ↦
        rw (more, inside, drop-full bytes d (ground arith)) (tail_common (drop d bytes) (o ∷ os))
    | inr last ↦
        let e : d ≡ length bytes = ground arith in rw (more, last, e, drop_end bytes) (ground arith)
  ]
]

starts_same : (other xs : List ℕ) → length other ≡ length xs → starts other xs ≡ same xs other
starts_same [] [] h = refl
starts_same [] (x ∷ xs) h = absurd (omega arith)
starts_same (o ∷ os) [] h = absurd (omega arith)
starts_same (o ∷ os) (x ∷ xs) h = ground (arith, starts_same os xs)

starts_long : (other xs : List ℕ) → length xs < length other → starts other xs ≡ false
starts_long [] xs h = absurd (omega arith)
starts_long (o ∷ os) [] h = refl
starts_long (o ∷ os) (x ∷ xs) h = ground (arith, starts_long os xs)

starts_nil : (os : List ℕ) → starts os [] ≡ (length os == 0)
starts_nil [] = ground arith
starts_nil (o ∷ os) = ground arith

-- The three ways in which `range_eq` compares with the tail `w` that stands behind the depth.
tail_range :
    (w : List ℕ) (o : ℕ) (os : List ℕ)
    → (if ltb (length w + 1) (length (o ∷ os))
        then false
        else if leb (length (o ∷ os)) (length w)
        then longest_common_prefix (take (length (o ∷ os)) w) (o ∷ os) == length (o ∷ os)
        else longest_common_prefix w (take (length w) (o ∷ os)) == length w
          && get_or (o ∷ os) (length w) 0 == 0)
      ≡ starts (o ∷ os) (w ++ (0 ∷ []))
tail_range w o os = ground (
  arith,
  inner_tail w (o ∷ os) (0 ∷ []),
  whole_tail w (o ∷ os),
  starts_same (o ∷ os) (w ++ (0 ∷ [])),
  starts_long (o ∷ os) (w ++ (0 ∷ [])),
  length-append w (0 ∷ []),
)

pub range_eq-full :
    (bytes other : List ℕ) (d : ℕ)
    → d ≤ length (full bytes)
    → range_eq (user bytes) d other ≡ starts other (drop d (full bytes))
unfolding range_eq
range_eq-full bytes [] d h = ground (arith, length-append bytes (0 ∷ []))
range_eq-full bytes (o ∷ os) d h = elim (Bool-cases (ltb d (length bytes))) [
  | inl inside ↦
      let n : d + suc (length os) - d ≡ suc (length os) = omega arith in
      let l : length (drop d bytes) ≡ length bytes - d = length-drop d bytes in
      rw (drop-full bytes d (ground arith), n) (ground (arith, tail_range (drop d bytes) o os))
  | inr last ↦ elim (Bool-cases (d == length bytes)) [
    | inl e ↦
        let i : d ≡ length bytes = grind tests in
        let k : drop d (full bytes) ≡ 0 ∷ [] = rw i (drop_end bytes) in
        rw k (ground (arith, starts_nil os))
    | inr past ↦
        let i : d ≡ length (full bytes) = ground (arith, length-append bytes (0 ∷ [])) in
        rw (drop_of_length-le d (full bytes) (omega arith))
          (ground (arith, length-append bytes (0 ∷ [])))
  ]
]
