-- ===== src/Prelude/Lists.antt =====
-- Lists measured and cut by native numbers, under the library's names.
use Prim.Native.Nat.{ℕ, zero, suc, ◌+◌, ◌-◌, ◌≤◌, min}
use mathlib.Core.Path.{◌≡◌, refl, sym, ap, ◌∙◌}
use mathlib.Core.List.{List, [], ◌∷◌, ◌++◌, append_assoc}
use mathlib.Core.Option.{Option, none, some}
use native.Mathlib.Omega.{arith}

module _ {ℓ} {A : Type ℓ} where
  abbrev pub length : List A → ℕ
  length [] = 0
  length (x ∷ xs) = suc (length xs)

  abbrev pub get_elem? : List A → ℕ → Option A
  get_elem? [] i = none
  get_elem? (x ∷ xs) zero = some x
  get_elem? (x ∷ xs) (suc i) = get_elem? xs i

  abbrev pub get_or : List A → ℕ → A → A
  get_or [] i d = d
  get_or (x ∷ xs) zero d = x
  get_or (x ∷ xs) (suc i) d = get_or xs i d

  -- A write out of bounds changes nothing.
  abbrev pub set : List A → ℕ → A → List A
  set [] i v = []
  set (x ∷ xs) zero v = v ∷ xs
  set (x ∷ xs) (suc i) v = x ∷ set xs i v

  abbrev pub take : ℕ → List A → List A
  take zero xs = []
  take (suc n) [] = []
  take (suc n) (x ∷ xs) = x ∷ take n xs

  abbrev pub drop : ℕ → List A → List A
  drop zero xs = xs
  drop (suc n) [] = []
  drop (suc n) (x ∷ xs) = drop n xs

  abbrev pub replicate : ℕ → A → List A
  replicate zero a = []
  replicate (suc n) a = a ∷ replicate n a

  abbrev pub All {κ} : (A → Type κ) → List A → Type κ
  All P [] = Unit {κ}
  All P (x ∷ xs) = P x × All P xs

  -- `xs[i..j]`
  abbrev pub slice : ℕ → ℕ → List A → List A
  slice i j xs = take (j - i) (drop i xs)

  -- `xs[pos..pos + src.len()].copy_from_slice(src)`
  abbrev pub copy_at : ℕ → List A → List A → List A
  copy_at pos src xs = take pos xs ++ (src ++ drop (pos + length src) xs)

module _ {ℓ} {A : Type ℓ} where
  pub length-append : (xs ys : List A) → length (xs ++ ys) ≡ length xs + length ys
  length-append [] ys = omega arith
  length-append (x ∷ xs) ys = omega (arith, length-append xs ys)

  pub take-append : (xs ys : List A) → take (length xs) (xs ++ ys) ≡ xs
  take-append [] ys = refl
  take-append (x ∷ xs) ys = ap (λ t. x ∷ t) (take-append xs ys)

  pub drop-append : (xs ys : List A) → drop (length xs) (xs ++ ys) ≡ ys
  drop-append [] ys = refl
  drop-append (x ∷ xs) ys = drop-append xs ys

  pub take-append_of_eq : (n : ℕ) (xs ys : List A) → n ≡ length xs → take n (xs ++ ys) ≡ xs
  take-append_of_eq n xs ys e = rw e (take-append xs ys)

  pub drop-append_of_eq : (n : ℕ) (xs ys : List A) → n ≡ length xs → drop n (xs ++ ys) ≡ ys
  drop-append_of_eq n xs ys e = rw e (drop-append xs ys)

  pub take_of_length-le : (n : ℕ) (xs : List A) → length xs ≤ n → take n xs ≡ xs
  take_of_length-le zero [] h = refl
  take_of_length-le zero (x ∷ xs) h = absurd (omega arith)
  take_of_length-le (suc n) [] h = refl
  take_of_length-le (suc n) (x ∷ xs) h = ap (λ t. x ∷ t) (take_of_length-le n xs (omega arith))

  pub drop_of_length-le : (n : ℕ) (xs : List A) → length xs ≤ n → drop n xs ≡ []
  drop_of_length-le zero [] h = refl
  drop_of_length-le zero (x ∷ xs) h = absurd (omega arith)
  drop_of_length-le (suc n) [] h = refl
  drop_of_length-le (suc n) (x ∷ xs) h = drop_of_length-le n xs (omega arith)

  -- A cut inside the front does not see what follows the front.
  pub take_front : (n : ℕ) (xs ys : List A) → n ≤ length xs → take n (xs ++ ys) ≡ take n xs
  take_front zero xs ys h = refl
  take_front (suc n) [] ys h = absurd (omega arith)
  take_front (suc n) (x ∷ xs) ys h = ap (λ t. x ∷ t) (take_front n xs ys (omega arith))

  pub slice_front :
      (i j : ℕ) (xs ys : List A) → j ≤ length xs → i ≤ j → slice i j (xs ++ ys) ≡ slice i j xs
  slice_front zero j xs ys h k = take_front (j - 0) xs ys (omega arith)
  slice_front (suc i) j [] ys h k = absurd (omega arith)
  slice_front (suc i) zero (x ∷ xs) ys h k = absurd (omega arith)
  slice_front (suc i) (suc j) (x ∷ xs) ys h k =
      let e : suc j - suc i ≡ j - i = omega arith in
      rw e (slice_front i j xs ys (omega arith) (omega arith))

  pub take-append-drop : (n : ℕ) (xs : List A) → take n xs ++ drop n xs ≡ xs
  take-append-drop zero xs = refl
  take-append-drop (suc n) [] = refl
  take-append-drop (suc n) (x ∷ xs) = ap (λ t. x ∷ t) (take-append-drop n xs)

  pub take-take : (n m : ℕ) (xs : List A) → n ≤ m → take n (take m xs) ≡ take n xs
  take-take zero m xs h = refl
  take-take (suc n) zero xs h = absurd (omega arith)
  take-take (suc n) (suc m) [] h = refl
  take-take (suc n) (suc m) (x ∷ xs) h = ap (λ t. x ∷ t) (take-take n m xs (omega arith))

  pub take-drop-take :
      (n i m : ℕ) (xs : List A) → n + i ≤ m → take n (drop i (take m xs)) ≡ take n (drop i xs)
  take-drop-take n zero m xs h = take-take n m xs (omega arith)
  take-drop-take n (suc i) zero xs h = absurd (omega arith)
  take-drop-take n (suc i) (suc m) [] h = refl
  take-drop-take n (suc i) (suc m) (x ∷ xs) h = take-drop-take n i m xs (omega arith)

  pub drop-drop : (i j : ℕ) (xs : List A) → drop i (drop j xs) ≡ drop (j + i) xs
  drop-drop i zero xs = ap (λ n. drop n xs) (omega arith)
  drop-drop i (suc j) [] =
      drop_of_length-le i [] (omega arith) ∙ sym (drop_of_length-le (suc j + i) [] (omega arith))
  drop-drop i (suc j) (x ∷ xs) =
      let n : suc (j + i) ≡ suc j + i = omega arith in
      drop-drop i j xs ∙ ap (λ m. drop m (x ∷ xs)) n

  pub length-take : (n : ℕ) (xs : List A) → length (take n xs) ≡ min n (length xs)
  length-take zero xs = omega arith
  length-take (suc n) [] = omega arith
  length-take (suc n) (x ∷ xs) = omega (arith, length-take n xs)

  pub length-drop : (n : ℕ) (xs : List A) → length (drop n xs) ≡ length xs - n
  length-drop zero xs = omega arith
  length-drop (suc n) [] = omega arith
  length-drop (suc n) (x ∷ xs) = omega (arith, length-drop n xs)

  pub length-set : (xs : List A) (i : ℕ) (v : A) → length (set xs i v) ≡ length xs
  length-set [] i v = refl
  length-set (x ∷ xs) zero v = refl
  length-set (x ∷ xs) (suc i) v = ap suc (length-set xs i v)

  pub slice-append :
      (xs ys : List A) (n : ℕ) → n ≡ length (xs ++ ys) → slice (length xs) n (xs ++ ys) ≡ ys
  slice-append xs ys n e =
      rw drop-append (take_of_length-le (n - length xs) ys (omega (arith, length-append xs ys)))

  -- A patch of the middle part, which has the length of what replaces it.
  pub copy_at-append :
      (pos : ℕ) (src xs old ys : List A)
      → pos ≡ length xs
      → length old ≡ length src
      → copy_at pos src (xs ++ (old ++ ys)) ≡ xs ++ (src ++ ys)
  copy_at-append pos src xs old ys e f = rw e (
      rw take-append (
        ap (λ t. xs ++ (src ++ t))
          (ap (λ k. drop k (xs ++ (old ++ ys))) {x = length xs + length src}
              (omega (arith, length-append xs old))
            ∙ ap (drop (length (xs ++ old))) (sym (append_assoc xs old ys))
            ∙ drop-append (xs ++ old) ys)))
