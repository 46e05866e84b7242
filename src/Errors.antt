-- ===== src/Errors.antt =====
-- api/errors.rs and the outcome of fallible code. `Outcome` is Rust's `Result<T, Error>` with two
-- more cases: a panic (`expect`, `assert!`, an index out of bounds), and the end of the fuel of a
-- modelled loop, which is no behaviour of the program.
use artisan.Prelude.{if◌then◌else◌, ℕ, ◌^◌, ◌<◌, ◌≡◌, Bool, true, false, Option, String, arith}
use artisan.Prelude.{ltb, refl}

-- `store::blob_frame::AllocError`
pub data AllocError : Type 0 where
  out_of_slots : AllocError
  out_of_space : (need avail : ℕ) → AllocError
  invalid_request : AllocError

-- `store::blob_frame::FreeError`
pub data FreeError : Type 0 where
  invalid_slot : (slot : ℕ) → FreeError
  type_mismatch : (slot tag : ℕ) → FreeError

-- `Error`. An OS error is its number, and a blob guid the number of its 16 bytes.
pub data Error : Type 0 where
  blob_store_io : (os_error : ℕ) → Error
  alloc : AllocError → Error
  free : FreeError → Error
  key_too_long : (len : ℕ) → Error
  value_too_long : (len : ℕ) → Error
  not_yet_implemented : (what : String) → Error
  internal : (what : String) → Error
  node_corrupt : (context : String) (blob_guid : Option ℕ) (slot : Option ℕ) → Error
  replay_sanity_failed : (context : String) (record_offset : ℕ) → Error
  not_found : Error
  dst_exists : Error
  tree_not_found : (name : String) → Error
  tree_exists : (name : String) → Error
  invalid_tree_name : (reason : String) → Error
  tree_dropped : Error
  outside_view_scope : (requested_len scope_len : ℕ) → Error

pub data Outcome {ℓ} (A : Type ℓ) : Type ℓ where
  ok : A → Outcome A
  err : Error → Outcome A
  panic : Outcome A
  out_of_fuel : Outcome A

infixl 5 ◌>>=◌ ◌>>◌
abbrev pub ◌>>=◌ {ℓ κ} : {A : Type ℓ} {B : Type κ} → Outcome A → (A → Outcome B) → Outcome B
ok a >>= f = f a
err e >>= f = err e
panic >>= f = panic
out_of_fuel >>= f = out_of_fuel

abbrev pub ◌>>◌ {ℓ} : {B : Type ℓ} → Outcome (Unit {0}) → Outcome B → Outcome B
m >> k = m >>= λ _. k

-- `map_err`
abbrev pub map_err {ℓ} : {A : Type ℓ} → (Error → Error) → Outcome A → Outcome A
map_err f (ok a) = ok a
map_err f (err e) = err (f e)
map_err f panic = panic
map_err f out_of_fuel = out_of_fuel

-- `match m { Ok(a) => f(a), Err(e) => g(e) }`
abbrev pub match_result {ℓ κ} :
    {A : Type ℓ} {B : Type κ} → Outcome A → (A → Outcome B) → (Error → Outcome B) → Outcome B
match_result (ok a) f g = f a
match_result (err e) f g = g e
match_result panic f g = panic
match_result out_of_fuel f g = out_of_fuel

-- `u32::try_from(n).expect(…)`
unfoldable pub to_u32 : ℕ → Outcome ℕ
to_u32 n = elim (ltb n (2 ^ 32)) [ true ↦ ok n | false ↦ panic ]

pub to_u32_ok : (n : ℕ) → n < 2 ^ 32 → to_u32 n ≡ ok n
unfolding to_u32
to_u32_ok n h = ground arith

-- The code answers, by a value with `P` or by an error: it does not panic, and its fuel is enough.
pub data Post {A : Type 0} (P : A → Type 0) : Outcome A → Type 0 where
  good : {a : A} → P a → Post P (ok a)
  bad : {e : Error} → Post P (err e)

module _ {A B : Type 0} {P : A → Type 0} {Q : B → Type 0} where
  pub Post-bind :
      {m : Outcome A} {f : A → Outcome B}
      → Post P m
      → ((a : A) → P a → Post Q (f a))
      → Post Q (m >>= f)
  Post-bind (good {a = a} h) k = k a h
  Post-bind bad k = bad

  pub Post-match_result :
      {m : Outcome A} {f : A → Outcome B} {g : Error → Outcome B}
      → Post P m
      → ((a : A) → P a → Post Q (f a))
      → ((e : Error) → Post Q (g e))
      → Post Q (match_result m f g)
  Post-match_result (good {a = a} h) k l = k a h
  Post-match_result (bad {e = e}) k l = l e

module _ {A : Type 0} {P Q : A → Type 0} where
  pub Post-weaken : {m : Outcome A} → Post P m → ((a : A) → P a → Q a) → Post Q m
  Post-weaken (good {a = a} h) k = good (k a h)
  Post-weaken bad k = bad

module _ {A : Type 0} {P : A → Type 0} where
  pub Post-if :
      {b : Bool} {m n : Outcome A}
      → (b ≡ true → Post P m)
      → (b ≡ false → Post P n)
      → Post P (if b then m else n)
  Post-if {b = true} hm hn = hm refl
  Post-if {b = false} hm hn = hn refl

-- The code answers, by a value with `P` or by an error with `E`.
pub data Returns {A : Type 0} (P : A → Type 0) (E : Error → Type 0) : Outcome A → Type 0 where
  returned : {a : A} → P a → Returns P E (ok a)
  refused : {e : Error} → E e → Returns P E (err e)

module _ {A B : Type 0} {P : A → Type 0} {Q : B → Type 0} {E : Error → Type 0} where
  pub Returns-bind :
      {m : Outcome A} {f : A → Outcome B}
      → Returns P E m
      → ((a : A) → P a → Returns Q E (f a))
      → Returns Q E (m >>= f)
  Returns-bind (returned {a = a} h) k = k a h
  Returns-bind (refused h) k = refused h

module _ {A : Type 0} {P : A → Type 0} {E : Error → Type 0} where
  pub Returns-if :
      {b : Bool} {m n : Outcome A}
      → (b ≡ true → Returns P E m)
      → (b ≡ false → Returns P E n)
      → Returns P E (if b then m else n)
  Returns-if {b = true} hm hn = hm refl
  Returns-if {b = false} hm hn = hn refl

-- The value is the one that the code returns.
pub Returns-value :
    {A : Type 0} {P : A → Type 0} {E : Error → Type 0} {m : Outcome A}
    → Returns P E m
    → Returns (λ a. P a × (m ≡ ok a)) E m
Returns-value (returned h) = returned (h, refl)
Returns-value (refused h) = refused h

module _ {A : Type 0} {P Q : A → Type 0} {E : Error → Type 0} where
  pub Returns-weaken : {m : Outcome A} → Returns P E m → ((a : A) → P a → Q a) → Returns Q E m
  Returns-weaken (returned {a = a} h) k = returned (k a h)
  Returns-weaken (refused h) k = refused h
