-- ===== src/Journal/Reader/Log.antt =====
-- What a log holds and what a replay of it has to do, stated without the scanner: each record is its
-- operation and sequence, and gives one call of the callback for each primitive operation.
use artisan.Prelude.{ℕ, ◌+◌, ◌%◌, ◌^◌, ◌≡◌, refl, sym, ◌∙◌, Option, List, [], ◌∷◌, ◌++◌, length}
use artisan.Errors.{Outcome, ok, err, panic, out_of_fuel, ◌>>=◌, map_err}
use artisan.Journal.Record.{Platform, Primitive, WalOp, primitive, batch}
use artisan.Journal.Wire.{U32, U64, record_wire}
use artisan.Journal.Decode.{decode_body}
use artisan.Journal.Reader.{Callback, patch_offset, highest, deliver_batch, deliver}

-- A record of the log.
pub record Logged : Type 0 where
  pub op : WalOp
  pub seq : ℕ
  pub ty : ℕ
  pub body : List ℕ

-- The record was written for its operation.
abbrev pub IsLogged : Platform → Logged → Type 0
IsLogged c r = U64 r.seq × U32 (length r.body) × (decode_body c r.ty r.body ≡ ok r.op)

abbrev pub logged_wire : Platform → Logged → List ℕ
logged_wire c r = record_wire c r.seq r.ty r.body

abbrev pub log_wire : Platform → List Logged → List ℕ
log_wire c [] = []
log_wire c (r ∷ rs) = logged_wire c r ++ log_wire c rs

-- The front of a record that was being written when the system stopped, possibly nothing of it.
abbrev pub IsFront : Platform → List ℕ → Type 0
IsFront c torn =
    (seq ty : ℕ) × (body : List ℕ) × (x : ℕ) × (back : List ℕ) × U32 (length body)
    × (record_wire c seq ty body ≡ torn ++ (x ∷ back))

-- One call of the callback.
pub record Delivery : Type 0 where
  pub op : Primitive
  pub seq : ℕ
  pub offset : ℕ

abbrev pub batch_deliveries : ℕ → ℕ → ℕ → List Primitive → List Delivery
batch_deliveries base i offset [] = []
batch_deliveries base i offset (p ∷ ps) =
    record { op = p; seq = (base + i) % 2 ^ 64; offset = offset }
    ∷ batch_deliveries base (i + 1) offset ps

abbrev pub op_deliveries : WalOp → ℕ → ℕ → List Delivery
op_deliveries (primitive p) seq offset = record { op = p; seq = seq; offset = offset } ∷ []
op_deliveries (batch ps) seq offset = batch_deliveries seq 0 offset ps

-- The calls for a log that starts at a byte of the file.
abbrev pub deliveries : List Logged → ℕ → List Delivery
deliveries [] offset = []
deliveries (r ∷ rs) offset =
    op_deliveries r.op r.seq offset ++ deliveries rs (offset + (17 + length r.body + 4))

-- The callback on each in turn; an error of a call ends the run, at the offset of its record.
module _ {S : Type 0} (callback : Callback S) where
  unfoldable pub run : List Delivery → S → Outcome S
  run [] s = ok s
  run (d ∷ ds) s =
      map_err (λ e. patch_offset e d.offset) (callback s d.op d.seq d.offset) >>= run ds

abbrev pub highest_of : Option ℕ → List Delivery → Option ℕ
highest_of high [] = high
highest_of high (d ∷ ds) = highest_of (highest high d.seq) ds

pub bind_assoc {ℓ κ μ} :
    {A : Type ℓ} {B : Type κ} {C : Type μ} (m : Outcome A) (f : A → Outcome B) (g : B → Outcome C)
    → ((m >>= f) >>= g) ≡ (m >>= λ a. f a >>= g)
bind_assoc (ok a) f g = refl
bind_assoc (err e) f g = refl
bind_assoc panic f g = refl
bind_assoc out_of_fuel f g = refl

pub bind_ext {ℓ κ} :
    {A : Type ℓ} {B : Type κ} (m : Outcome A) (f g : A → Outcome B)
    → ((a : A) → f a ≡ g a)
    → (m >>= f) ≡ (m >>= g)
bind_ext (ok a) f g h = h a
bind_ext (err e) f g h = refl
bind_ext panic f g h = refl
bind_ext out_of_fuel f g h = refl

module _ {S : Type 0} (callback : Callback S) where
  pub run-append :
      (ds es : List Delivery) (s : S)
      → run callback (ds ++ es) s ≡ (run callback ds s >>= run callback es)
  unfolding run
  run-append [] es s = refl
  run-append (d ∷ ds) es s =
      bind_ext _ _ _ (run-append ds es) ∙ sym (bind_assoc _ (run callback ds) (run callback es))

  deliver_batch-run :
      (base i offset : ℕ) (ps : List Primitive) (s : S) (high : Option ℕ)
      → deliver_batch callback base i offset ps s high ≡ (
          run callback (batch_deliveries base i offset ps) s >>= λ s'.
          ok (s', highest_of high (batch_deliveries base i offset ps)))
  unfolding deliver_batch run
  deliver_batch-run base i offset [] s high = refl
  deliver_batch-run base i offset (p ∷ ps) s high =
      bind_ext _ _ _
        (λ s'. deliver_batch-run base (i + 1) offset ps s' (highest high ((base + i) % 2 ^ 64)))
      ∙ sym (bind_assoc _ (run callback (batch_deliveries base (i + 1) offset ps)) _)

  pub deliver-run :
      (op : WalOp) (seq offset : ℕ) (s : S) (high : Option ℕ)
      → deliver callback op seq offset s high ≡ (
          run callback (op_deliveries op seq offset) s >>= λ s'.
          ok (s', highest_of high (op_deliveries op seq offset)))
  unfolding deliver run
  deliver-run (primitive p) seq offset s high =
      let m : Outcome S = map_err (λ e. patch_offset e offset) (callback s p seq offset) in
      sym (bind_assoc {C = S × Option ℕ} m ok (λ s'. ok (s', highest high seq)))
  deliver-run (batch ps) seq offset s high = deliver_batch-run seq 0 offset ps s high

pub highest_of-append :
    (high : Option ℕ) (ds es : List Delivery)
    → highest_of high (ds ++ es) ≡ highest_of (highest_of high ds) es
highest_of-append high [] es = refl
highest_of-append high (d ∷ ds) es = highest_of-append (highest high d.seq) ds es
