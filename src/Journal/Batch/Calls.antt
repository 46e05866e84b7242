-- ===== src/Journal/Batch/Calls.antt =====
-- A run of calls on a batch encoder, and the state of the encoder between two of them.
use artisan.Prelude.{
  ==_iff, ℕ, suc, ◌+◌, ◌≡◌, refl, sym, ap, ◌∙◌, Bool, true, false, List, [], ◌∷◌, ◌++◌,
  append_assoc, append-nil, arith, ◌==◌, length,
}
use artisan.Errors.{Outcome, ok, ◌>>=◌, to_u32_ok}
use artisan.Journal.Record.{insert, erase, rename_object}
use artisan.Journal.Wire.{
  U32, Piece, single, run, piece_wire, items_wire, inserts, expand, PieceFits, bool_wire,
}
use artisan.Journal.Encode.{bool_byte}
use artisan.Journal.Encode.Appends.{write_bytes_ok}
use artisan.Journal.Batch.{
  BatchEncoder, push_insert, push_items, push_insert_run, push_erase, push_rename_object, counted,
}

-- One call of the encoder.
unfoldable pub push : BatchEncoder → Piece → Outcome BatchEncoder
push e (single (insert t k v)) = push_insert e t k v
push e (single (erase t k)) = push_erase e t k
push e (single (rename_object t s d f)) = push_rename_object e t s d f
push e (run t kl vl items) = push_insert_run e t (length items) kl vl items

-- The calls that a caller makes between `begin` and `finish`.
unfoldable pub push_all : BatchEncoder → List Piece → Outcome BatchEncoder
unfolding push
push_all e [] = ok e
push_all e (p ∷ ps) = push e p >>= λ e'. push_all e' ps

-- A run of one item is written as a single insert.
abbrev pub as_written : Piece → Piece
as_written (run t kl vl ((k, v) ∷ [])) = single (insert t k v)
as_written p = p

abbrev pub written_all : List Piece → List Piece
written_all [] = []
written_all (p ∷ ps) = as_written p ∷ written_all ps

bool_byte-wire : (f : Bool) → bool_byte f ∷ [] ≡ bool_wire f
bool_byte-wire true = refl
bool_byte-wire false = refl

push_items-wire :
    (out : List ℕ) (n : ℕ) (items : List (List ℕ × List ℕ))
    → push_items out n items ≡ (out ++ items_wire items, n + length items)
unfolding push_items
push_items-wire out n [] = ground (arith, append-nil out)
push_items-wire out n ((k, v) ∷ items) = ground (
  arith,
  push_items-wire ((out ++ k) ++ v) (n + 1) items,
  append_assoc out k v,
  append_assoc out (k ++ v) (items_wire items),
  append_assoc k v (items_wire items),
)

length-inserts : (t : ℕ) (items : List (List ℕ × List ℕ)) → length (inserts t items) ≡ length items
length-inserts t [] = refl
length-inserts t ((k, v) ∷ items) = ap suc (length-inserts t items)

push_insert_lem :
    (e : BatchEncoder) (t : ℕ) (k v : List ℕ)
    → U32 (length k)
    → U32 (length v)
    → push_insert e t k v ≡ ok (counted e (e.out ++ piece_wire (single (insert t k v))) 1)
unfolding push_insert
push_insert_lem e t k v hk hv =
    rw (write_bytes_ok _ k hk)
      (rw (write_bytes_ok _ v hv) (ap (λ o. ok (counted e o 1)) (simp append_assoc)))

push_run_lem :
    (e : BatchEncoder) (t kl vl : ℕ) (items : List (List ℕ × List ℕ))
    → (length items == 1) ≡ false
    → PieceFits (run t kl vl items)
    → push_insert_run e t (length items) kl vl items
      ≡ ok (counted e (e.out ++ piece_wire (run t kl vl items)) (length items))
unfolding push_insert_run
push_run_lem e t kl vl items many h = rw many (
    rw (to_u32_ok (length items) h.3) (
      rw (to_u32_ok kl h.1) (
        rw (to_u32_ok vl h.2) (
          rw (push_items-wire _ 0 items) (
            rw zero-length (
              rw ((==_iff (length items) (length items)).1 refl)
                (ap (λ o. ok (counted e o (length items))) (simp append_assoc))))))))
  where
    zero-length : 0 + length items ≡ length items
    zero-length = omega arith

-- Each call appends its piece and counts the operations that it stands for.
pub push_lem :
    (e : BatchEncoder) (p : Piece)
    → PieceFits p
    → push e p ≡ ok (counted e (e.out ++ piece_wire (as_written p)) (length (expand p)))
unfolding push
push_lem e (single (insert t k v)) h = push_insert_lem e t k v h.1 h.2
push_lem e (single (erase t k)) h =
    unfold push_erase in
    rw (write_bytes_ok _ k h.1) (ap (λ o. ok (counted e o 1)) (simp append_assoc))
push_lem e (single (rename_object t s d f)) h =
    unfold push_rename_object in
    rw (write_bytes_ok _ s h.1) (
      rw (write_bytes_ok _ d h.2)
        (rw (bool_byte-wire f) (ap (λ o. ok (counted e o 1)) (simp append_assoc))))
push_lem e (run t kl vl []) h = absurd (omega (arith, h.4))
push_lem e (run t kl vl ((k, v) ∷ [])) h =
    unfold push_insert_run in
    push_insert_lem e t k v (omega (arith, h.1, h.5)) (omega (arith, h.2, h.5))
push_lem e (run t kl vl (i ∷ j ∷ items)) h =
    push_run_lem e t kl vl (i ∷ j ∷ items) (ground arith) h
    ∙ ap (λ n. ok (counted e (e.out ++ piece_wire (run t kl vl (i ∷ j ∷ items))) n))
        (sym (length-inserts t (i ∷ j ∷ items)))
