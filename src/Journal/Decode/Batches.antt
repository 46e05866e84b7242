-- ===== src/Journal/Decode/Batches.antt =====
-- The batch loop of the decoder reads back what a batch is made of, runs expanded, and never runs
-- out of its fuel.
use artisan.Prelude.{
  ℕ, zero, suc, ◌+◌, ◌≤◌, ◌<◌, ◌≡◌, refl, sym, ap, ◌∙◌, List, [], ◌∷◌, ◌++◌, append_assoc,
  append-nil, arith, length, length-append, All,
}
use artisan.Prelude.Bytes.{le_bytes}
use artisan.Errors.{ok}
use artisan.Journal.Record.{Primitive, insert, erase, rename_object}
use artisan.Journal.Wire.{
  Piece, single, run, items_wire, piece_wire, pieces_wire, inserts, expand, expand_all, ItemsFit,
  PieceFits, primitive_wire,
}
use artisan.Journal.Decode.{run_items, decode_insert_run, batch_step, batch_loop}
use artisan.Journal.Decode.Reads.{
  take_bytes-append, read_u8-cons, read_u32-append, read_u64-append, decode_primitive-wire,
}

run_items-wire :
    (t kl vl : ℕ) (items : List (List ℕ × List ℕ)) (rest : List ℕ) (ops : List Primitive)
    → ItemsFit kl vl items
    → run_items (length items) t kl vl (items_wire items ++ rest) ops
      ≡ ok (ops ++ inserts t items, rest)
unfolding run_items
run_items-wire t kl vl [] rest ops h = ap (λ o. ok (o, rest)) (sym (append-nil ops))
run_items-wire t kl vl ((k, v) ∷ items) rest ops h =
    rw (append_assoc k (v ++ items_wire items) rest) (
      rw (take_bytes-append kl k ((v ++ items_wire items) ++ rest) (sym h.0)) (
        rw (append_assoc v (items_wire items) rest) (
          rw (take_bytes-append vl v (items_wire items ++ rest) (sym h.1)) (
            run_items-wire t kl vl items rest (ops ++ (insert t k v ∷ [])) h.2
            ∙ ap (λ o. ok (o, rest)) (append_assoc ops (insert t k v ∷ []) (inserts t items))))))

length-inserts : (t : ℕ) (items : List (List ℕ × List ℕ)) → length (inserts t items) ≡ length items
length-inserts t [] = refl
length-inserts t ((k, v) ∷ items) = ap suc (length-inserts t items)

decode_insert_run-wire :
    (t kl vl : ℕ) (items : List (List ℕ × List ℕ)) (rest : List ℕ) (count : ℕ)
    (ops : List Primitive)
    → PieceFits (run t kl vl items)
    → length ops + length items ≤ count
    → decode_insert_run
        ((le_bytes 8 t
            ++ (le_bytes 4 (length items)
                ++ (le_bytes 4 kl ++ (le_bytes 4 vl ++ items_wire items))))
          ++ rest)
        count
        ops
      ≡ ok (ops ++ inserts t items, rest)
unfolding decode_insert_run
decode_insert_run-wire t kl vl items rest count ops h room =
    let b3 = le_bytes 4 vl ++ items_wire items in
    let b2 = le_bytes 4 kl ++ b3 in
    let b1 = le_bytes 4 (length items) ++ b2 in
    rw (append_assoc (le_bytes 8 t) b1 rest) (
      rw (read_u64-append t (b1 ++ rest) h.0) (
        rw (append_assoc (le_bytes 4 (length items)) b2 rest) (
          rw (read_u32-append (length items) (b2 ++ rest) h.3) (
            rw (append_assoc (le_bytes 4 kl) b3 rest) (
              rw (read_u32-append kl (b3 ++ rest) h.1) (
                rw (append_assoc (le_bytes 4 vl) (items_wire items) rest) (
                  rw (read_u32-append vl (items_wire items ++ rest) h.2)
                    (ground (arith, h.4, room, run_items-wire t kl vl items rest ops h.5)))))))))

-- One round takes one piece.
pub batch_step-piece :
    (count : ℕ) (ops : List Primitive) (p : Piece) (rest : List ℕ)
    → PieceFits p
    → length ops + length (expand p) ≤ count
    → batch_step count ops (piece_wire p ++ rest) ≡ ok (ops ++ expand p, rest)
unfolding batch_step
batch_step-piece count ops (single (insert t k v)) rest h room =
    rw (read_u8-cons _ (primitive_wire (insert t k v) ++ rest))
      (rw (decode_primitive-wire (insert t k v) rest h))
batch_step-piece count ops (single (erase t k)) rest h room =
    rw (read_u8-cons _ (primitive_wire (erase t k) ++ rest))
      (rw (decode_primitive-wire (erase t k) rest h))
batch_step-piece count ops (single (rename_object t s d f)) rest h room =
    rw (read_u8-cons _ (primitive_wire (rename_object t s d f) ++ rest))
      (rw (decode_primitive-wire (rename_object t s d f) rest h))
batch_step-piece count ops (run t kl vl items) rest h room =
    rw (read_u8-cons _ _) (
      decode_insert_run-wire t kl vl items rest count ops h (omega (arith, length-inserts t items)))

expand_pos : (p : Piece) → PieceFits p → 0 < length (expand p)
expand_pos (single p) h = omega arith
expand_pos (run t kl vl items) h = omega (arith, length-inserts t items, h.4)

piece_wire_pos : (p : Piece) → 0 < length (piece_wire p)
piece_wire_pos (single p) = omega arith
piece_wire_pos (run t kl vl items) = omega arith

-- The loop stops after the last piece, and gives every operation in order.
pub batch_loop-pieces :
    (ps : List Piece) (fuel count : ℕ) (ops : List Primitive) (rest : List ℕ)
    → All PieceFits ps
    → length ops + length (expand_all ps) ≡ count
    → length (pieces_wire ps) ≤ fuel
    → batch_loop fuel count ops (pieces_wire ps ++ rest) ≡ ok (ops ++ expand_all ps, rest)
unfolding batch_loop
batch_loop-pieces [] zero count ops rest h e f = ground (arith, append-nil ops)
batch_loop-pieces [] (suc fuel) count ops rest h e f = ground (arith, append-nil ops)
batch_loop-pieces (p ∷ ps) zero count ops rest h e f =
    absurd (omega (arith, length-append (piece_wire p) (pieces_wire ps), piece_wire_pos p))
batch_loop-pieces (p ∷ ps) (suc fuel) count ops rest h e f = ground (
  arith,
  append_assoc (piece_wire p) (pieces_wire ps) rest,
  append_assoc ops (expand p) (expand_all ps),
  length-append (expand p) (expand_all ps),
  length-append ops (expand p),
  length-append (piece_wire p) (pieces_wire ps),
  piece_wire_pos p,
  expand_pos p h.0,
  batch_step-piece count ops p (pieces_wire ps ++ rest) h.0,
  batch_loop-pieces ps fuel count (ops ++ expand p) rest h.1,
)
