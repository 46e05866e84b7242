-- ===== src/Journal/Decode/RoundTrip.antt =====
-- Every operation that is encoded is decoded again, alone or in a batch.
use artisan.Prelude.{
  ℕ, ◌+◌, ◌≡◌, refl, sym, ap, ◌∙◌, List, [], ◌∷◌, ◌++◌, append-nil, arith, length, length-append,
  All, map, true,
}
use artisan.Prelude.Bytes.{le_bytes, length-le_bytes}
use artisan.Errors.{ok}
use artisan.Journal.Record.{
  Platform, Primitive, insert, erase, rename_object, WalOp, primitive, batch, ty_batch,
}
use artisan.Journal.Wire.{
  U32, U64, Fits, Piece, single, pieces_wire, inners_wire, inner_wire, expand_all, PieceFits,
  tag_of, primitive_wire, batch_wire, record_wire,
}
use artisan.Journal.Encode.{encode_record}
use artisan.Journal.Encode.Appends.{body_wire, OpFits, op_tag, encode_record_ok}
use artisan.Journal.Decode.{batch_loop, decode_body, decode_record}
use artisan.Journal.Decode.Reads.{read_u32-append, read_u64-append, decode_primitive-wire}
use artisan.Journal.Decode.Batches.{batch_loop-pieces}
use artisan.Journal.Decode.Records.{decode_record-wire}

pub decode_body-primitive :
    (c : Platform) (p : Primitive)
    → Fits p
    → decode_body c (tag_of p) (primitive_wire p) ≡ ok (primitive p)
unfolding decode_body
decode_body-primitive c (insert t k v) h =
    rw (← append-nil (primitive_wire (insert t k v)))
      (rw (decode_primitive-wire (insert t k v) [] h))
decode_body-primitive c (erase t k) h =
    rw (← append-nil (primitive_wire (erase t k))) (rw (decode_primitive-wire (erase t k) [] h))
decode_body-primitive c (rename_object t s d f) h =
    rw (← append-nil (primitive_wire (rename_object t s d f)))
      (rw (decode_primitive-wire (rename_object t s d f) [] h))

-- The body of a batch gives the operations of its pieces in order.
pub decode_body-batch :
    (c : Platform) (tree_id : ℕ) (ps : List Piece)
    → U64 tree_id
    → U32 (length (expand_all ps))
    → c.grants (length (expand_all ps)) ≡ true
    → All PieceFits ps
    → decode_body c ty_batch (batch_wire tree_id (length (expand_all ps)) (pieces_wire ps))
      ≡ ok (batch (expand_all ps))
unfolding decode_body
decode_body-batch c tree_id ps ht hn g h =
    rw (read_u64-append tree_id (le_bytes 4 (length (expand_all ps)) ++ pieces_wire ps) ht)
      (rw (read_u32-append (length (expand_all ps)) (pieces_wire ps) hn) (rw g (rw (loop) refl)))
  where
    loop :
        batch_loop (length (pieces_wire ps) + 1) (length (expand_all ps)) [] (pieces_wire ps)
        ≡ ok (expand_all ps, [])
    loop =
        ap (batch_loop (length (pieces_wire ps) + 1) (length (expand_all ps)) [])
          (sym (append-nil (pieces_wire ps)))
        ∙ batch_loop-pieces ps (length (pieces_wire ps) + 1) (length (expand_all ps)) [] [] h
            (omega arith) (omega arith)

-- Single operations as pieces.
inners-pieces : (ops : List Primitive) → inners_wire ops ≡ pieces_wire (map single ops)
inners-pieces [] = refl
inners-pieces (p ∷ ops) = ap (λ w. inner_wire p ++ w) (inners-pieces ops)

expand_all-single : (ops : List Primitive) → expand_all (map single ops) ≡ ops
expand_all-single [] = refl
expand_all-single (p ∷ ops) = ap (λ o. p ∷ o) (expand_all-single ops)

All-single : (ops : List Primitive) → All Fits ops → All PieceFits (map single ops)
All-single [] h = tt
All-single (p ∷ ops) h = (h.0, All-single ops h.1)

-- The allocator grants what a batch asks for.
abbrev pub Granted : Platform → WalOp → Type 0
Granted c (primitive p) = Unit {0}
Granted c (batch ops) = c.grants (length ops) ≡ true

pub decode_body-op :
    (c : Platform) (op : WalOp)
    → OpFits op
    → Granted c op
    → decode_body c (op_tag op) (body_wire op) ≡ ok op
decode_body-op c (primitive p) h g = decode_body-primitive c p h
decode_body-op c (batch ops) h g = rw (inners-pieces ops) (
    ap
      (λ (o : List Primitive).
        decode_body c ty_batch (batch_wire 0 (length o) (pieces_wire (map single ops))))
      (sym (expand_all-single ops))
    ∙ decode_body-batch c 0 (map single ops) (omega arith) (rw (expand_all-single ops) h.0)
        (rw (expand_all-single ops) g) (All-single ops h.1)
    ∙ ap (λ o. ok (batch o)) (expand_all-single ops))

-- What `encode_record` appends to a buffer, whatever stands in it, is decoded to the operation and
-- the sequence that went in, with the count of the bytes that were appended, whatever follows them.
-- The fields fit their widths, and the allocator grants room for the operations of a batch.
pub decode-encode_record :
    (c : Platform) (op : WalOp) (seq : ℕ) (out rest : List ℕ)
    → OpFits op
    → Granted c op
    → U32 (length (body_wire op))
    → U64 seq
    → (record_bytes : List ℕ) × (encode_record c op seq out ≡ ok (out ++ record_bytes))
      × (decode_record c (record_bytes ++ rest)
          ≡ ok (record { op = op; seq = seq; bytes_consumed = length record_bytes }))
decode-encode_record c op seq out rest h g hb hs =
    let wire = record_wire c seq (op_tag op) (body_wire op) in
    let n : 17 + length (body_wire op) + 4 ≡ length wire =
      omega (arith, length-append {0}, length-le_bytes) in
    (
      wire,
      encode_record_ok c op seq out h hb,
      decode_record-wire c seq (op_tag op) (body_wire op) rest op hs hb (decode_body-op c op h g)
          ∙ ap (λ n'. ok (record { op = op; seq = seq; bytes_consumed = n' })) n,
    )
