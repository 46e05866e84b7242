-- ===== src/Journal/Batch/RoundTrip.antt =====
-- A batch that is written by calls on the encoder: the record, its decoding, and the rollback.
use artisan.Prelude.{
  take-append, drop, drop-append, take, ℕ, ◌+◌, ◌-◌, ◌%◌, ◌^◌, ◌<◌, ◌≡◌, refl, sym, ap, ◌∙◌, true,
  List, [], ◌∷◌, ◌++◌, append_assoc, append-nil, arith, length, length-append, replicate, All,
  copy_at, copy_at-append, slice-append,
}
use artisan.Prelude.Bytes.{le_bytes, length-le_bytes}
use artisan.Journal.Decode.{decode_body, decode_record, DecodedRecord}
use artisan.Journal.Decode.Records.{decode_record-wire}
use artisan.Journal.Decode.RoundTrip.{decode_body-batch}
use artisan.Errors.{Outcome, ◌>>=◌, ok, to_u32_ok}
use artisan.Journal.Record.{Primitive, batch, Platform, record_magic, ty_batch}
use artisan.Journal.Wire.{
  U32, U64, Piece, single, run, piece_wire, pieces_wire, expand, expand_all, PieceFits, batch_wire,
  covered, record_wire,
}
use artisan.Journal.Encode.Appends.{patched_lem}
use artisan.Journal.Batch.{drop_encoder, BatchEncoder, begin, finish}
use artisan.Journal.Batch.Calls.{push_all, push_lem, as_written, written_all}

-- The encoder after `begin` and the pieces `w`, which stand for `n` operations.
abbrev pub building : List ℕ → ℕ → ℕ → List ℕ → ℕ → BatchEncoder
building out seq tree_id w n = record (begin out seq tree_id) {
  out = (begin out seq tree_id).out ++ w;
  inner_count = n;
}

expand-as_written : (p : Piece) → expand (as_written p) ≡ expand p
expand-as_written (single p) = refl
expand-as_written (run t kl vl []) = refl
expand-as_written (run t kl vl ((k, v) ∷ [])) = refl
expand-as_written (run t kl vl ((k, v) ∷ i ∷ items)) = refl

expand_all-written : (ps : List Piece) → expand_all (written_all ps) ≡ expand_all ps
expand_all-written [] = refl
expand_all-written (p ∷ ps) =
    rw (expand-as_written p) (ap (λ o. expand p ++ o) (expand_all-written ps))

PieceFits-as_written : (p : Piece) → PieceFits p → PieceFits (as_written p)
PieceFits-as_written (single p) h = h
PieceFits-as_written (run t kl vl []) h = h
PieceFits-as_written (run t kl vl ((k, v) ∷ [])) h =
    (h.0, omega (arith, h.1, h.5), omega (arith, h.2, h.5))
PieceFits-as_written (run t kl vl ((k, v) ∷ i ∷ items)) h = h

All-written : (ps : List Piece) → All PieceFits ps → All PieceFits (written_all ps)
All-written [] h = tt
All-written (p ∷ ps) h = (PieceFits-as_written p h.0, All-written ps h.1)

push_all_lem :
    (out : List ℕ) (seq tree_id : ℕ) (w : List ℕ) (n : ℕ) (ps : List Piece)
    → All PieceFits ps
    → U32 (n + length (expand_all ps))
    → push_all (building out seq tree_id w n) ps
      ≡ ok (
          building out seq tree_id (w ++ pieces_wire (written_all ps)) (n + length (expand_all ps)))
unfolding push_all
push_all_lem out seq tree_id w n [] h fits =
    let zero_more : n + 0 ≡ n = omega arith in rw zero_more (rw (append-nil w))
push_all_lem out seq tree_id w n (p ∷ ps) h fits =
    let k = length (expand p) in
    let no_wrap : (n + k) % 2 ^ 32 ≡ n + k =
      omega (arith, length-append (expand p) (expand_all ps)) in
    let total : n + k + length (expand_all ps) ≡ n + length (expand p ++ expand_all ps) =
      omega (arith, length-append (expand p) (expand_all ps)) in
    rw (push_lem (building out seq tree_id w n) p h.0) (
      rw no_wrap (
        rw (append_assoc (begin out seq tree_id).out w (piece_wire (as_written p))) (
          push_all_lem out seq tree_id (w ++ piece_wire (as_written p)) (n + k) ps h.1
            (omega (arith, total))
          ∙ rw total
              (rw (append_assoc w (piece_wire (as_written p)) (pieces_wire (written_all ps)))))))

finish_lem :
    (c : Platform) (out : List ℕ) (seq tree_id : ℕ) (w : List ℕ) (n : ℕ)
    → U32 (12 + length w)
    → finish c (building out seq tree_id w n)
      ≡ ok (
        record (building out seq tree_id w n) {
          out = out ++ record_wire c seq ty_batch (batch_wire tree_id n w);
          finished = true;
        },
        n,
      )
unfolding finish begin
finish_lem c out seq tree_id w n h =
    let m = le_bytes 4 record_magic in
    let z = replicate {A = ℕ} 4 0 in
    let front = (((out ++ m) ++ z) ++ le_bytes 8 seq) ++ (ty_batch ∷ []) in
    let with_tree = front ++ le_bytes 8 tree_id in
    let body = batch_wire tree_id n w in
    let len : length ((with_tree ++ z) ++ w) - length front ≡ length body =
      omega (arith, length-append {0}, length-le_bytes) in
    let small : length body < 2 ^ 32 = omega (arith, length-append {0}, length-le_bytes) in
    let end : length ((with_tree ++ z) ++ w) ≡ length (out ++ covered seq ty_batch body) =
      omega (arith, length-append {0}, length-le_bytes) in
    let count : copy_at (length with_tree) (le_bytes 4 n) ((with_tree ++ z) ++ w) ≡ front ++ body =
      ap (copy_at (length with_tree) (le_bytes 4 n)) (append_assoc with_tree z w)
      ∙ copy_at-append (length with_tree) (le_bytes 4 n) with_tree z w refl
          (sym (length-le_bytes 4 n))
      ∙ append_assoc front (le_bytes 8 tree_id) (le_bytes 4 n ++ w) in
    let patched : copy_at (length (out ++ m)) (le_bytes 4 (length body)) (front ++ body)
        ≡ out ++ covered seq ty_batch body =
      patched_lem out m z (le_bytes 8 seq) ty_batch body (le_bytes 4 (length body))
        (sym (length-le_bytes 4 (length body))) in
    rw len (
      rw (to_u32_ok (length body) small) (
        rw count (
          rw patched (
            rw (slice-append out (covered seq ty_batch body) _ end)
              (rw (append_assoc out (covered seq ty_batch body) _) refl)))))

-- What becomes of a buffer when its encoder is finished and the record is read back.
pub record Reread : Type 0 where
  pub kept : List ℕ
  pub inner_count : ℕ
  pub decoded : DecodedRecord

abbrev pub finish_and_read : Platform → ℕ → List ℕ → BatchEncoder → Outcome Reread
finish_and_read c start rest e = do
  (e', n) ← finish c e
  d ← decode_record c (drop start (drop_encoder e') ++ rest)
  ok (record { kept = take start (drop_encoder e'); inner_count = n; decoded = d })

module _ (c : Platform) (out : List ℕ) (seq tree_id : ℕ) (ps : List Piece) (fit : All PieceFits ps)
    (counts : U32 (length (expand_all ps))) where
  -- The bytes that the pieces take.
  abbrev batch_inner : List ℕ
  batch_inner = pieces_wire (written_all ps)

  begin-building : begin out seq tree_id ≡ building out seq tree_id [] 0
  unfolding begin
  begin-building = rw append-nil

  pushed :
      push_all (begin out seq tree_id) ps
      ≡ ok (building out seq tree_id batch_inner (length (expand_all ps)))
  pushed =
      let whole : 0 + length (expand_all ps) ≡ length (expand_all ps) = omega arith in
      ap (λ e. push_all e ps) begin-building
      ∙ push_all_lem out seq tree_id [] 0 ps fit (omega (arith, counts, whole))
      ∙ ap (λ n. ok (building out seq tree_id batch_inner n)) whole

  -- An encoder that is dropped before `finish`, after any calls whose fields fit their widths,
  -- leaves the buffer as it was before `begin`.
  drop_encoder-push_all :
      (push_all (begin out seq tree_id) ps >>= λ e. ok (drop_encoder e)) ≡ ok out
  unfolding drop_encoder begin
  drop_encoder-push_all = rw pushed (simp append_assoc (rw take-append))

  -- A batch that is built by any calls and finished leaves what stood in the buffer, tells the count
  -- of its operations, and is decoded to all of them in order, the runs expanded, whatever follows.
  -- The fields, the count and the length of the record fit their widths, and the
  -- allocator grants room for the operations.
  pub decode-batch_encoder :
      (rest : List ℕ)
      → U64 seq
      → U64 tree_id
      → U32 (12 + length batch_inner)
      → c.grants (length (expand_all ps)) ≡ true
      → (push_all (begin out seq tree_id) ps >>= finish_and_read c (length out) rest)
        ≡ ok (record {
          kept = out;
          inner_count = length (expand_all ps);
          decoded = record {
            op = batch (expand_all ps);
            seq = seq;
            bytes_consumed = 17 + (12 + length batch_inner) + 4;
          };
        })
  unfolding drop_encoder
  decode-batch_encoder rest hs ht h granted =
      let n = length (expand_all ps) in
      let body = batch_wire tree_id n batch_inner in
      let len : length body ≡ 12 + length batch_inner =
        omega (arith, length-append {0}, length-le_bytes) in
      let read : decode_record c (record_wire c seq ty_batch body ++ rest)
          ≡ ok (record {
            op = batch (expand_all ps);
            seq = seq;
            bytes_consumed = 17 + length body + 4;
          }) =
        decode_record-wire c seq ty_batch body rest (batch (expand_all ps)) hs
          (omega (arith, len, h)) inner in
      rw pushed (
        rw (finish_lem c out seq tree_id batch_inner n h) (
          rw (drop-append out (record_wire c seq ty_batch body))
            (rw (take-append out (record_wire c seq ty_batch body)) (rw read (rw len)))))
    where
      inner :
          decode_body c ty_batch (batch_wire tree_id (length (expand_all ps)) batch_inner)
          ≡ ok (batch (expand_all ps))
      inner =
          ap
            (λ (o : List Primitive).
              decode_body c ty_batch (batch_wire tree_id (length o) batch_inner))
            (sym (expand_all-written ps))
          ∙ decode_body-batch c tree_id (written_all ps) ht (rw (expand_all-written ps) counts)
              (rw (expand_all-written ps) granted) (All-written ps fit)
          ∙ ap (λ o. ok (batch o)) (expand_all-written ps)
