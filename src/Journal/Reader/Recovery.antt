-- ===== src/Journal/Reader/Recovery.antt =====
-- Replay of a log that was written record by record, up to a crash in the middle of the last one.
use artisan.Prelude.{
  false, ℕ, zero, suc, ◌+◌, ◌≤◌, ◌<◌, ◌≡◌, inl, inr, sym, ◌∙◌, Option, none, some, List, [], ◌∷◌,
  ◌++◌, arith, length, All, append_assoc, append-nil, length-append, ltb, lt→ltb, drop, drop-append,
  take-append_of_eq,
}
use artisan.Prelude.Bytes.{le_bytes, length-le_bytes, from_le_bytes-le_bytes}
use artisan.Errors.{Outcome, ok, ◌>>=◌}
use artisan.Journal.Record.{Platform, file_magic, format_version}
use artisan.Journal.Wire.{U64}
use artisan.Journal.Decode.{
  decode_record, DecodedRecord, FileHeader, encode_file_header, decode_file_header,
}
use artisan.Journal.Decode.Records.{decode_record-wire, length-record_wire}
use artisan.Journal.Decode.Torn.{decode_record-torn}
use artisan.Journal.Reader.{Callback, ReplayStats, stopped, deliver, scan, replay_bytes}
use artisan.Journal.Reader.Log.{
  Logged, IsLogged, logged_wire, log_wire, IsFront, op_deliveries, deliveries, run, highest_of,
  bind_assoc, bind_ext, run-append, deliver-run, highest_of-append,
}

-- A file header that was encoded is decoded to its fields, whatever follows it.
pub decode-encode_file_header :
    (h : FileHeader) (rest : List ℕ)
    → U64 h.tree_id
    → U64 h.created_at
    → decode_file_header (encode_file_header h [] ++ rest) ≡ ok h
unfolding decode_file_header encode_file_header le_bytes
decode-encode_file_header h rest ht hc = ground (
  arith,
  from_le_bytes-le_bytes 4 file_magic (omega arith),
  from_le_bytes-le_bytes 4 format_version (omega arith),
  from_le_bytes-le_bytes 8 h.tree_id ht,
  from_le_bytes-le_bytes 8 h.created_at hc,
)

pub length-encode_file_header : (h : FileHeader) → length (encode_file_header h []) ≡ 32
unfolding encode_file_header
length-encode_file_header h = omega (arith, length-append {0}, length-le_bytes)

-- Where the scan stops early.
abbrev pub torn_at : List ℕ → ℕ → Option ℕ
torn_at [] offset = none
torn_at (x ∷ torn) offset = some offset

abbrev pub log_end : List Logged → ℕ → ℕ
log_end [] offset = offset
log_end (r ∷ rs) offset = log_end rs (offset + (17 + length r.body + 4))

module _ {S : Type 0} (callback : Callback S) (c : Platform) where
  -- What the scan of `rs` and a torn tail has to answer.
  abbrev scanned : List Logged → List ℕ → ℕ → ℕ → Option ℕ → S → Outcome (S × ReplayStats)
  scanned rs torn offset seen high s = run callback (deliveries rs offset) s >>= λ s'. ok (
    s',
    record {
      records_seen = seen + length rs;
      highest_seq = highest_of high (deliveries rs offset);
      torn_tail_at = torn_at torn (log_end rs offset);
    },
  )

  scan-torn :
      (x : ℕ) (torn pre : List ℕ) (fuel seen : ℕ) (high : Option ℕ) (s : S)
      → IsFront c (x ∷ torn)
      → scan callback c (suc fuel) (pre ++ (x ∷ torn)) (length pre) seen high s
        ≡ ok (
          s,
          record { records_seen = seen; highest_seq = high; torn_tail_at = some (length pre) },
        )
  unfolding scan stopped
  scan-torn x torn pre fuel seen high s (seq, ty, body, y, back, fits, cut) =
      rw (drop-append pre (x ∷ torn))
        (elim (decode_record-torn c seq ty body (x ∷ torn) back y cut fits) [
          | inl e ↦ rw e (ground (arith, length-append pre (x ∷ torn)))
          | inr e ↦ rw e (ground (arith, length-append pre (x ∷ torn)))
        ])

  scan-done :
      (pre : List ℕ) (fuel seen : ℕ) (high : Option ℕ) (s : S)
      → scan callback c fuel pre (length pre) seen high s
        ≡ ok (s, record { records_seen = seen; highest_seq = high; torn_tail_at = none })
  unfolding scan
  scan-done pre zero seen high s = ground arith
  scan-done pre (suc fuel) seen high s = ground arith

  scan-step :
      (bytes : List ℕ) (d : DecodedRecord) (fuel offset seen : ℕ) (high : Option ℕ) (s : S)
      → decode_record c (drop offset bytes) ≡ ok d
      → offset < length bytes
      → scan callback c (suc fuel) bytes offset seen high s ≡ (
          deliver callback d.op d.seq offset s high >>= λ r.
          scan callback c fuel bytes (offset + d.bytes_consumed) (seen + 1) r.1 r.0)
  unfolding scan
  scan-step bytes d fuel offset seen high s e h = rw e (rw (lt→ltb offset (length bytes) h))

  -- The front of the log is a record: it is delivered, and the scan goes on behind it.
  scan-record :
      (r : Logged) (more pre : List ℕ) (fuel seen : ℕ) (high : Option ℕ) (s : S)
      → IsLogged c r
      → scan callback c (suc fuel) (pre ++ (logged_wire c r ++ more)) (length pre) seen high s ≡ (
          run callback (op_deliveries r.op r.seq (length pre)) s >>= λ s'.
          scan callback c fuel
            ((pre ++ logged_wire c r) ++ more)
            (length (pre ++ logged_wire c r))
            (seen + 1)
            (highest_of high (op_deliveries r.op r.seq (length pre)))
            s')
  scan-record r more pre fuel seen high s h =
      let bytes = pre ++ (logged_wire c r ++ more) in
      let d : DecodedRecord = record {
        op = r.op;
        seq = r.seq;
        bytes_consumed = 17 + length r.body + 4;
      } in
      let read : decode_record c (drop (length pre) bytes) ≡ ok d =
        rw (drop-append pre (logged_wire c r ++ more))
          (decode_record-wire c r.seq r.ty r.body more r.op h.0 h.1 h.2) in
      let size : length (logged_wire c r) ≡ 21 + length r.body =
        length-record_wire c r.seq r.ty r.body in
      let behind : length pre + (17 + length r.body + 4) ≡ length (pre ++ logged_wire c r) =
        omega (arith, size, length-append pre (logged_wire c r)) in
      let inside : length pre < length bytes = omega (
        arith,
        size,
        length-append pre (logged_wire c r ++ more),
        length-append (logged_wire c r) more,
      ) in
      scan-step bytes d fuel (length pre) seen high s read inside
      ∙ rw behind (
          rw (← append_assoc pre (logged_wire c r) more) (
            rw (deliver-run callback r.op r.seq (length pre) s high)
              (bind_assoc (run callback (op_deliveries r.op r.seq (length pre)) s) _ _)))

  scanned-cons :
      (r : Logged) (rs : List Logged) (torn pre : List ℕ) (seen : ℕ) (high : Option ℕ) (s : S)
      → let ds = op_deliveries r.op r.seq (length pre) in
        (run callback ds s
          >>= scanned rs torn (length (pre ++ logged_wire c r)) (seen + 1) (highest_of high ds))
        ≡ scanned (r ∷ rs) torn (length pre) seen high s
  scanned-cons r rs torn pre seen high s =
      let ds = op_deliveries r.op r.seq (length pre) in
      let es = deliveries rs (length (pre ++ logged_wire c r)) in
      let behind : length pre + (17 + length r.body + 4) ≡ length (pre ++ logged_wire c r) =
        omega
          (arith, length-record_wire c r.seq r.ty r.body, length-append pre (logged_wire c r)) in
      let count : seen + suc (length rs) ≡ seen + 1 + length rs = omega arith in
      rw behind (
        rw count (
          rw (highest_of-append high ds es) (
            rw (run-append callback ds es s)
              (sym (bind_assoc (run callback ds s) (run callback es) _)))))

  scan-log :
      (rs : List Logged) (torn pre : List ℕ) (fuel seen : ℕ) (high : Option ℕ) (s : S)
      → All (IsLogged c) rs
      → IsFront c torn
      → length (log_wire c rs ++ torn) ≤ fuel
      → scan callback c fuel (pre ++ (log_wire c rs ++ torn)) (length pre) seen high s
        ≡ scanned rs torn (length pre) seen high s
  unfolding run
  scan-log [] [] pre fuel seen high s h t f =
      let none_more : seen + 0 ≡ seen = omega arith in
      rw none_more (rw (append-nil pre) (scan-done pre fuel seen high s))
  scan-log [] (x ∷ torn) pre zero seen high s h t f = absurd (omega arith)
  scan-log [] (x ∷ torn) pre (suc fuel) seen high s h t f =
      let none_more : seen + 0 ≡ seen = omega arith in
      rw none_more (scan-torn x torn pre fuel seen high s t)
  scan-log (r ∷ rs) torn pre zero seen high s h t f = absurd (
      omega (
        arith,
        length-append (logged_wire c r ++ log_wire c rs) torn,
        length-append (logged_wire c r) (log_wire c rs),
        length-record_wire c r.seq r.ty r.body,
      ))
  scan-log (r ∷ rs) torn pre (suc fuel) seen high s h t f =
      let more = log_wire c rs ++ torn in
      rw (append_assoc (logged_wire c r) (log_wire c rs) torn) (
        scan-record r more pre fuel seen high s h.0
        ∙ bind_ext _ _ _
            (λ s'. scan-log rs torn (pre ++ logged_wire c r) fuel (seen + 1) _ s' h.1 t room)
        ∙ scanned-cons r rs torn pre seen high s)
    where
      room : length (log_wire c rs ++ torn) ≤ fuel
      room = omega (
        arith,
        length-append (logged_wire c r ++ log_wire c rs) torn,
        length-append (logged_wire c r) (log_wire c rs),
        length-append (log_wire c rs) torn,
        length-record_wire c r.seq r.ty r.body,
      )

  -- A log that was written record by record, and cut off anywhere in the record behind them, is
  -- replayed in full: the callback gets every primitive operation in order, those of a batch with
  -- consecutive sequences, each with the offset of its record; the scan counts the records, finds
  -- the highest sequence, and tells where the torn record starts, if any byte of it is there. An
  -- error of the callback is the answer, at the offset of its record.
  pub replay_bytes-log :
      (header : FileHeader) (rs : List Logged) (torn : List ℕ) (s : S)
      → U64 header.tree_id
      → U64 header.created_at
      → All (IsLogged c) rs
      → IsFront c torn
      → replay_bytes callback c (encode_file_header header [] ++ (log_wire c rs ++ torn)) s ≡ (
          run callback (deliveries rs 32) s >>= λ s'. ok (
            s',
            header,
            record {
              records_seen = length rs;
              highest_seq = highest_of none (deliveries rs 32);
              torn_tail_at = torn_at torn (log_end rs 32);
            },
          ))
  unfolding replay_bytes
  replay_bytes-log header rs torn s ht hc h t =
      let f = encode_file_header header [] in
      let more = log_wire c rs ++ torn in
      let size : length f ≡ 32 = length-encode_file_header header in
      let long : ltb (length (f ++ more)) 32 ≡ false = ground (arith, size, length-append f more) in
      let room : length more ≤ length (f ++ more) = omega (arith, length-append f more) in
      let whole : 0 + length rs ≡ length rs = omega arith in
      rw long (
        rw (take-append_of_eq 32 f more (sym size)) (
          rw (rw append-nil at (decode-encode_file_header header [] ht hc)) (
            rw (rw size at (scan-log rs torn f (length (f ++ more)) 0 none s h t room))
              (rw whole (bind_assoc (run callback (deliveries rs 32) s) _ _)))))
