-- ===== src/Tests/Log.antt =====
-- The codec and the scanner at concrete inputs.
use artisan.Prelude.{ℕ, leb, ◌≡◌, ◌⊎◌, refl, some, List, [], ◌∷◌, ◌++◌, arith, take, drop, length}
use artisan.Prelude.Bytes.{le_bytes, from_le_bytes}
use artisan.Errors.{ok, err, panic, ◌>>=◌, Post}
use artisan.Journal.Record.{Platform, ty_batch, WalOp, primitive, batch}
use artisan.Journal.Wire.{record_wire, batch_wire, expand_all}
use artisan.Journal.Encode.{encode_record}
use artisan.Journal.Encode.Direct.{encode_primitive, encode_primitive-reserved}
use artisan.Journal.Batch.{begin}
use artisan.Journal.Batch.Calls.{push_all}
use artisan.Journal.Batch.RoundTrip.{decode-batch_encoder, finish_and_read}
use artisan.Journal.Decode.{
  decode_record, decode_body, read_u64, read_u32, read_u8, sanity, encode_file_header,
}
use artisan.Journal.Decode.RoundTrip.{decode-encode_record}
use artisan.Journal.Decode.Torn.{decode_record-torn}
use artisan.Journal.Decode.Total.{decode_record-answers, Consumes}
use artisan.Journal.Reader.{replay_bytes}
use artisan.Journal.Reader.Log.{log_wire, run}
use artisan.Journal.Reader.Recovery.{replay_bytes-log}
use artisan.Tests.Data.{
  checksum, collect, header, put_op, erase_op, put_record, erase_record, put-IsLogged,
  erase-IsLogged, pieces, pieces_fit,
}

abbrev batch_op : WalOp
batch_op = batch (put_op ∷ erase_op ∷ [])

decode-encode_record_example :
    (record_bytes : List ℕ) × (encode_record checksum batch_op 5 (9 ∷ 8 ∷ [])
      ≡ ok ((9 ∷ 8 ∷ []) ++ record_bytes))
    × (decode_record checksum (record_bytes ++ (1 ∷ []))
        ≡ ok (record { op = batch_op; seq = 5; bytes_consumed = length record_bytes }))
unfolding le_bytes
decode-encode_record_example =
    decode-encode_record checksum batch_op 5 (9 ∷ 8 ∷ []) (1 ∷ [])
      (omega arith, ((omega arith, omega arith, omega arith), ((omega arith, omega arith), tt)))
      refl (omega arith) (omega arith)

decode-batch_encoder_example :
    (push_all (begin (9 ∷ []) 5 7) pieces >>= finish_and_read checksum 1 [])
    ≡ ok (record {
      kept = 9 ∷ [];
      inner_count = 3;
      decoded = record { op = batch (expand_all pieces); seq = 5; bytes_consumed = 73 };
    })
unfolding le_bytes
decode-batch_encoder_example =
    decode-batch_encoder checksum (9 ∷ []) 5 7 pieces pieces_fit (omega arith) [] (omega arith)
      (omega arith) (omega arith) refl

-- A log of two records and the first five bytes of a third.
replay_bytes-log_example :
    replay_bytes collect checksum
      (encode_file_header header []
        ++ (log_wire checksum (put_record ∷ erase_record ∷ [])
            ++ take 5 (record_wire checksum 7 1 (erase_record.body))))
      []
    ≡ ok (
      put_op ∷ erase_op ∷ [],
      header,
      record { records_seen = 2; highest_seq = some 6; torn_tail_at = some 107 },
    )
unfolding le_bytes run
replay_bytes-log_example =
    replay_bytes-log collect checksum header (put_record ∷ erase_record ∷ [])
      (take 5 (record_wire checksum 7 1 (erase_record.body))) [] (omega arith) (omega arith)
      (put-IsLogged, (erase-IsLogged, tt))
      (
        7,
        1,
        erase_record.body,
        _,
        drop 6 (record_wire checksum 7 1 (erase_record.body)),
        omega arith,
        refl,
      )

decode_record-torn_example :
    (decode_record checksum (take 5 (record_wire checksum 7 1 (erase_record.body)))
      ≡ err (sanity "record header truncated"))
    ⊎ (decode_record checksum (take 5 (record_wire checksum 7 1 (erase_record.body)))
        ≡ err (sanity "record body truncated"))
unfolding le_bytes
decode_record-torn_example =
    decode_record-torn checksum 7 1 (erase_record.body)
      (take 5 (record_wire checksum 7 1 (erase_record.body)))
      (drop 6 (record_wire checksum 7 1 (erase_record.body))) _ refl (omega arith)

-- An allocator with room for a hundred operations.
abbrev limited : Platform
limited = record checksum { grants = λ n. leb n 100 }

-- A record whose checksum is right, of a batch that says how many operations it has and has none.
abbrev empty_batch : ℕ → List ℕ
empty_batch count = record_wire limited 5 ty_batch (batch_wire 7 count [])

decode_record-answers_example :
    Post (Consumes (empty_batch 2)) (decode_record limited (empty_batch 2))
unfolding le_bytes from_le_bytes
decode_record-answers_example = decode_record-answers limited (empty_batch 2) refl

cut_short : decode_record limited (empty_batch 2) ≡ err (sanity "body truncated")
unfolding le_bytes from_le_bytes decode_record decode_body read_u64 read_u32 read_u8
cut_short = refl

-- The count alone ends the program when the allocator refuses it.
allocation_refused : decode_record limited (empty_batch 200) ≡ panic
unfolding le_bytes from_le_bytes decode_record decode_body read_u64 read_u32
allocation_refused = refl

encode_primitive-reserved_example :
    (bytes : List ℕ) × ((encode_primitive checksum (9 ∷ []) 5 erase_op ≡ ok ((9 ∷ []) ++ bytes))
      × ((encode_record checksum (primitive erase_op) 5 (9 ∷ []) ≡ ok ((9 ∷ []) ++ bytes))
          × (length bytes ≡ 35)))
unfolding le_bytes
encode_primitive-reserved_example =
    encode_primitive-reserved checksum (9 ∷ []) 5 erase_op (omega arith, omega arith) (omega arith)
