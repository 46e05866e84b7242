-- ===== src/Tests/Data.antt =====
-- The inputs of the tests.
use artisan.Prelude.{true, ℕ, ◌+◌, ◌%◌, ◌^◌, refl, List, [], ◌∷◌, ◌++◌, arith, All}
use artisan.Prelude.Bytes.{le_bytes}
use artisan.Errors.{ok}
use artisan.Journal.Record.{Platform, Primitive, insert, erase, primitive}
use artisan.Journal.Wire.{Piece, single, run, PieceFits, primitive_wire}
use artisan.Journal.Decode.{FileHeader, encode_file_header}
use artisan.Journal.Decode.RoundTrip.{decode_body-primitive}
use artisan.Journal.Reader.{Callback}
use artisan.Journal.Reader.Log.{Logged, IsLogged, log_wire}
use artisan.Journal.Writer.{done, Io, WalWriter}

abbrev total : List ℕ → ℕ
total [] = 0
total (b ∷ bytes) = b + total bytes

abbrev pub checksum : Platform
checksum = record {
  hash = λ bytes. total bytes % 2 ^ 32;
  hash_lt = λ bytes. omega arith;
  grants = λ n. true;
}

-- The callback that collects what it gets.
abbrev pub collect : Callback (List Primitive)
collect s p seq offset = ok (s ++ (p ∷ []))

abbrev pub header : FileHeader
header = record { tree_id = 7; created_at = 1000 }

abbrev pub put_op : Primitive
put_op = insert 7 (1 ∷ 2 ∷ []) (3 ∷ [])

abbrev pub erase_op : Primitive
erase_op = erase 7 (1 ∷ 2 ∷ [])

abbrev pub put_record : Logged
put_record = record { seq = 5; ty = 0; body = primitive_wire put_op; op = primitive put_op }

abbrev pub erase_record : Logged
erase_record = record { seq = 6; ty = 1; body = primitive_wire erase_op; op = primitive erase_op }

pub put-IsLogged : IsLogged checksum put_record
unfolding le_bytes
put-IsLogged = (
  omega arith,
  omega arith,
  decode_body-primitive checksum put_op (omega arith, omega arith, omega arith),
)

pub erase-IsLogged : IsLogged checksum erase_record
unfolding le_bytes
erase-IsLogged =
    (omega arith, omega arith, decode_body-primitive checksum erase_op (omega arith, omega arith))

abbrev pub pieces : List Piece
pieces = single erase_op ∷ run 7 1 1 (((1 ∷ []), (9 ∷ [])) ∷ ((2 ∷ []), (8 ∷ [])) ∷ []) ∷ []

pub pieces_fit : All PieceFits pieces
pieces_fit = (
  (omega arith, omega arith),
  (
    (
      omega arith,
      omega arith,
      omega arith,
      omega arith,
      omega arith,
      (refl, refl, (refl, refl, tt)),
    ),
    tt,
  ),
)

abbrev pub all_done : Io
all_done = record { write = done; sync = done; set_len = done; medium = [] }

-- A log with one record, none of it written yet.
abbrev pub one_pending : WalWriter
one_pending = record {
  file = record { os = encode_file_header header []; durable = encode_file_header header [] };
  pending = log_wire checksum (put_record ∷ []);
  bytes_written = 32;
  header = header;
}
