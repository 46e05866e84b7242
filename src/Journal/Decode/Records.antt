-- ===== src/Journal/Decode/Records.antt =====
-- Whole records: what `decode_record` answers on a framed record, and on the front of one.
use artisan.Prelude.{
  ℕ, ◌+◌, ◌-◌, ◌≡◌, refl, sym, List, ◌++◌, append_assoc, arith, length, length-append, take, drop,
  slice, get_or, take-append_of_eq, drop-append_of_eq,
}
use artisan.Prelude.Bytes.{le_bytes, from_le_bytes, length-le_bytes, from_le_bytes-le_bytes}
use artisan.Errors.{ok}
use artisan.Journal.Record.{Platform, WalOp, record_magic}
use artisan.Journal.Wire.{U32, U64, covered, record_wire}
use artisan.Journal.Decode.{decode_body, decode_checked, decode_record}

pub length-covered : (seq ty : ℕ) (body : List ℕ) → length (covered seq ty body) ≡ 17 + length body
length-covered seq ty body = omega (arith, length-append {0}, length-le_bytes)

pub length-record_wire :
    (c : Platform) (seq ty : ℕ) (body : List ℕ)
    → length (record_wire c seq ty body) ≡ 21 + length body
length-record_wire c seq ty body = omega (
  arith,
  length-append (covered seq ty body) (le_bytes 4 (c.hash (covered seq ty body))),
  length-covered seq ty body,
  length-le_bytes 4 (c.hash (covered seq ty body)),
)

-- The fields of a header, whatever follows it.
module _ (seq ty : ℕ) (body tail : List ℕ) where
  pub magic_field : from_le_bytes (slice 0 4 (covered seq ty body ++ tail)) ≡ record_magic
  unfolding le_bytes
  magic_field = from_le_bytes-le_bytes 4 record_magic (omega arith)

  pub len_field :
      U32 (length body) → from_le_bytes (slice 4 8 (covered seq ty body ++ tail)) ≡ length body
  unfolding le_bytes
  len_field h = from_le_bytes-le_bytes 4 (length body) h

  seq_field : U64 seq → from_le_bytes (slice 8 16 (covered seq ty body ++ tail)) ≡ seq
  unfolding le_bytes
  seq_field h = from_le_bytes-le_bytes 8 seq h

  ty_field : get_or (covered seq ty body ++ tail) 16 0 ≡ ty
  unfolding le_bytes
  ty_field = refl

  body_field : drop 17 (covered seq ty body ++ tail) ≡ body ++ tail
  unfolding le_bytes
  body_field = refl

decode_checked-wire :
    (c : Platform) (seq ty : ℕ) (body rest : List ℕ) (op : WalOp)
    → decode_body c ty body ≡ ok op
    → decode_checked c
        (covered seq ty body ++ (le_bytes 4 (c.hash (covered seq ty body)) ++ rest))
        (length body)
        seq
        ty
      ≡ ok (record { op = op; seq = seq; bytes_consumed = 17 + length body + 4 })
unfolding decode_checked
decode_checked-wire c seq ty body rest op e =
    let crc = le_bytes 4 (c.hash (covered seq ty body)) in
    let tail = crc ++ rest in
    let four : 17 + length body + 4 - (17 + length body) ≡ 4 = omega arith in
    let front : length body ≡ 17 + length body - 17 = omega arith in
    let at_crc : slice (17 + length body) (17 + length body + 4) (covered seq ty body ++ tail)
        ≡ crc =
      rw four (
        rw
          (drop-append_of_eq (17 + length body) (covered seq ty body) tail
            (sym (length-covered seq ty body)))
          (take-append_of_eq 4 crc rest
            (sym (length-le_bytes 4 (c.hash (covered seq ty body)))))) in
    let at_body : slice 17 (17 + length body) (covered seq ty body ++ tail) ≡ body =
      rw (body_field seq ty body tail)
        (take-append_of_eq (17 + length body - 17) body tail (omega arith)) in
    let covers : take (17 + length body) (covered seq ty body ++ tail) ≡ covered seq ty body =
      take-append_of_eq (17 + length body) (covered seq ty body) tail
        (sym (length-covered seq ty body)) in
    ground (
      arith,
      at_crc,
      at_body,
      covers,
      e,
      from_le_bytes-le_bytes 4 (c.hash (covered seq ty body)) (c.hash_lt (covered seq ty body)),
      length-append (covered seq ty body) tail,
      length-append crc rest,
      length-covered seq ty body,
      length-le_bytes 4 (c.hash (covered seq ty body)),
    )

-- A framed record is read back with its sequence and length, whatever follows it.
pub decode_record-wire :
    (c : Platform) (seq ty : ℕ) (body rest : List ℕ) (op : WalOp)
    → U64 seq
    → U32 (length body)
    → decode_body c ty body ≡ ok op
    → decode_record c (record_wire c seq ty body ++ rest)
      ≡ ok (record { op = op; seq = seq; bytes_consumed = 17 + length body + 4 })
unfolding decode_record
decode_record-wire c seq ty body rest op hs hb e =
    let crc = le_bytes 4 (c.hash (covered seq ty body)) in
    let tail = crc ++ rest in
    rw (append_assoc (covered seq ty body) crc rest) (
      rw (magic_field seq ty body tail) (
        rw (len_field seq ty body tail hb) (
          rw (seq_field seq ty body tail hs) (
            rw (ty_field seq ty body tail) (
              ground (
                arith,
                length-append (covered seq ty body) tail,
                length-covered seq ty body,
                decode_checked-wire c seq ty body rest op e,
              ))))))
