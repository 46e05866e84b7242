-- ===== src/Journal/Decode/Reads.antt =====
-- The readers of the decoder undo the writers of the encoder, whatever follows.
use artisan.Prelude.{
  ℕ, ◌≡◌, refl, Bool, true, false, not, ◌==◌, List, ◌∷◌, ◌++◌, append_assoc, arith, length,
  length-append, take-append_of_eq, drop-append_of_eq,
}
use artisan.Prelude.Bytes.{le_bytes, length-le_bytes, from_le_bytes-le_bytes}
use artisan.Errors.{ok, ◌>>=◌}
use artisan.Journal.Record.{Primitive, insert, erase, rename_object}
use artisan.Journal.Wire.{U32, U64, wire_bytes, bool_wire, tag_of, primitive_wire, Fits}
use artisan.Journal.Decode.{take_bytes, read_u8, read_u32, read_u64, read_bytes, decode_primitive}

pub take_bytes-append :
    (n : ℕ) (xs ys : List ℕ) → n ≡ length xs → take_bytes (xs ++ ys) n ≡ ok (xs, ys)
unfolding take_bytes
take_bytes-append n xs ys e =
    ground (arith, length-append xs ys, take-append_of_eq n xs ys e, drop-append_of_eq n xs ys e)

pub read_u8-cons : (b : ℕ) (rest : List ℕ) → read_u8 (b ∷ rest) ≡ ok (b, rest)
unfolding read_u8
read_u8-cons b rest = ground arith

pub read_u32-append :
    (v : ℕ) (rest : List ℕ) → U32 v → read_u32 (le_bytes 4 v ++ rest) ≡ ok (v, rest)
unfolding read_u32
read_u32-append v rest h = ground (
  arith,
  take_bytes-append 4 (le_bytes 4 v) rest (omega (arith, length-le_bytes 4 v)),
  from_le_bytes-le_bytes 4 v h,
)

pub read_u64-append :
    (v : ℕ) (rest : List ℕ) → U64 v → read_u64 (le_bytes 8 v ++ rest) ≡ ok (v, rest)
unfolding read_u64
read_u64-append v rest h = ground (
  arith,
  take_bytes-append 8 (le_bytes 8 v) rest (omega (arith, length-le_bytes 8 v)),
  from_le_bytes-le_bytes 8 v h,
)

pub read_bytes-append :
    (b rest : List ℕ) → U32 (length b) → read_bytes (wire_bytes b ++ rest) ≡ ok (b, rest)
unfolding read_bytes
read_bytes-append b rest h =
    rw (append_assoc (le_bytes 4 (length b)) b rest)
      (rw (read_u32-append (length b) (b ++ rest) h) (take_bytes-append (length b) b rest refl))

read_force :
    (t : ℕ) (s d rest : List ℕ) (g : Bool)
    → ◌>>=◌ {B = Primitive × List ℕ}
        (read_u8 (bool_wire g ++ rest))
        (λ r. ok (rename_object t s d (not (r.0 == 0)), r.1))
      ≡ ok (rename_object t s d g, rest)
read_force t s d rest true = rw (read_u8-cons 1 rest)
read_force t s d rest false = rw (read_u8-cons 0 rest)

-- An operation is read back from its body.
pub decode_primitive-wire :
    (p : Primitive) (rest : List ℕ)
    → Fits p
    → decode_primitive (tag_of p) (primitive_wire p ++ rest) ≡ ok (p, rest)
unfolding decode_primitive
decode_primitive-wire (insert t k v) rest h =
    rw (append_assoc (le_bytes 8 t) (wire_bytes k ++ wire_bytes v) rest) (
      rw (read_u64-append t ((wire_bytes k ++ wire_bytes v) ++ rest) h.0) (
        rw (append_assoc (wire_bytes k) (wire_bytes v) rest) (
          rw (read_bytes-append k (wire_bytes v ++ rest) h.1) (rw (read_bytes-append v rest h.2)))))
decode_primitive-wire (erase t k) rest h =
    rw (append_assoc (le_bytes 8 t) (wire_bytes k) rest)
      (rw (read_u64-append t (wire_bytes k ++ rest) h.0) (rw (read_bytes-append k rest h.1)))
decode_primitive-wire (rename_object t s d f) rest h =
    let tail = wire_bytes d ++ bool_wire f in
    rw (append_assoc (le_bytes 8 t) (wire_bytes s ++ tail) rest) (
      rw (read_u64-append t ((wire_bytes s ++ tail) ++ rest) h.0) (
        rw (append_assoc (wire_bytes s) tail rest) (
          rw (read_bytes-append s (tail ++ rest) h.1) (
            rw (append_assoc (wire_bytes d) (bool_wire f) rest)
              (rw (read_bytes-append d (bool_wire f ++ rest) h.2) (read_force t s d rest f))))))
