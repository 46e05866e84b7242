-- ===== src/Journal/Encode/Direct.antt =====
-- The encoders of one operation, which the write path calls, against the encoder of a `WalOp`.
use artisan.Prelude.{ℕ, ◌+◌, ◌≡◌, refl, List, ◌++◌, arith, length, length-append, true, false}
use artisan.Prelude.Bytes.{length-le_bytes}
use artisan.Errors.{Outcome, ok}
use artisan.Journal.Record.{Platform, Primitive, insert, erase, rename_object, primitive}
use artisan.Journal.Wire.{U32, Fits, primitive_wire, tag_of, record_wire}
use artisan.Journal.Encode.{
  encode_record, encode_body, encode_insert_record, encode_erase_record,
  encode_rename_object_record, encoded_insert_record_len, encoded_erase_record_len,
  encoded_rename_object_record_len, primitive_body, primitive_tag, variant_tag,
}
use artisan.Journal.Encode.Appends.{encode_record_ok}
use artisan.Journal.Decode.Records.{length-record_wire}

abbrev pub encode_primitive : Platform → List ℕ → ℕ → Primitive → Outcome (List ℕ)
encode_primitive c out seq (insert t k v) = encode_insert_record c out seq t k v
encode_primitive c out seq (erase t k) = encode_erase_record c out seq t k
encode_primitive c out seq (rename_object t s d f) = encode_rename_object_record c out seq t s d f

abbrev pub encoded_len : Primitive → ℕ
encoded_len (insert t k v) = encoded_insert_record_len (length k) (length v)
encoded_len (erase t k) = encoded_erase_record_len (length k)
encoded_len (rename_object t s d f) = encoded_rename_object_record_len (length s) (length d)

same_record :
    (c : Platform) (out : List ℕ) (seq : ℕ) (p : Primitive)
    → encode_primitive c out seq p ≡ encode_record c (primitive p) seq out
unfolding encode_record encode_insert_record encode_erase_record encode_rename_object_record
    primitive_body primitive_tag variant_tag encode_body
same_record c out seq (insert t k v) = refl
same_record c out seq (erase t k) = refl
same_record c out seq (rename_object t s d f) = refl

length-primitive_wire : (p : Primitive) → 21 + length (primitive_wire p) ≡ encoded_len p
length-primitive_wire (insert t k v) = omega (arith, length-append {0}, length-le_bytes)
length-primitive_wire (erase t k) = omega (arith, length-append {0}, length-le_bytes)
length-primitive_wire (rename_object t s d true) = omega (arith, length-append {0}, length-le_bytes)
length-primitive_wire (rename_object t s d false) =
    omega (arith, length-append {0}, length-le_bytes)

-- The encoder of each operation appends the bytes that `encode_record` appends for it, and they are
-- as many as the length that the caller reserves. The fields and the body fit their widths.
pub encode_primitive-reserved :
    (c : Platform) (out : List ℕ) (seq : ℕ) (p : Primitive)
    → Fits p
    → U32 (length (primitive_wire p))
    → (bytes : List ℕ) × ((encode_primitive c out seq p ≡ ok (out ++ bytes))
        × ((encode_record c (primitive p) seq out ≡ ok (out ++ bytes))
            × (length bytes ≡ encoded_len p)))
encode_primitive-reserved c out seq p h k =
    let bytes = record_wire c seq (tag_of p) (primitive_wire p) in
    let e = encode_record_ok c (primitive p) seq out h k in
    (
      bytes,
      (
        rw (same_record c out seq p) e,
        (
          e,
          omega (
            arith,
            length-record_wire c seq (tag_of p) (primitive_wire p),
            length-primitive_wire p,
          ),
        ),
      ),
    )
