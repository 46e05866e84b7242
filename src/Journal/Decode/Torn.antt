-- ===== src/Journal/Decode/Torn.antt =====
-- The front of a record that a crash cut off is refused as truncated, and as nothing else.
use artisan.Prelude.{
  ℕ, ◌+◌, ◌≤◌, ◌<◌, ◌≡◌, ◌⊎◌, inl, inr, sym, ap, ◌∙◌, List, ◌∷◌, ◌++◌, arith, length, length-append,
  slice, slice_front, ltb, Bool-cases,
}
use artisan.Prelude.Bytes.{from_le_bytes}
use artisan.Errors.{err}
use artisan.Journal.Record.{Platform, record_magic}
use artisan.Journal.Wire.{U32, record_wire}
use artisan.Journal.Decode.{sanity, decode_checked, decode_record}
use artisan.Journal.Decode.Records.{magic_field, len_field, length-record_wire}

module _ (c : Platform) (seq ty : ℕ) (body front back : List ℕ) (x : ℕ)
    (cut : record_wire c seq ty body ≡ front ++ (x ∷ back)) (fits : U32 (length body)) where
  shorter : length front < 21 + length body
  shorter =
      omega (arith, ap length cut, length-append front (x ∷ back), length-record_wire c seq ty body)

  decode_checked-torn :
      (s t : ℕ) → decode_checked c front (length body) s t ≡ err (sanity "record body truncated")
  unfolding decode_checked
  decode_checked-torn s t = ground (arith, shorter)

  magic_seen : 17 ≤ length front → from_le_bytes (slice 0 4 front) ≡ record_magic
  magic_seen h =
      ap from_le_bytes (
        sym (slice_front 0 4 front (x ∷ back) (omega arith) (omega arith))
        ∙ ap (slice 0 4) (sym cut))
      ∙ magic_field seq ty body _

  len_seen : 17 ≤ length front → from_le_bytes (slice 4 8 front) ≡ length body
  len_seen h =
      ap from_le_bytes (
        sym (slice_front 4 8 front (x ∷ back) (omega arith) (omega arith))
        ∙ ap (slice 4 8) (sym cut))
      ∙ len_field seq ty body _ fits

  -- A proper front of a record whose body length fits its field is refused as a truncated header or
  -- as a truncated body.
  pub decode_record-torn :
      (decode_record c front ≡ err (sanity "record header truncated"))
      ⊎ (decode_record c front ≡ err (sanity "record body truncated"))
  unfolding decode_record
  decode_record-torn = elim (Bool-cases (ltb (length front) 17)) [
    | inl short ↦ inl (rw short)
    | inr long ↦ inr (
        rw long
          (rw (magic_seen (ground arith)) (rw (len_seen (ground arith)) (decode_checked-torn _ _))))
  ]
