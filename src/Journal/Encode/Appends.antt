-- ===== src/Journal/Encode/Appends.antt =====
-- Each encoder appends exactly the record of its operation, and leaves what stood in the buffer.
use artisan.Prelude.{
  ℕ, ◌-◌, ◌≡◌, refl, sym, ap, ◌∙◌, Bool, true, false, List, [], ◌∷◌, ◌++◌, append_assoc, append-nil,
  arith, length, replicate, copy_at, length-append, slice-append, copy_at-append, All,
}
use artisan.Prelude.Bytes.{le_bytes, length-le_bytes}
use artisan.Errors.{Outcome, ok, to_u32_ok}
use artisan.Journal.Record.{
  Platform, Primitive, insert, erase, rename_object, WalOp, primitive, batch, record_magic,
  ty_batch,
}
use artisan.Journal.Wire.{
  U32, wire_bytes, bool_wire, tag_of, primitive_wire, Fits, inners_wire, batch_wire, covered,
  record_wire,
}
use artisan.Journal.Encode.{
  write_bytes, write_record, insert_body, bool_byte, erase_body, rename_object_body, primitive_body,
  primitive_tag, inner_bodies, encode_body, variant_tag, encode_record,
}

pub write_bytes_ok :
    (out b : List ℕ) → U32 (length b) → write_bytes out b ≡ ok (out ++ wire_bytes b)
unfolding write_bytes
write_bytes_ok out b h =
    rw (to_u32_ok (length b) h) (ap ok (append_assoc out (le_bytes 4 (length b)) b))

-- A body writer that appends `body`.
abbrev pub Appends : (List ℕ → Outcome (List ℕ)) → List ℕ → Type 0
Appends write body = (out : List ℕ) → write out ≡ ok (out ++ body)

regroup : (a z q t b : List ℕ) → ((((a ++ z) ++ q) ++ t) ++ b) ≡ a ++ (z ++ (q ++ (t ++ b)))
regroup a z q t b = simp append_assoc

-- The buffer after the length is patched in.
pub patched_lem :
    (out m z q : List ℕ) (ty : ℕ) (body len : List ℕ)
    → length z ≡ length len
    → copy_at (length (out ++ m)) len (((((out ++ m) ++ z) ++ q) ++ (ty ∷ [])) ++ body)
      ≡ out ++ (m ++ (len ++ (q ++ (ty ∷ body))))
patched_lem out m z q ty body len e =
    ap (copy_at (length (out ++ m)) len) (regroup (out ++ m) z q (ty ∷ []) body)
    ∙ copy_at-append (length (out ++ m)) len (out ++ m) z (q ++ (ty ∷ body)) refl e
    ∙ append_assoc out m (len ++ (q ++ (ty ∷ body)))

-- `write_record` appends the framed record.
pub write_record_ok :
    (c : Platform) (out : List ℕ) (seq ty : ℕ) (write : List ℕ → Outcome (List ℕ)) (body : List ℕ)
    → Appends write body
    → U32 (length body)
    → write_record c out seq ty write ≡ ok (out ++ record_wire c seq ty body)
unfolding write_record
write_record_ok c out seq ty write body appends h =
    let m = le_bytes 4 record_magic in
    let z = replicate {A = ℕ} 4 0 in
    let q = le_bytes 8 seq in
    let front = (((out ++ m) ++ z) ++ q) ++ (ty ∷ []) in
    let len : length (front ++ body) - length front ≡ length body =
      omega (arith, length-append front body) in
    let patched : copy_at (length (out ++ m)) (le_bytes 4 (length body)) (front ++ body)
        ≡ out ++ covered seq ty body =
      patched_lem out m z q ty body (le_bytes 4 (length body))
        (sym (length-le_bytes 4 (length body))) in
    let end : length (front ++ body) ≡ length (out ++ covered seq ty body) =
      omega (arith, length-append {0}, length-le_bytes) in
    rw (appends front) (
      rw len (
        rw (to_u32_ok (length body) h) (
          rw patched (
            rw (slice-append out (covered seq ty body) (length (front ++ body)) end)
              (ap ok (append_assoc out (covered seq ty body) _))))))

insert_body_ok :
    (t : ℕ) (k v : List ℕ)
    → U32 (length k)
    → U32 (length v)
    → Appends (insert_body t k v) (primitive_wire (insert t k v))
unfolding insert_body
insert_body_ok t k v hk hv out =
    rw (write_bytes_ok (out ++ le_bytes 8 t) k hk) (rw (write_bytes_ok _ v hv) (simp append_assoc))

erase_body_ok :
    (t : ℕ) (k : List ℕ) → U32 (length k) → Appends (erase_body t k) (primitive_wire (erase t k))
unfolding erase_body
erase_body_ok t k hk out = rw (write_bytes_ok (out ++ le_bytes 8 t) k hk) (simp append_assoc)

bool_byte-wire : (f : Bool) → bool_byte f ∷ [] ≡ bool_wire f
bool_byte-wire true = refl
bool_byte-wire false = refl

rename_object_body_ok :
    (t : ℕ) (s d : List ℕ) (f : Bool)
    → U32 (length s)
    → U32 (length d)
    → Appends (rename_object_body t s d f) (primitive_wire (rename_object t s d f))
unfolding rename_object_body
rename_object_body_ok t s d f hs hd out =
    rw (write_bytes_ok (out ++ le_bytes 8 t) s hs)
      (rw (write_bytes_ok _ d hd) (rw (bool_byte-wire f) (simp append_assoc)))

pub primitive_body_ok : (p : Primitive) → Fits p → Appends (primitive_body p) (primitive_wire p)
unfolding primitive_body
primitive_body_ok (insert t k v) h = insert_body_ok t k v h.1 h.2
primitive_body_ok (erase t k) h = erase_body_ok t k h.1
primitive_body_ok (rename_object t s d f) h = rename_object_body_ok t s d f h.1 h.2

primitive_tag-of : (p : Primitive) → primitive_tag p ≡ tag_of p
unfolding primitive_tag
primitive_tag-of (insert t k v) = refl
primitive_tag-of (erase t k) = refl
primitive_tag-of (rename_object t s d f) = refl

pub inner_bodies_ok :
    (ps : List Primitive) → All Fits ps → Appends (inner_bodies ps) (inners_wire ps)
unfolding inner_bodies
inner_bodies_ok [] h out = ap ok (sym (append-nil out))
inner_bodies_ok (p ∷ ps) h out = rw (primitive_tag-of p) (
    rw (primitive_body_ok p h.0 (out ++ (tag_of p ∷ [])))
      (rw (inner_bodies_ok ps h.1 _) (simp append_assoc)))

-- The body of a record, and what it asks of the operation.
abbrev pub body_wire : WalOp → List ℕ
body_wire (primitive p) = primitive_wire p
body_wire (batch ops) = batch_wire 0 (length ops) (inners_wire ops)

abbrev pub OpFits : WalOp → Type 0
OpFits (primitive p) = Fits p
OpFits (batch ops) = U32 (length ops) × All Fits ops

abbrev pub op_tag : WalOp → ℕ
op_tag (primitive p) = tag_of p
op_tag (batch ops) = ty_batch

encode_body_ok : (op : WalOp) → OpFits op → Appends (encode_body op) (body_wire op)
unfolding encode_body
encode_body_ok (primitive p) h out = primitive_body_ok p h out
encode_body_ok (batch ops) h out =
    rw (to_u32_ok (length ops) h.0) (rw (inner_bodies_ok ops h.1 _) (simp append_assoc))

variant_tag-op : (op : WalOp) → variant_tag op ≡ op_tag op
unfolding variant_tag
variant_tag-op (primitive p) = primitive_tag-of p
variant_tag-op (batch ops) = refl

-- An operation whose fields and body fit their widths is appended as its framed record, and what
-- stood in the buffer is left.
pub encode_record_ok :
    (c : Platform) (op : WalOp) (seq : ℕ) (out : List ℕ)
    → OpFits op
    → U32 (length (body_wire op))
    → encode_record c op seq out ≡ ok (out ++ record_wire c seq (op_tag op) (body_wire op))
unfolding encode_record
encode_record_ok c op seq out h hb =
    rw (variant_tag-op op) (
      write_record_ok c out seq (op_tag op) (encode_body op) (body_wire op) (encode_body_ok op h)
        hb)
