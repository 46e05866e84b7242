-- ===== src/Journal/Decode/Total.antt =====
-- The decoder answers on any bytes, as long as the allocator grants the counts it reads: it neither
-- panics nor runs out of fuel, and takes no more bytes than there are.
use artisan.Prelude.{
  Bool-cases, inl, inr, ℕ, zero, suc, ◌+◌, ◌-◌, ◌≤◌, ◌<◌, ◌≡◌, refl, ap, ◌∙◌, true, false, List, [],
  ◌∷◌, ◌++◌, arith, ltb, ◌==◌, length, drop, take, length-drop, length-take, take-drop-take,
  drop-drop, if◌then◌else◌, slice, get_or,
}
use artisan.Prelude.Bytes.{from_le_bytes}
use artisan.Errors.{Outcome, ok, err, ◌>>=◌, Post, Post-bind, Post-weaken, Post-if, good, bad}
use artisan.Journal.Record.{
  Platform, Primitive, insert, WalOp, primitive, batch, ty_batch, ty_batch_insert_run,
}
use artisan.Journal.Decode.{
  sanity, take_bytes, read_u8, read_u32, read_u64, read_bytes, decode_insert, decode_erase,
  decode_rename_object, decode_primitive, run_items, decode_insert_run, batch_step, batch_loop,
  with_capacity, decode_body_into, decode_body, decode_checked, decode_record, DecodedRecord,
}

no_match : (n : ℕ) → 0 < n → (n == 0) ≡ false
no_match n h = ground arith

-- What is left is no longer than the input.
abbrev Shrinks : {A : Type 0} → List ℕ → A × List ℕ → Type 0
Shrinks body r = length r.1 ≤ length body

take_bytes-answers :
    (buf : List ℕ) (n : ℕ)
    → Post (λ r. (length r.1 + n ≡ length buf) × (length r.0 ≡ n)) (take_bytes buf n)
unfolding take_bytes
take_bytes-answers buf n = elim (Bool-cases (ltb (length buf) n)) [
  | inl short ↦ rw short bad
  | inr room ↦
      rw room
        (good {a = (take n buf, drop n buf)} (ground (arith, length-drop n buf, length-take n buf)))
]

take_bytes-Shrinks : (buf : List ℕ) (n : ℕ) → Post (Shrinks buf) (take_bytes buf n)
take_bytes-Shrinks buf n = Post-weaken (take_bytes-answers buf n) (λ a h. omega (arith, h.0))

read_u8-answers : (body : List ℕ) → Post (λ r. length r.1 < length body) (read_u8 body)
unfolding read_u8
read_u8-answers body = Post-bind (take_bytes-answers body 1) (λ a h. good (omega (arith, h.0)))

-- The number that is read, and where it stood.
read_u32-here :
    (body : List ℕ)
    → Post (λ r. (r.0 ≡ from_le_bytes (take 4 body)) × (4 ≤ length body)) (read_u32 body)
unfolding read_u32 take_bytes
read_u32-here body = elim (Bool-cases (ltb (length body) 4)) [
  | inl short ↦ rw short bad
  | inr room ↦
      rw room (good {a = (from_le_bytes (take 4 body), drop 4 body)} (refl, ground (arith, room)))
]

read_u64-behind :
    (body : List ℕ) → Post (λ r. (r.1 ≡ drop 8 body) × (8 ≤ length body)) (read_u64 body)
unfolding read_u64 take_bytes
read_u64-behind body = elim (Bool-cases (ltb (length body) 8)) [
  | inl short ↦ rw short bad
  | inr room ↦
      rw room (good {a = (from_le_bytes (take 8 body), drop 8 body)} (refl, ground (arith, room)))
]

read_u32-answers : (body : List ℕ) → Post (Shrinks body) (read_u32 body)
unfolding read_u32
read_u32-answers body = Post-bind (take_bytes-answers body 4) (λ a h. good (omega (arith, h.0)))

read_u64-answers : (body : List ℕ) → Post (Shrinks body) (read_u64 body)
unfolding read_u64
read_u64-answers body = Post-bind (take_bytes-answers body 8) (λ a h. good (omega (arith, h.0)))

read_bytes-answers : (body : List ℕ) → Post (Shrinks body) (read_bytes body)
unfolding read_bytes
read_bytes-answers body =
    Post-bind (read_u32-answers body)
      (λ a h. Post-weaken (take_bytes-Shrinks a.1 a.0) (λ b k. omega (arith, h, k)))

-- One more read of a chain.
then_read :
    {A B : Type 0} (body : List ℕ) {m : Outcome (A × List ℕ)}
    {f : A × List ℕ → Outcome (B × List ℕ)}
    → Post (Shrinks body) m
    → ((a : A × List ℕ) → Post (Shrinks a.1) (f a))
    → Post (Shrinks body) (m >>= f)
then_read body h k = Post-bind h (λ a s. Post-weaken (k a) (λ b t. omega (arith, s, t)))

decode_insert-answers : (body : List ℕ) → Post (Shrinks body) (decode_insert body)
unfolding decode_insert
decode_insert-answers body = then_read body (read_u64-answers body) (λ a.
    then_read a.1 (read_bytes-answers a.1)
      (λ b. then_read b.1 (read_bytes-answers b.1) (λ d. good (omega arith))))

decode_erase-answers : (body : List ℕ) → Post (Shrinks body) (decode_erase body)
unfolding decode_erase
decode_erase-answers body =
    then_read body (read_u64-answers body)
      (λ a. then_read a.1 (read_bytes-answers a.1) (λ b. good (omega arith)))

decode_rename_object-answers : (body : List ℕ) → Post (Shrinks body) (decode_rename_object body)
unfolding decode_rename_object
decode_rename_object-answers body = then_read body (read_u64-answers body) (λ a.
    then_read a.1 (read_bytes-answers a.1) (λ b.
      then_read b.1 (read_bytes-answers b.1)
        (λ d. Post-bind (read_u8-answers d.1) (λ e h. good (omega (arith, h))))))

decode_primitive-answers : (ty : ℕ) (body : List ℕ) → Post (Shrinks body) (decode_primitive ty body)
unfolding decode_primitive
decode_primitive-answers ty body = search (
  Post-if,
  bad,
  decode_insert-answers body,
  decode_erase-answers body,
  decode_rename_object-answers body,
)

run_items-answers :
    (rounds t kl vl : ℕ) (body : List ℕ) (ops : List Primitive)
    → Post (Shrinks body) (run_items rounds t kl vl body ops)
unfolding run_items
run_items-answers zero t kl vl body ops = good (omega arith)
run_items-answers (suc rounds) t kl vl body ops = then_read body (take_bytes-Shrinks body kl) (λ a.
    then_read a.1 (take_bytes-Shrinks a.1 vl)
      (λ b. run_items-answers rounds t kl vl b.1 (ops ++ (insert t a.0 b.0 ∷ []))))

run_tail-answers :
    (count t : ℕ) (ops : List Primitive) (body : List ℕ)
    → Post
        (Shrinks body)
        (read_u32 body >>= λ d. read_u32 d.1 >>= λ e. run_items count t d.0 e.0 e.1 ops)
run_tail-answers count t ops body =
    then_read body (read_u32-answers body)
      (λ d. then_read d.1 (read_u32-answers d.1) (λ e. run_items-answers count t d.0 e.0 e.1 ops))

decode_insert_run-answers :
    (body : List ℕ) (count : ℕ) (ops : List Primitive)
    → Post (Shrinks body) (decode_insert_run body count ops)
unfolding decode_insert_run
decode_insert_run-answers body count ops = then_read body (read_u64-answers body) (λ a.
    then_read a.1 (read_u32-answers a.1)
      (λ b. search (Post-if, bad, run_tail-answers b.0 a.0 ops b.1)))

single-answers :
    (ty : ℕ) (ops : List Primitive) (body : List ℕ)
    → Post
        (Shrinks {A = List Primitive} body)
        (decode_primitive ty body >>= λ r. ok (ops ++ (r.0 ∷ []), r.1))
single-answers ty ops body = Post-bind (decode_primitive-answers ty body) (λ r h. good h)

batch_step-answers :
    (count : ℕ) (ops : List Primitive) (body : List ℕ)
    → Post (λ r. length r.1 < length body) (batch_step count ops body)
unfolding batch_step
batch_step-answers count ops body =
    Post-bind (read_u8-answers body) (λ a h. Post-weaken (step a) (λ r k. omega (arith, h, k)))
  where
    step :
        (a : ℕ × List ℕ)
        → Post (Shrinks {A = List Primitive} a.1) (
            if a.0 == ty_batch
            then err (sanity "nested Batch is rejected")
            else if a.0 == ty_batch_insert_run
            then decode_insert_run a.1 count ops
            else (decode_primitive a.0 a.1 >>= λ r. ok (ops ++ (r.0 ∷ []), r.1)))
    step a =
        search (Post-if, bad, decode_insert_run-answers a.1 count ops, single-answers a.0 ops a.1)

batch_loop-answers :
    (fuel count : ℕ) (ops : List Primitive) (body : List ℕ)
    → length body < fuel
    → Post (λ r. Unit {0}) (batch_loop fuel count ops body)
unfolding batch_loop
batch_loop-answers zero count ops body h = absurd (omega (arith, h))
batch_loop-answers (suc fuel) count ops body h =
    let more : Post (λ r. Unit {0})
        (batch_step count ops body >>= λ r. batch_loop fuel count r.0 r.1) =
      Post-bind (batch_step-answers count ops body)
        (λ a k. batch_loop-answers fuel count a.0 a.1 (omega (arith, h, k))) in
    elim (Bool-cases (ltb (length ops) count)) [
      | inl t ↦ rw t more
      | inr t ↦ rw t (good {a = (ops, body)} tt)
    ]

-- The allocator grants the count of a body that is long enough to have one.
abbrev GrantsCount : Platform → List ℕ → Type 0
GrantsCount c body = 12 ≤ length body → c.grants (from_le_bytes (take 4 (drop 8 body))) ≡ true

with_capacity-answers :
    (c : Platform) (count : ℕ) → c.grants count ≡ true → with_capacity c count ≡ ok []
unfolding with_capacity
with_capacity-answers c count h = rw h refl

batch_body-answers :
    (c : Platform) (body : List ℕ)
    → GrantsCount c body
    → Post
        (λ (r : WalOp × List ℕ). Unit {0})
        (read_u64 body >>= λ a. read_u32 a.1 >>= λ b. with_capacity c b.0 >>= λ ops.
          batch_loop (length b.1 + 1) b.0 ops b.1 >>= λ d. ok (batch d.0, d.1))
batch_body-answers c body grants = Post-bind (read_u64-behind body) (λ a (e, l).
    Post-bind (read_u32-here a.1) (λ b (f, k).
      let size : length a.1 ≡ length (drop 8 body) = ap length e in
      let granted : c.grants b.0 ≡ true =
        ap c.grants (f ∙ ap (λ x. from_le_bytes (take 4 x)) e)
        ∙ grants (omega (arith, size, length-drop 8 body)) in
      rw (with_capacity-answers c b.0 granted) (
        Post-bind (batch_loop-answers (length b.1 + 1) b.0 [] b.1 (omega arith)) (λ d _. good tt))))

primitive_body-answers :
    (ty : ℕ) (body : List ℕ)
    → Post
        (λ (r : WalOp × List ℕ). Unit {0})
        (decode_primitive ty body >>= λ r. ok (primitive r.0, r.1))
primitive_body-answers ty body = Post-bind (decode_primitive-answers ty body) (λ a h. good tt)

decode_body_into-answers :
    (c : Platform) (ty : ℕ) (body : List ℕ)
    → GrantsCount c body
    → Post (λ r. Unit {0}) (decode_body_into c ty body)
unfolding decode_body_into
decode_body_into-answers c ty body grants =
    search (Post-if, batch_body-answers c body grants, primitive_body-answers ty body)

exhausted-answers :
    (op : WalOp) (cursor : List ℕ)
    → Post
        (λ r. Unit {0})
        (if length cursor == 0 then ok op else err (sanity "trailing bytes after variant body"))
exhausted-answers op [] = good tt
exhausted-answers op (b ∷ cursor) = rw (no_match (suc (length cursor)) (omega arith)) bad

decode_body-answers :
    (c : Platform) (ty : ℕ) (body : List ℕ)
    → GrantsCount c body
    → Post (λ r. Unit {0}) (decode_body c ty body)
unfolding decode_body
decode_body-answers c ty body grants =
    Post-bind (decode_body_into-answers c ty body grants) (λ a h. exhausted-answers a.0 a.1)

-- A decoded record took at least its header and footer, and its bytes are all there.
abbrev pub Consumes : List ℕ → DecodedRecord → Type 0
Consumes buf r = (21 ≤ r.bytes_consumed) × (r.bytes_consumed ≤ length buf)

record-answers :
    (c : Platform) (buf body : List ℕ) (seq ty total : ℕ)
    → GrantsCount c body
    → 21 ≤ total
    → total ≤ length buf
    → Post
        (Consumes buf)
        (decode_body c ty body >>= λ op. ok (record { op = op; seq = seq; bytes_consumed = total }))
record-answers c buf body seq ty total grants lo hi =
    Post-bind (decode_body-answers c ty body grants) (λ a h. good (lo, hi))

-- Where a record has its count, if it is one of a batch: behind the header and the tree's number.
abbrev pub count_field : List ℕ → ℕ
count_field buf = from_le_bytes (take 4 (drop 25 buf))

slice-GrantsCount :
    (c : Platform) (buf : List ℕ) (n : ℕ)
    → c.grants (count_field buf) ≡ true
    → GrantsCount c (slice 17 (17 + n) buf)
slice-GrantsCount c buf n grants h =
    let room : 4 + 8 ≤ 17 + n - 17 = omega (arith, h, length-take (17 + n - 17) (drop 17 buf)) in
    ap c.grants (
      ap from_le_bytes
        (take-drop-take 4 8 (17 + n - 17) (drop 17 buf) room ∙ ap (take 4) (drop-drop 8 17 buf)))
    ∙ grants

decode_checked-answers :
    (c : Platform) (buf : List ℕ) (n seq ty : ℕ)
    → c.grants (count_field buf) ≡ true
    → Post (Consumes buf) (decode_checked c buf n seq ty)
unfolding decode_checked
decode_checked-answers c buf n seq ty grants = elim (Bool-cases (ltb (length buf) (17 + n + 4))) [
  | inl short ↦ rw short bad
  | inr room ↦ rw room (
      search (
        Post-if,
        bad,
        record-answers c buf (slice 17 (17 + n) buf) seq ty (17 + n + 4)
            (slice-GrantsCount c buf n grants) (omega arith) (ground arith),
      ))
]

-- If the allocator grants the count that stands where a batch record has it, then on any bytes
-- `decode_record` answers with a record that lies within them, or with an error: it does not panic,
-- and the batch loop has enough fuel.
pub decode_record-answers :
    (c : Platform) (buf : List ℕ)
    → c.grants (count_field buf) ≡ true
    → Post (Consumes buf) (decode_record c buf)
unfolding decode_record
decode_record-answers c buf grants = search (
  Post-if,
  bad,
  decode_checked-answers c buf (from_le_bytes (slice 4 8 buf)) (from_le_bytes (slice 8 16 buf))
      (get_or buf 16 0) grants,
)
