-- ===== src/Frame/Runs.antt =====
-- Sequences of calls of store/blob_frame.rs.
use artisan.Prelude.{
  ℕ, ◌+◌, ◌-◌, ◌*◌, ◌/◌, ◌%◌, ◌^◌, ◌≤◌, ◌<◌, ◌≡◌, refl, ap, ◌∙◌, false, some, ltb, leb, List, [],
  ◌∷◌, All, arith,
}
use artisan.Errors.{Outcome, ok, err, panic, out_of_fuel, Post, good}
use artisan.Layout.Node.{blob, page_size, max_slots}
use artisan.Layout.Slot.{raw, decode, live, node_type, decode-raw-live}
use artisan.Frame.{
  BlobFrame, spillover_reservation, put, slot_entry, bump, alloc_sibling, alloc_valid,
  alloc_node_inner, alloc_node, count_alloc, free_node, zeroed, init, Call, alloc_node_call,
  alloc_extent_call, free_node_call, kept, after, run_calls,
}
use artisan.Frame.Bounds.{Bounded, reserve_of, extend, slot_entry-some, put_same}
use artisan.Layout.Node.{from_raw}
use artisan.Frame.Operations.{alloc_node-Bounded, alloc_extent-Bounded, free_node-Bounded}
use artisan.Frame.{body_of_slot}

-- A call that leaves `reserve` bytes: an extent, a free, or the allocation of a type that may not
-- take them.
abbrev pub Leaves : ℕ → Call → Type 0
Leaves r (alloc_node_call t) = r ≤ reserve_of t
Leaves r c = r ≤ spillover_reservation

kept-Bounded :
    (r : ℕ) (f : BlobFrame) (o : Outcome (ℕ × BlobFrame))
    → Bounded r f
    → Post (λ (slot, g). Bounded r g) o
    → Bounded r (kept f o)
kept-Bounded r f (ok (s, g)) b (good h) = h
kept-Bounded r f (err e) b p = b
kept-Bounded r f panic b p = b
kept-Bounded r f out_of_fuel b p = b

pub after-Bounded :
    (r : ℕ) (f : BlobFrame) (c : Call) → Leaves r c → Bounded r f → Bounded r (after f c)
unfolding after
after-Bounded r f (alloc_node_call t) h b = kept-Bounded r f _ b (alloc_node-Bounded r f b t h)
after-Bounded r f (alloc_extent_call n) h b = kept-Bounded r f _ b (alloc_extent-Bounded r f b n h)
after-Bounded r f (free_node_call s) h b = go (free_node s f) (free_node-Bounded r f b s)
  where
    go : (o : Outcome BlobFrame) → Post (Bounded r) o → Bounded r (elim o [ ok g ↦ g | o ↦ f ])
    go (ok g) (good k) = k
    go (err e) p = b
    go panic p = b
    go out_of_fuel p = b

pub run_calls-Bounded :
    (r : ℕ) (f : BlobFrame) (cs : List Call)
    → All (Leaves r) cs
    → Bounded r f
    → Bounded r (run_calls f cs)
run_calls-Bounded r f [] h b = b
run_calls-Bounded r f (c ∷ cs) (h, hs) b =
    run_calls-Bounded r (after f c) cs hs (after-Bounded r f c h b)

pub zeroed-Bounded : (guid : ℕ) → Bounded spillover_reservation (zeroed guid)
zeroed-Bounded guid = record {
  starts = omega arith;
  ends = omega arith;
  aligned = refl;
  slots = omega arith;
  offset_ge = λ s h k. absurd (omega arith);
  offset_lt = λ s h k. absurd (omega arith);
}

-- A new blob is made without an error, and keeps the bytes of spillover.
pub init-Bounded :
    (guid : ℕ) → (f : BlobFrame) × ((init guid ≡ ok f) × Bounded spillover_reservation f)
unfolding init alloc_node alloc_node_inner alloc_valid alloc_sibling bump
init-Bounded guid =
    (_, (refl, extend 8 8 (zeroed-Bounded guid) refl (omega arith) (omega arith) (omega arith)))

weaken : (f : BlobFrame) (r s : ℕ) → s ≤ r → Bounded r f → Bounded s f
weaken f r s h b = record {
  starts = b.starts;
  ends = omega (arith, b.ends);
  aligned = b.aligned;
  slots = b.slots;
  offset_ge = b.offset_ge;
  offset_lt = b.offset_lt;
}

-- From a new blob, any sequence of calls whose types may not take the last `r` bytes leaves them:
-- the data area begins after the slot table, ends `r` bytes before the page does at the latest, is
-- 8-aligned, there are at most `MAX_SLOTS` slots, and the body of each slot begins in the area.
pub run_calls-init :
    (r guid : ℕ) (cs : List Call)
    → r ≤ spillover_reservation
    → All (Leaves r) cs
    → (f : BlobFrame) × ((init guid ≡ ok f) × Bounded r (run_calls f cs))
run_calls-init r guid cs k h =
    let (f, (e, b)) = init-Bounded guid in
    (f, (e, run_calls-Bounded r f cs h (weaken f spillover_reservation r k b)))

-- The blob after a blob node was allocated at the end of the data area.
abbrev bumped : BlobFrame → BlobFrame
bumped f = count_alloc blob (record {
  header = record (f.header) {
    num_slots = f.header.num_slots + 1;
    space_used = f.header.space_used + 128;
    gap_space = (f.header.gap_space + 128) % 2 ^ 32;
  };
  table = put f.table (f.header.num_slots + 1) (raw (live blob f.header.space_used));
})

bump-blob :
    (f : BlobFrame)
    → f.header.num_slots < max_slots
    → f.header.space_used + 128 ≤ page_size
    → f.header.free_list_head 1 ≡ 0
    → f.header.free_list_head 2 ≡ 0
    → alloc_node blob f ≡ ok (f.header.num_slots + 1, bumped f)
unfolding alloc_node alloc_node_inner alloc_valid alloc_sibling bump
bump-blob f h k e1 e2 =
    let g1 : leb max_slots f.header.num_slots ≡ false = ground arith in
    let g2 : ltb (page_size - f.header.space_used) 128 ≡ false = ground arith in
    rw (e1, e2, g1, g2) refl

slot_entry-bumped :
    (f : BlobFrame)
    → f.header.space_used + 128 ≤ page_size
    → slot_entry (bumped f) (f.header.num_slots + 1) ≡ some (live blob f.header.space_used)
slot_entry-bumped f h =
    slot_entry-some (bumped f) (f.header.num_slots + 1) (omega arith) (omega arith)
    ∙ ap some (
        ap decode (put_same f.table (f.header.num_slots + 1) (raw (live blob f.header.space_used)))
        ∙ decode-raw-live blob f.header.space_used (omega arith))

body_of_slot-bumped :
    (f : BlobFrame)
    → f.header.space_used + 128 ≤ page_size
    → f.header.space_used % 8 ≡ 0
    → body_of_slot (bumped f) (f.header.num_slots + 1) ≡ some (f.header.space_used, 128)
unfolding body_of_slot node_type from_raw
body_of_slot-bumped f h k =
    let g : ltb page_size (f.header.space_used / 8 * 8 + 128) ≡ false = ground arith in
    let o : f.header.space_used / 8 * 8 ≡ f.header.space_used = omega arith in
    rw (slot_entry-bumped f h, body_of_slot, g) (ap (λ n. some (n, 128)) o)

-- In a blob that kept the bytes of spillover, with a slot index left and no body of that size to
-- reuse, a blob node is allocated: it gets the next slot, and its body is the next 128 bytes.
alloc_node-reserved :
    (f : BlobFrame)
    → Bounded spillover_reservation f
    → f.header.num_slots < max_slots
    → f.header.free_list_head 1 ≡ 0
    → f.header.free_list_head 2 ≡ 0
    → (g : BlobFrame) × ((alloc_node blob f ≡ ok (f.header.num_slots + 1, g))
        × (body_of_slot g (f.header.num_slots + 1) ≡ some (f.header.space_used, 128)))
alloc_node-reserved f b h e1 e2 = (
  bumped f,
  (
    bump-blob f h (omega (arith, b.ends)) e1 e2,
    body_of_slot-bumped f (omega (arith, b.ends)) b.aligned,
  ),
)
