-- ===== src/Frame/Bounds.antt =====
-- The data area of store/blob_frame.rs: nodes and extents stay inside the page, and the bytes that
-- spillover needs stay free.
use artisan.Prelude.{
  ℕ, ◌+◌, ◌-◌, ◌*◌, ◌/◌, ◌%◌, ◌^◌, ◌≤◌, ◌<◌, ◌≡◌, ◌≢◌, ◌⊎◌, refl, none, some, ltb, ◌==◌, ◌||◌,
  tests, arith, Bool-cases, inl, inr,
}
use artisan.Layout.Node.{
  NodeType, invalid, leaf, prefix, blob, node4, node16, node48, node256, empty_root, size_of_node,
  page_size, max_slots, data_area_start,
}
use artisan.Layout.Slot.{raw, decode}
use artisan.Frame.{BlobFrame, spillover_reservation, put, slot_entry, available}

-- The words of a blob: what its slots and its data area take, with `reserve` bytes left.
pub record IsBounded (reserve space num : ℕ) (table : ℕ → ℕ) : Type 0 where
  pub starts : data_area_start ≤ space
  pub ends : space + reserve ≤ page_size
  pub aligned : space % 8 ≡ 0
  pub slots : num ≤ max_slots
  pub offset_ge : (slot : ℕ) → 1 ≤ slot → slot ≤ num → data_area_start ≤ table slot % 2 ^ 17 * 8
  pub offset_lt : (slot : ℕ) → 1 ≤ slot → slot ≤ num → table slot % 2 ^ 17 * 8 + 8 ≤ space

abbrev pub Bounded : ℕ → BlobFrame → Type 0
Bounded reserve f = IsBounded reserve f.header.space_used f.header.num_slots f.table

-- The bytes that an allocation of the type leaves.
abbrev pub reserve_of : NodeType → ℕ
reserve_of blob = 0
reserve_of t = spillover_reservation

raw_mod :
    (off tag : ℕ)
    → off < 2 ^ 17
    → raw (record { offset_div8 = off; ntype_or_next_free = tag }) % 2 ^ 17 ≡ off
unfolding raw
raw_mod off tag h = omega arith

-- A word of the table after a write is the new one or an old one.
put_ind :
    (P : ℕ → Type 0) (f : ℕ → ℕ) (i v j : ℕ) → (j ≡ i → P v) → (j ≢ i → P (f j)) → P (put f i v j)
put_ind P f i v j h k = elim (Bool-cases (j == i)) [
  | inl e ↦ rw e (h (grind tests))
  | inr e ↦ rw e (k (grind tests))
]

module _ {r space num : ℕ} {table : ℕ → ℕ} where
  -- A word is rewritten with its offset kept.
  pub retag :
      (slot tag : ℕ)
      → 1 ≤ slot
      → slot ≤ num
      → IsBounded r space num table
      → IsBounded r space num (
          put table slot
            (raw (record { offset_div8 = table slot % 2 ^ 17 * 8 / 8; ntype_or_next_free = tag })))
  retag slot tag h1 h2 b = record {
    starts = b.starts;
    ends = b.ends;
    aligned = b.aligned;
    slots = b.slots;
    offset_ge = λ s h k.
        put_ind (λ w. data_area_start ≤ w % 2 ^ 17 * 8) table slot _ s
          (λ e. omega (
            arith,
            raw_mod (table slot % 2 ^ 17 * 8 / 8) tag (omega arith),
            b.offset_ge slot h1 h2,
          ))
          (λ n. b.offset_ge s h k);
    offset_lt = λ s h k.
        put_ind (λ w. w % 2 ^ 17 * 8 + 8 ≤ space) table slot _ s
          (λ e. omega (
            arith,
            raw_mod (table slot % 2 ^ 17 * 8 / 8) tag (omega arith),
            b.offset_lt slot h1 h2,
          ))
          (λ n. b.offset_lt s h k);
  }

  pub grow :
      (size : ℕ)
      → IsBounded r space num table
      → size % 8 ≡ 0
      → space + size + r ≤ page_size
      → IsBounded r (space + size) num table
  grow size b h k = record {
    starts = omega (arith, b.starts);
    ends = k;
    aligned = omega (arith, b.aligned);
    slots = b.slots;
    offset_ge = b.offset_ge;
    offset_lt = λ s p q. omega (arith, b.offset_lt s p q);
  }

  pub extend :
      (size tag : ℕ)
      → IsBounded r space num table
      → size % 8 ≡ 0
      → 8 ≤ size
      → space + size + r ≤ page_size
      → num < max_slots
      → IsBounded r
          (space + size)
          (num + 1)
          (put table (num + 1) (raw (record { offset_div8 = space / 8; ntype_or_next_free = tag })))
  extend size tag b h h8 k kn = record {
    starts = omega (arith, b.starts);
    ends = k;
    aligned = omega (arith, b.aligned);
    slots = omega arith;
    offset_ge = λ s p q.
        put_ind (λ w. data_area_start ≤ w % 2 ^ 17 * 8) table (num + 1) _ s
          (λ e. omega (arith, raw_mod (space / 8) tag (omega (arith, b.ends)), b.starts, b.aligned))
          (λ n. b.offset_ge s p (omega arith));
    offset_lt = λ s p q.
        put_ind (λ w. w % 2 ^ 17 * 8 + 8 ≤ space + size) table (num + 1) _ s
          (λ e. omega (arith, raw_mod (space / 8) tag (omega (arith, b.ends)), b.starts, b.aligned))
          (λ n. omega (arith, b.offset_lt s p (omega arith)));
  }

pub size_of_node-lem : (t : NodeType) → t ≢ invalid → (size_of_node t % 8 ≡ 0) × 8 ≤ size_of_node t
size_of_node-lem invalid h = absurd (h refl)
size_of_node-lem leaf h = (refl, ground arith)
size_of_node-lem prefix h = (refl, ground arith)
size_of_node-lem blob h = (refl, ground arith)
size_of_node-lem node4 h = (refl, ground arith)
size_of_node-lem node16 h = (refl, ground arith)
size_of_node-lem node48 h = (refl, ground arith)
size_of_node-lem node256 h = (refl, ground arith)
size_of_node-lem empty_root h = (refl, ground arith)

pub available-lem :
    (t : NodeType) (f : BlobFrame) → available t f ≡ page_size - f.header.space_used - reserve_of t
available-lem invalid f = refl
available-lem leaf f = refl
available-lem prefix f = refl
available-lem blob f = omega arith
available-lem node4 f = refl
available-lem node16 f = refl
available-lem node48 f = refl
available-lem node256 f = refl
available-lem empty_root f = refl

pub put_same : (f : ℕ → ℕ) (i v : ℕ) → put f i v i ≡ v
put_same f i v = ground arith

pub slot_entry-some :
    (f : BlobFrame) (slot : ℕ)
    → 1 ≤ slot
    → slot ≤ f.header.num_slots
    → slot_entry f slot ≡ some (decode (f.table slot))
unfolding slot_entry
slot_entry-some f slot h k = ground arith

pub slot_entry-cases :
    (f : BlobFrame) (slot : ℕ)
    → (slot_entry f slot ≡ none)
      ⊎ (1 ≤ slot × slot ≤ f.header.num_slots × (slot_entry f slot ≡ some (decode (f.table slot))))
unfolding slot_entry
slot_entry-cases f slot = elim (Bool-cases ((slot == 0) || ltb f.header.num_slots slot)) [
  | inl e ↦ inl (rw e refl)
  | inr e ↦ inr (ground arith, ground arith, rw e refl)
]
