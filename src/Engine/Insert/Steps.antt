-- ===== src/Engine/Insert/Steps.antt =====
-- An insert at a leaf, an empty root or a BlobNode.
use artisan.Prelude.{
  ℕ, ◌≤◌, ◌<◌, ◌≡◌, refl, sym, ap, ◌∙◌, Bool, true, false, ◌&&◌, ◌||◌, not, List, leb, ◌==◌,
  if◌then◌else◌, length, arith,
}
use artisan.Errors.{Returns, returned, Returns-bind, Returns-if}
use artisan.Engine.Allocator.{Allocator, IsRefusal}
use artisan.Engine.Key.{user, key_len, longest_common_prefix}
use artisan.Engine.Key.Terminated.{same, same_eq, full}
use artisan.Engine.Tree.{Leaf, Node, empty_root, leaf, LookupResult, not_found, found, crossing}
use artisan.Engine.Tree.Finds.{IsTree, look}
use artisan.Engine.Tree.Keyed.{Stored, Keyed}
use artisan.Engine.Writers.{leaf_extent_size}
use artisan.Engine.Writers.Finds.{write_leaf-Single}
use artisan.Engine.Insert.{
  InsertCondition, always, if_absent, if_version, is_version, Blob, in_space, InsertStep, done,
  permits, insert_into_empty_root, update_leaf,
}

-- Whether the condition holds of what the tree holds for the key; a child blob decides for itself.
abbrev pub admits : InsertCondition → LookupResult → Bool
admits always not_found = true
admits always (found value seq) = true
admits always (crossing guid depth) = false
admits if_absent not_found = true
admits if_absent (found value seq) = false
admits if_absent (crossing guid depth) = false
admits (if_version expected) not_found = false
admits (if_version expected) (found value seq) = seq == expected
admits (if_version expected) (crossing guid depth) = false

admits-not_found : (c : InsertCondition) → admits c not_found ≡ not (is_version c)
admits-not_found always = refl
admits-not_found if_absent = refl
admits-not_found (if_version expected) = refl

pub admits-crossing :
    (c : InsertCondition) (guid depth : ℕ) → admits c (crossing guid depth) ≡ false
admits-crossing always guid depth = refl
admits-crossing if_absent guid depth = refl
admits-crossing (if_version expected) guid depth = refl

permits-admits :
    (c : InsertCondition) (l : Leaf)
    → permits c l ≡ admits c (if l.tombstone then not_found else found l.value l.seq)
permits-admits always l = ground arith
permits-admits if_absent l = ground arith
permits-admits (if_version expected) l = ground arith

module _ {S : Type 0} (w0 value : List ℕ) (seq : ℕ) (condition : InsertCondition) where
  -- The tree after the step, or the crossing at which the blob is as it was.
  abbrev pub Inserted : Node → ℕ → Blob S → InsertStep × Blob S → Type 0
  Inserted t d b (InsertStep.done n m, b') =
      IsTree n
      × ((m ≡ admits condition (look t w0 d))
          × (((w : List ℕ) → look n w d ≡ (if m && same w w0 then found value seq else look t w d))
              × ((path : List ℕ) → length path ≡ d → Stored path w0 → Keyed path t → Keyed path n)))
  Inserted t d b (InsertStep.crossing guid depth, b') =
      (look t w0 d ≡ LookupResult.crossing guid depth) × (b' ≡ b)

  pub kept-Inserted :
      (t : Node) (d : ℕ) (b : Blob S)
      → IsTree t
      → look t w0 d ≡ not_found
      → is_version condition ≡ true
      → Inserted t d b (done t false, b)
  kept-Inserted t d b i n v =
      (i, (rw (n, admits-not_found condition, v) refl, (λ w. refl, λ path l s h. h)))

  pub new-Inserted :
      (t n : Node) (d : ℕ) (b b' : Blob S)
      → IsTree n
      → look t w0 d ≡ not_found
      → is_version condition ≡ false
      → ((w : List ℕ) → look n w d ≡ (if same w w0 then found value seq else look t w d))
      → ((path : List ℕ) → length path ≡ d → Stored path w0 → Keyed path t → Keyed path n)
      → Inserted t d b (done n true, b')
  new-Inserted t n d b b' i e v f g = (i, (rw (e, admits-not_found condition, v) refl, (f, g)))

-- Neither the new key nor the one at hand is a strict prefix of the other.
abbrev pub Diverges : List ℕ → List ℕ → Type 0
Diverges x y = (longest_common_prefix x y < length x) × (longest_common_prefix x y < length y)

module _ {S : Type 0} (a : Allocator S) (k value : List ℕ) (seq : ℕ)
    (condition : InsertCondition) where
  pub insert_into_empty_root-Inserted :
      (slot d : ℕ) (b : Blob S)
      → 1 ≤ slot
      → Returns
          (Inserted (full k) value seq condition (empty_root slot) d b)
          IsRefusal
          (insert_into_empty_root a (user k) value seq condition slot b)
  unfolding insert_into_empty_root
  insert_into_empty_root-Inserted slot d b l =
      Returns-if
        (λ (v : is_version condition ≡ true).
          returned (kept-Inserted (full k) value seq condition (empty_root slot) d b l refl v))
        (λ (v : is_version condition ≡ false).
          Returns-bind (write_leaf-Single a k value seq b.space) (λ (n, s) (t, (f, g)).
            Returns-bind (a.free_node-refusal slot s) (λ s' u. returned (
              new-Inserted (full k) value seq condition (empty_root slot) n d b (in_space b s') t
                refl v (λ w. f w d) (λ path l s h. g path s)))))

  -- A leaf of the key's own: what was found, and what is found.
  own_leaf :
      (slot : ℕ) (l : Leaf) (w : List ℕ) (d : ℕ)
      → same (full k) l.key ≡ true
      → (if same w l.key then found value seq else not_found)
        ≡ (if same w (full k) then found value seq else look (leaf slot l) w d)
  own_leaf slot l w d h = let e : full k ≡ l.key = same_eq (full k) l.key h in rw e (ground arith)

  pub own_admits :
      (slot : ℕ) (l : Leaf) (d : ℕ)
      → same (full k) l.key ≡ true
      → admits condition (look (leaf slot l) (full k) d) ≡ permits condition l
  own_admits slot l d h = rw (h) (sym (permits-admits condition l))

  pub update_leaf-Inserted :
      (slot d : ℕ) (l : Leaf) (b : Blob S)
      → 1 ≤ slot
      → same (full k) l.key ≡ true
      → permits condition l ≡ true
      → Returns
          (Inserted (full k) value seq condition (leaf slot l) d b)
          IsRefusal
          (update_leaf a (user k) value seq condition slot l b)
  unfolding update_leaf
  update_leaf-Inserted slot d l b i h p =
      let adm = sym (own_admits slot l d h ∙ p) in
      let same_room =
        not l.tombstone && length value == length l.value
        || leb (leaf_extent_size (key_len (user k)) (length value))
            (leaf_extent_size (key_len (user k)) (length l.value)) in
      let e : full k ≡ l.key = same_eq (full k) l.key h in
      Returns-if
        (λ (u : same_room ≡ true).
          returned (i, (adm, (λ w. own_leaf slot l w d h, λ path n s x. x))))
        (λ (u : same_room ≡ false).
          Returns-bind (write_leaf-Single a k value seq b.space) (λ (n, s) (t, (f, g)).
            Returns-bind (a.free_node-refusal slot s) (λ s' u'. returned (
              t,
              (
                adm,
                (
                  λ w.
                      f w d
                      ∙ ap (λ z. if same w z then found value seq else not_found) e
                      ∙ own_leaf slot l w d h,
                  λ path n s x. g path s,
                ),
              ),
            ))))
