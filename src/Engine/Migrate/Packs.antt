-- ===== src/Engine/Migrate/Packs.antt =====
-- `pack_inner_node`: the smallest node that holds the copies.
use artisan.Prelude.{
  ℕ, zero, suc, ◌+◌, ◌≤◌, ◌≡◌, refl, ap, ◌∙◌, Bool, true, false, Option, none, some, List, [], ◌∷◌,
  ◌++◌, ◌==◌, leb, if◌then◌else◌, length, get_elem?, arith, ◌%◌, drop,
}
use artisan.Errors.{◌>>=◌, ok, Returns, returned, Returns-bind, Returns-if}
use artisan.Layout.Node.{NodeType, node4, node16, node48, node256}
use artisan.Engine.Allocator.{Allocator, IsRefusal}
use artisan.Engine.Key.Terminated.{starts}
use artisan.Engine.Inner.{
  Cell, Inner, cells4, cells16, table48, table256, find_byte, index_cells, children_48,
}
use artisan.Engine.Inner.Finds.{Ascending, IsTable, IsInner, child_of}
use artisan.Engine.Inner.Tables.{index_cells-Grown}
use artisan.Engine.Tree.{Node, prefix, inner, LookupResult, not_found}
use artisan.Engine.Tree.Finds.{IsTree, look, pick}
use artisan.Engine.Tree.Keyed.{Keyed, Keyed-Begins}
use artisan.Engine.Writers.{write_prefix_chain, prefix_chain}
use artisan.Engine.Migrate.{Survivors, slots, node_at, child_or_zero, pack_inner_node}
use artisan.Engine.Migrate.Holds.{look_at, AreTrees, IsPack, inner-IsPack}

child_zero :
    (o : Option ℕ)
    → ((c : ℕ) → o ≡ some c → 1 ≤ c)
    → (if child_or_zero o == 0 then none else some (child_or_zero o)) ≡ o
child_zero none h = refl
child_zero (some c) h = ground (arith, h c)

find-Ascending :
    (cells : List Cell) (b c : ℕ) → Ascending cells → find_byte b cells ≡ some c → 1 ≤ c
find-Ascending [] b c h e = absurd (cc e)
find-Ascending ((k, x) ∷ cells) b c h e = ground (arith, find-Ascending cells b c, h.0, e)

pub recount :
    (c c' : ℕ) (index : ℕ → ℕ) (children : List ℕ)
    → c ≡ c'
    → IsTable c index children
    → IsTable c' index children
recount c c' index children e h = rw e at h

-- A Node256 of the copies.
pub child_256 :
    (ss : Survivors) (count b : ℕ)
    → Ascending (slots ss)
    → child_of (table256 count (λ b. child_or_zero (find_byte b (slots ss)))) b
      ≡ find_byte b (slots ss)
child_256 ss count b h = child_zero (find_byte b (slots ss)) (λ c. find-Ascending (slots ss) b c h)

length-slots : (ss : Survivors) → length (slots ss) ≡ length ss
length-slots [] = refl
length-slots ((k, n) ∷ ss) = ap suc (length-slots ss)

starts_one :
    (b : ℕ) (w : List ℕ) (d : ℕ) (r : LookupResult)
    → (if starts (b ∷ []) (drop d w) then r else not_found)
      ≡ pick (get_elem? w d) (λ x. if b == x then r else not_found)
starts_one b [] zero r = refl
starts_one b [] (suc d) r = refl
starts_one b (x ∷ w) zero r = ground arith
starts_one b (x ∷ w) (suc d) r = starts_one b w d r

look_if :
    (t : Bool) (n : Node) (w : List ℕ) (d : ℕ)
    → (if t then look n w d else not_found) ≡ look_at (if t then some n else none) w d
look_if true n w d = refl
look_if false n w d = refl

-- The answer of `pack_inner_node`: nothing for no copies.
abbrev pub Packed : {S : Type 0} → Survivors → Option Node × S → Type 0
Packed [] (none, s) = Unit {0}
Packed [] (some n, s) = ⊥
Packed (x ∷ ss) (none, s) = ⊥
Packed (x ∷ ss) (some n, s) = IsPack (x ∷ ss) n

lone-IsPack :
    (b slot : ℕ) (child : Node)
    → 1 ≤ slot
    → IsTree child
    → IsPack ((b, child) ∷ []) (prefix slot (b ∷ []) child)
lone-IsPack b slot child p t = record {
  tree = (p, (omega arith, t));
  looks = λ w d.
      starts_one b w d (look child w (d + 1))
      ∙ (λ i. pick (get_elem? w d) (λ x. look_if (b == x) child w (d + 1) i));
  keyed = λ path q h.
      let r : (b == b) ≡ true = ground arith in
      let k : Keyed (path ++ (b ∷ [])) child = h b child (rw r refl) in
      (Keyed-Begins (path ++ (b ∷ [])) child k, k);
  live = λ h. let r : (b == b) ≡ true = ground arith in h b child (rw r refl);
}

module _ {S : Type 0} (a : Allocator S) where
  chain_one :
      (b : ℕ) (child : Node) (s : S)
      → write_prefix_chain a (b ∷ []) child s
        ≡ (a.alloc_node NodeType.prefix s >>= λ (slot, s'). ok (prefix slot (b ∷ []) child, s'))
  unfolding write_prefix_chain prefix_chain
  chain_one b child s = refl

  chain-IsPack :
      (b : ℕ) (child : Node) (s : S)
      → IsTree child
      → Returns
          (λ (r : Node × S). IsPack ((b, child) ∷ []) r.0)
          IsRefusal
          (write_prefix_chain a (b ∷ []) child s)
  chain-IsPack b child s t = rw (chain_one b child s) (
      Returns-bind (a.alloc_node-slot NodeType.prefix s)
        (λ (slot, s') p. returned (lone-IsPack b slot child p t)))

  node_Packed :
      (x y : ℕ × Node) (ss : Survivors) (t : NodeType) (n : Inner) (s : S)
      → AreTrees (x ∷ y ∷ ss)
      → IsInner n
      → ((b : ℕ) → child_of n b ≡ find_byte b (slots (x ∷ y ∷ ss)))
      → Returns
          (Packed (x ∷ y ∷ ss))
          IsRefusal
          (a.alloc_node t s >>= λ (slot, s'). ok (some (inner slot n (node_at (x ∷ y ∷ ss))), s'))
  node_Packed x y ss t n s h i e =
      Returns-bind (a.alloc_node-slot t s)
        (λ (slot, s') p. returned (inner-IsPack (x ∷ y ∷ ss) slot n p h.1 i e))

  pub pack_inner_node-Packed :
      (ss : Survivors) (s : S)
      → AreTrees ss
      → Returns (Packed ss) IsRefusal (pack_inner_node a ss s)
  unfolding pack_inner_node
  pack_inner_node-Packed [] s h = returned tt
  pack_inner_node-Packed ((b, child) ∷ []) s h =
      let r : (b == b) ≡ true = ground arith in
      Returns-bind (chain-IsPack b child s (h.1 b child (rw r refl))) (λ (n, s') q. returned q)
  pack_inner_node-Packed (x ∷ y ∷ rest) s h =
      let ss = x ∷ y ∷ rest in
      let l = length-slots ss in
      Returns-if
        (λ (t : leb (length ss) 4 ≡ true).
          node_Packed x y rest node4 (cells4 (slots ss)) s h (h.0, ground (arith, l, t))
            (λ b. refl))
        (λ (t4 : leb (length ss) 4 ≡ false).
          Returns-if
            (λ (t : leb (length ss) 16 ≡ true).
              node_Packed x y rest node16 (cells16 (slots ss)) s h (h.0, ground (arith, l, t))
                (λ b. refl))
            (λ (t16 : leb (length ss) 16 ≡ false).
              Returns-if
                (λ (t : leb (length ss) 48 ≡ true).
                  let (i, f) = index_cells-Grown (slots ss) h.0 (ground (arith, l, t)) in
                  node_Packed x y rest node48
                    (table48 (length ss) (index_cells 0 (slots ss) (λ b. 0))
                      (children_48 (slots ss)))
                    s h (recount (length (slots ss)) (length ss) _ _ l i) f)
                (λ (t48 : leb (length ss) 48 ≡ false).
                  node_Packed x y rest node256
                    (table256 (length ss % 256) (λ b. child_or_zero (find_byte b (slots ss)))) s h
                    tt (λ b. child_256 ss (length ss % 256) b h.0))))
