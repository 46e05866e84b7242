-- ===== src/Engine/Migrate/Nodes.antt =====
-- The copy of an inner node, of each type.
use artisan.Prelude.{ℕ, ◌≡◌, refl, ◌∙◌, Bool, true, false, not, Option, some, List, ◌==◌, arith}
use artisan.Errors.{Outcome, ok, ◌>>=◌, Returns, returned, Returns-bind, Returns-weaken}
use artisan.Layout.Node.{NodeType, node4, node16, node48, node256}
use artisan.Engine.Allocator.{Allocator, IsRefusal}
use artisan.Engine.Inner.{Cell, Inner, cells4, cells16, table48, table256, find_byte}
use artisan.Engine.Inner.Finds.{IsTable, IsInner, child_of}
use artisan.Engine.Tree.{Node, inner}
use artisan.Engine.Migrate.{
  Survivors, slots, at, node_at, pack_inner_node, check_48, clone_inner, child_or_zero,
}
use artisan.Engine.Migrate.Survivors.{in_span, clone_cells-Survive, clone_bytes-Survive}
use artisan.Engine.Migrate.Copied.{Copied, Same, Survive, has_cell}
use artisan.Engine.Migrate.Packs.{child_256, pack_inner_node-Packed}
use artisan.Engine.Migrate.Holds.{inner-IsPack, inner_buried}
use artisan.Engine.Migrate.Places.{Owned, clone_places-Moved, moved-IsTable, moved_copy}
use artisan.Engine.Migrate.Copies.{IsDom, copies_HaveTrees, pack-IsCopy, Packed-Copied}
use artisan.Engine.Migrate.Doms.{
  has_cell-find, span_IsDom, IsDom-4, IsDom-16, some_child, child_there,
}

-- Each place of a Node48 has its byte.
abbrev pub OwnedInner : Inner → Type 0
OwnedInner (cells4 cells) = Unit {0}
OwnedInner (cells16 cells) = Unit {0}
OwnedInner (table48 count index children) = Owned index children
OwnedInner (table256 count children) = Unit {0}

module _ {S : Type 0} (a : Allocator S) (slot : ℕ) (children : ℕ → Node)
    (f : ℕ → S → Outcome (Option Node × S)) where
  -- The children have copies.
  abbrev pub Clones : Bool → Inner → Type 0
  Clones filter n =
      (b c : ℕ) (s : S)
      → child_of n b ≡ some c
      → Returns (Copied filter (children b)) IsRefusal (f b s)

  pack_kept :
      (n : Inner) (dom : ℕ → Bool) (ss : Survivors) (s : S)
      → IsDom n dom
      → Survive true dom children ss
      → Returns (Copied true (inner slot n children)) IsRefusal (pack_inner_node a ss s)
  pack_kept n dom ss s i (v, u) =
      Returns-weaken
        (pack_inner_node-Packed a ss s (v, copies_HaveTrees true slot n children dom ss i u))
        (Packed-Copied slot n children dom ss i u)

  -- Without the filter, a node of the same type.
  write_kept :
      (n n' : Inner) (t : NodeType) (dom : ℕ → Bool) (ss : Survivors) (s : S)
      → IsDom n dom
      → ((b : ℕ) → Same false (dom b) (children b) (at ss b))
      → IsInner n'
      → ((b : ℕ) → child_of n' b ≡ find_byte b (slots ss))
      → Returns
          (Copied false (inner slot n children))
          IsRefusal
          (a.alloc_node t s >>= λ (out, s'). ok (some (inner out n' (node_at ss)), s'))
  write_kept n n' t dom ss s i u j e = Returns-bind (a.alloc_node-slot t s) (λ (out, s') p.
      let h = copies_HaveTrees false slot n children dom ss i u in
      returned (
        pack-IsCopy false slot n children dom ss i u (inner out n' (node_at ss))
          (inner-IsPack ss out n' p h j e) (λ q. inner_buried ss out n' p h j e)))

  clone_4 :
      (filter : Bool) (cells : List Cell) (s : S)
      → IsInner (cells4 cells)
      → Clones filter (cells4 cells)
      → Returns
          (Copied filter (inner slot (cells4 cells) children))
          IsRefusal
          (clone_inner a filter (cells4 cells) f s)
  unfolding clone_inner
  clone_4 true cells s (i, j) h =
      Returns-bind
        (clone_cells-Survive true children f cells s i
          (λ b s' e. let (c, e') = has_cell-find cells b e in h b c s' e'))
        (λ (ss, s1) (v, w). pack_kept (cells4 cells) (has_cell cells) ss s1 (IsDom-4 cells) v)
  clone_4 false cells s (i, j) h =
      Returns-bind
        (clone_cells-Survive false children f cells s i
          (λ b s' e. let (c, e') = has_cell-find cells b e in h b c s' e'))
        (λ (ss, s1) (v, (w, x)).
          write_kept (cells4 cells) (cells4 (slots ss)) node4 (has_cell cells) ss s1 (IsDom-4 cells)
            v.1 (v.0, omega (arith, x, j)) (λ b. refl))

  clone_16 :
      (filter : Bool) (cells : List Cell) (s : S)
      → IsInner (cells16 cells)
      → Clones filter (cells16 cells)
      → Returns
          (Copied filter (inner slot (cells16 cells) children))
          IsRefusal
          (clone_inner a filter (cells16 cells) f s)
  unfolding clone_inner
  clone_16 true cells s (i, j) h =
      Returns-bind
        (clone_cells-Survive true children f cells s i
          (λ b s' e. let (c, e') = has_cell-find cells b e in h b c s' e'))
        (λ (ss, s1) (v, w). pack_kept (cells16 cells) (has_cell cells) ss s1 (IsDom-16 cells) v)
  clone_16 false cells s (i, j) h =
      Returns-bind
        (clone_cells-Survive false children f cells s i
          (λ b s' e. let (c, e') = has_cell-find cells b e in h b c s' e'))
        (λ (ss, s1) (v, (w, x)).
          write_kept (cells16 cells) (cells16 (slots ss)) node16 (has_cell cells) ss s1
            (IsDom-16 cells) v.1 (v.0, omega (arith, x, j)) (λ b. refl))

  check_48-there :
      (count : ℕ) (index : ℕ → ℕ) (children : List ℕ) (b : ℕ)
      → IsTable count index children
      → check_48 index b ≡ ok (not (index b == 0))
  check_48-there count index children b h = ground (arith, h.places b)

  clone_48 :
      (filter : Bool) (count : ℕ) (index : ℕ → ℕ) (places : List ℕ) (s : S)
      → IsTable count index places
      → Clones filter (table48 count index places)
      → (filter ≡ false → Owned index places)
      → Returns
          (Copied filter (inner slot (table48 count index places) children))
          IsRefusal
          (clone_inner a filter (table48 count index places) f s)
  unfolding clone_inner
  clone_48 true count index places s i h o =
      let there = λ (b : ℕ). not (index b == 0) in
      Returns-bind
        (clone_bytes-Survive true children f (check_48 index) there 256 0 s
          (λ b. check_48-there count index places b i)
          (λ b s' e. let (c, e') = some_child (index b) _ e in h b c s' e'))
        (λ (ss, s1) (v, w).
          pack_kept (table48 count index places) (in_span there 256 0) ss s1
            (span_IsDom (table48 count index places) there (λ b. some_child (index b) _)
              (λ b c. child_there (index b) _ c))
            v)
  clone_48 false count index places s i h o =
      let there = λ (b : ℕ). not (index b == 0) in
      Returns-bind
        (clone_places-Moved index children f 0 places s i.apart
          (λ j l. let (b, (m, e)) = o refl j l in (b, (m, e ∙ omega arith)))
          (λ b s' l. let (c, e') = some_child (index b) _ (ground arith) in h b c s' e'))
        (λ ((ps, ss), s1) m.
          let (t, e) = moved-IsTable count index children places ps ss i m in
          write_kept (table48 count index places) (table48 count index ps) node48 there ss s1
            (record {
              sound = λ b. some_child (index b) _;
              total = λ b c l. child_there (index b) _ c;
            })
            (λ b. moved_copy index children count places ps ss b i m) t e)

  clone_256 :
      (filter : Bool) (count : ℕ) (child : ℕ → ℕ) (s : S)
      → Clones filter (table256 count child)
      → Returns
          (Copied filter (inner slot (table256 count child) children))
          IsRefusal
          (clone_inner a filter (table256 count child) f s)
  unfolding clone_inner
  clone_256 true count child s h =
      let there = λ (b : ℕ). not (child b == 0) in
      Returns-bind
        (clone_bytes-Survive true children f (λ b. ok (not (child b == 0))) there 256 0 s
          (λ b. refl) (λ b s' e. let (c, e') = some_child (child b) _ e in h b c s' e'))
        (λ (ss, s1) (v, w).
          pack_kept (table256 count child) (in_span there 256 0) ss s1
            (span_IsDom (table256 count child) there (λ b. some_child (child b) _)
              (λ b c. child_there (child b) _ c))
            v)
  clone_256 false count child s h =
      let there = λ (b : ℕ). not (child b == 0) in
      Returns-bind
        (clone_bytes-Survive false children f (λ b. ok (not (child b == 0))) there 256 0 s
          (λ b. refl) (λ b s' e. let (c, e') = some_child (child b) _ e in h b c s' e'))
        (λ (ss, s1) (v, w).
          write_kept (table256 count child)
            (table256 count (λ b. child_or_zero (find_byte b (slots ss)))) node256
            (in_span there 256 0) ss s1
            (span_IsDom (table256 count child) there (λ b. some_child (child b) _)
              (λ b c. child_there (child b) _ c))
            v.1 tt (λ b. child_256 ss count b v.0))

  pub clone_inner-Copied :
      (filter : Bool) (n : Inner) (s : S)
      → IsInner n
      → Clones filter n
      → (filter ≡ false → OwnedInner n)
      → Returns (Copied filter (inner slot n children)) IsRefusal (clone_inner a filter n f s)
  clone_inner-Copied filter (cells4 cells) s i h o = clone_4 filter cells s i h
  clone_inner-Copied filter (cells16 cells) s i h o = clone_16 filter cells s i h
  clone_inner-Copied filter (table48 count index places) s i h o =
      clone_48 filter count index places s i h o
  clone_inner-Copied filter (table256 count child) s i h o = clone_256 filter count child s h
