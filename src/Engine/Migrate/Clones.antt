-- ===== src/Engine/Migrate/Clones.antt =====
-- `clone_subtree`: the copy of a tree.
use artisan.Prelude.{
  ℕ, ◌+◌, ◌≤◌, ◌≡◌, refl, Bool, true, false, ◌&&◌, Option, none, some, List, if◌then◌else◌, length,
  take, take_of_length-le, arith,
}
use artisan.Errors.{Outcome, ok, ◌>>=◌, Returns, returned, Returns-bind, Returns-if}
use artisan.Layout.Node.{NodeType}
use artisan.Engine.Allocator.{Allocator, IsRefusal}
use artisan.Engine.Inner.Finds.{child_of}
use artisan.Engine.Tree.{Leaf, Node, empty_root, leaf, prefix, inner, blob_node, prefix_max_inline}
use artisan.Engine.Writers.{live}
use artisan.Engine.Tree.Finds.{IsTree}
use artisan.Engine.Migrate.{clone_leaf, clone_subtree, child_clone, expect}
use artisan.Engine.Migrate.Copied.{IsCopy, IsDead, Copied}
use artisan.Engine.Migrate.Nodes.{OwnedInner, clone_inner-Copied}

-- Each place of each Node48 has its byte.
abbrev pub IsOwned : Node → Type 0
IsOwned (empty_root slot) = Unit {0}
IsOwned (leaf slot l) = Unit {0}
IsOwned (prefix slot bytes child) = IsOwned child
IsOwned (inner slot n children) =
    OwnedInner n × ((b c : ℕ) → child_of n b ≡ some c → IsOwned (children b))
IsOwned (blob_node slot bytes guid) = Unit {0}

leaf-IsCopy :
    (filter : Bool) (slot out ext : ℕ) (l : Leaf)
    → 1 ≤ out
    → (filter && l.tombstone) ≡ false
    → IsCopy filter
        (leaf slot l)
        (leaf out (if filter then live ext l.key l.value l.seq else record l { key_offset = ext }))
leaf-IsCopy true slot out ext l p e = record {
  tree = p;
  looks = λ w d h. rw e refl;
  keyed = λ path k. k;
  live = λ q. refl;
  buried = λ q. absurd (cc q);
}
leaf-IsCopy false slot out ext l p e = record {
  tree = p;
  looks = λ w d h. refl;
  keyed = λ path k. k;
  live = λ q. absurd (cc q);
  buried = λ q h. h;
}

leaf-IsDead :
    (filter : Bool) (slot : ℕ) (l : Leaf)
    → (filter && l.tombstone) ≡ true
    → IsDead filter (leaf slot l)
leaf-IsDead true slot l e = record { filtered = refl; nothing = λ w d b. rw e refl }
leaf-IsDead false slot l e = absurd (cc e)

prefix-IsCopy :
    (filter : Bool) (slot out : ℕ) (bytes : List ℕ) (t n : Node)
    → 1 ≤ out
    → length bytes ≤ 112
    → IsCopy filter t n
    → IsCopy filter (prefix slot bytes t) (prefix out bytes n)
prefix-IsCopy filter slot out bytes t n p l c = record {
  tree = (p, (l, c.tree));
  looks = λ w d h. rw (c.looks w (d + length bytes) h) refl;
  keyed = λ path (b, k). (b, c.keyed _ k);
  live = c.live;
  buried = c.buried;
}

prefix-IsDead :
    (filter : Bool) (slot : ℕ) (bytes : List ℕ) (t : Node)
    → IsDead filter t
    → IsDead filter (prefix slot bytes t)
prefix-IsDead filter slot bytes t h = record {
  filtered = h.filtered;
  nothing = λ w d b. rw (h.nothing w (d + length bytes) b) (ground arith);
}

module _ {S : Type 0} (a : Allocator S) (filter : Bool) where
  expect-Copied :
      (t : Node) (m : Outcome (Option Node × S))
      → Returns (Copied false t) IsRefusal m
      → Returns (Copied false t) IsRefusal (m >>= expect)
  expect-Copied t m h = Returns-bind h (λ (o, s) c. go o s c)
    where
      go :
          (o : Option Node) (s : S)
          → Copied false t (o, s)
          → Returns (Copied false t) IsRefusal (expect (o, s))
      go none s c = absurd (cc (c.filtered))
      go (some n) s c = returned c

  child-Copied :
      (f : Bool) (t : Node) (m : Outcome (Option Node × S))
      → Returns (Copied f t) IsRefusal m
      → Returns (Copied f t) IsRefusal (if f then m else m >>= expect)
  child-Copied true t m h = h
  child-Copied false t m h = expect-Copied t m h

  clone_leaf-Copied :
      (slot : ℕ) (l : Leaf) (s : S)
      → Returns (Copied filter (leaf slot l)) IsRefusal (clone_leaf a filter l s)
  unfolding clone_leaf
  clone_leaf-Copied slot l s =
      Returns-if (λ (e : (filter && l.tombstone) ≡ true). returned (leaf-IsDead filter slot l e))
        (λ (e : (filter && l.tombstone) ≡ false).
          Returns-bind (a.alloc_extent-refusal _ s) (λ (ext, s1) u.
            Returns-bind (a.alloc_node-slot NodeType.leaf s1)
              (λ (out, s2) p. returned (leaf-IsCopy filter slot out ext l p e))))

  prefix-Copied :
      (slot : ℕ) (bytes : List ℕ) (t : Node) (o : Option Node) (s : S)
      → length bytes ≤ 112
      → Copied filter t (o, s)
      → Returns (Copied filter (prefix slot bytes t)) IsRefusal (elim o [
        | none ↦ ok (none, s)
        | some n ↦ a.alloc_node NodeType.prefix s >>= λ (out, s2).
            ok (some (prefix out (take prefix_max_inline bytes) n), s2)
      ])
  prefix-Copied slot bytes t none s l c = returned (prefix-IsDead filter slot bytes t c)
  prefix-Copied slot bytes t (some n) s l c = rw (take_of_length-le 112 bytes l) (
      Returns-bind (a.alloc_node-slot NodeType.prefix s)
        (λ (out, s2) p. returned (prefix-IsCopy filter slot out bytes t n p l c)))

  -- A copy of a well-formed tree.
  pub clone_subtree-Copied :
      (t : Node) (s : S)
      → IsTree t
      → (filter ≡ false → IsOwned t)
      → Returns (Copied filter t) IsRefusal (clone_subtree a filter t s)
  unfolding clone_subtree
  clone_subtree-Copied (empty_root slot) s h o =
      Returns-bind (a.alloc_node-slot NodeType.empty_root s) (λ (out, s') p. returned (record {
        tree = p;
        looks = λ w d b. refl;
        keyed = λ path k. k;
        live = λ q. tt;
        buried = λ q v. tt;
      }))
  clone_subtree-Copied (leaf slot l) s h o = clone_leaf-Copied slot l s
  clone_subtree-Copied (prefix slot bytes t) s (p, (l, h)) o =
      Returns-bind (clone_subtree-Copied t s h o) (λ (x, s1) c. prefix-Copied slot bytes t x s1 l c)
  clone_subtree-Copied (inner slot n children) s (p, (i, h)) o =
      clone_inner-Copied a slot children
        (λ b s. child_clone a filter (clone_subtree a filter (children b) s)) filter n s i
        (λ b c s e.
          child-Copied filter (children b) _
            (clone_subtree-Copied (children b) s (h b c e).1 (λ q. (o q).1 b c e)))
        (λ q. (o q).0)
  clone_subtree-Copied (blob_node slot bytes guid) s (p, l) o = rw (take_of_length-le 104 bytes l) (
      Returns-bind (a.alloc_node-slot NodeType.blob s) (λ (out, s') q. returned (record {
        tree = (q, l);
        looks = λ w d b. refl;
        keyed = λ path k. k;
        live = λ q. tt;
        buried = λ q v. tt;
      })))
