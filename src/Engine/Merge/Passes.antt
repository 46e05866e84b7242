-- ===== src/Engine/Merge/Passes.antt =====
-- A pass keeps what lookups find through the blobs.
use artisan.Prelude.{
  ℕ, ◌+◌, ◌≤◌, ◌≡◌, refl, sym, ap, ◌∙◌, Bool, true, false, not, Option, none, some, List, [], ◌∷◌,
  ltb, if◌then◌else◌, length, take_of_length-le, drop, arith, Bool-cases, inl, inr,
}
use artisan.Errors.{
  Error, Outcome, ok, Post, good, bad, Post-bind, Post-if, Post-weaken, Returns, returned, refused,
}
use artisan.Frame.{BlobFrame}
use artisan.Engine.Allocator.Framed.{frame_allocator}
use artisan.Engine.Key.Terminated.{starts}
use artisan.Engine.Tree.{
  Node, empty_root, leaf, prefix, inner, blob_node, slot_of, LookupResult, not_found, crossing,
}
use artisan.Engine.Tree.Finds.{IsTree, look}
use artisan.Engine.Writers.Finds.{write_prefix_chain-Under}
use artisan.Engine.Migrate.Images.{Image}
use artisan.Engine.Migrate.Copied.{Bytes, Copied}
use artisan.Engine.Migrate.Clones.{IsOwned, clone_subtree-Copied}
use artisan.Engine.Forest.{Hit, Reads, hops, Reads-crossing}
use artisan.Engine.Merge.{
  Pass, is_mergeable, inline_root, merge_blob, merge_at_blob_node, try_merge_subtree,
  try_merge_children,
}
use artisan.Engine.Merge.Kept.{IsSame, same_itself, merge_pairs-IsKept, inner-IsSame, start-IsKept}
use artisan.Engine.Merge.Pairs.{pairs_of-Pairs}

pub Returns-answer :
    {A : Type 0} {P : A → Type 0} {E : Error → Type 0} {m : Outcome A} → Returns P E m → Post P m
Returns-answer (returned h) = good h
Returns-answer (refused h) = bad

-- What `t` holds below `bytes`.
abbrev Below : List ℕ → Node → Node × BlobFrame → Type 0
Below bytes t (n, f) =
    IsTree n
    × ((w : List ℕ) (d : ℕ)
        → Bytes w
        → look n w d ≡ (if starts bytes (drop d w) then look t w (d + length bytes) else not_found))

inline_root-Below :
    (bytes : List ℕ) (t : Node) (o : Option Node) (f : BlobFrame)
    → Copied false t (o, f)
    → Post (Below bytes t) (inline_root bytes o f)
unfolding inline_root
inline_root-Below bytes t none f c = absurd (cc (c.filtered))
inline_root-Below [] t (some n) f c =
    good (c.tree, λ w d b. c.looks w d b ∙ ap (look t w) (omega arith))
inline_root-Below (x ∷ bytes) t (some n) f c =
    Post-weaken (Returns-answer (write_prefix_chain-Under frame_allocator (x ∷ bytes) n f c.tree))
      (λ (m, g) (i, (l, k)). (i, λ w d b. l w d ∙ rw (c.looks w (d + length (x ∷ bytes)) b) refl))

module _ (pin : ℕ → Outcome Image) where
  pub through :
      (t : Bool) (w : List ℕ) (r : LookupResult) (guid n : ℕ) (j : Image) (h : Hit)
      → pin guid ≡ ok j
      → look j.root w n ≡ r
      → Reads pin w (if t then crossing guid n else not_found) h
      → Reads pin w (if t then r else not_found) h
  through false w r guid n j h p e x = x
  through true w r guid n j h p e x =
      let (j', (p', y)) = Reads-crossing pin w (crossing guid n) h guid n x refl in
      let z : j' ≡ j = ground (arith, sym p' ∙ p) in
      let z2 : look j'.root w n ≡ r = ap (λ (i : Image). look i.root w n) z ∙ e in rw z2 at y

  pub into :
      (t : Bool) (w : List ℕ) (r : LookupResult) (guid n : ℕ) (j : Image) (h : Hit)
      → pin guid ≡ ok j
      → look j.root w n ≡ r
      → Reads pin w (if t then r else not_found) h
      → Reads pin w (if t then crossing guid n else not_found) h
  into false w r guid n j h p e x = x
  into true w r guid n j h p e x = hops guid n j h p (rw e x)

  merged-IsSame :
      (slot : ℕ) (bytes : List ℕ) (guid : ℕ) (j : Image) (n : Node) (f : BlobFrame)
      → pin guid ≡ ok j
      → Below bytes j.root (n, f)
      → IsSame pin (blob_node slot bytes guid) n
  merged-IsSame slot bytes guid j n f p (i, l) = record {
    tree = i;
    forth = λ w d h b x. rw (l w d b) (
        through (starts bytes (drop d w)) w (look j.root w (d + length bytes)) guid
          (d + length bytes) j h p refl x);
    back = λ w d h b x.
        let y = x in
        into (starts bytes (drop d w)) w (look j.root w (d + length bytes)) guid (d + length bytes)
          j h p refl (rw (l w d b) at y);
  }

  merge_blob-IsSame :
      (slot : ℕ) (bytes : List ℕ) (guid : ℕ) (j : Image) (f : BlobFrame)
      → pin guid ≡ ok j
      → length bytes ≤ 104
      → IsTree j.root
      → IsOwned j.root
      → Post
          (λ (r : Node × BlobFrame). IsSame pin (blob_node slot bytes guid) r.0)
          (merge_blob slot bytes j f)
  unfolding merge_blob
  merge_blob-IsSame slot bytes guid j f p l i o = rw (take_of_length-le 104 bytes l) (
      Post-bind (Returns-answer (clone_subtree-Copied frame_allocator false j.root f i (λ q. o)))
        (λ (x, f1) c. Post-bind (inline_root-Below bytes j.root x f1 c) (λ (n, f2) b.
          Post-bind (Returns-answer (frame_allocator.free_node-refusal slot f2))
            (λ f3 u. good (merged-IsSame slot bytes guid j n f2 p b)))))

  pub prefix-IsSame :
      (slot : ℕ) (bytes : List ℕ) (t n : Node)
      → 1 ≤ slot
      → length bytes ≤ 112
      → IsSame pin t n
      → IsSame pin (prefix slot bytes t) (prefix slot bytes n)
  prefix-IsSame slot bytes t n p l s = record {
    tree = (p, (l, s.tree));
    forth = λ w d h b x. elim (Bool-cases (starts bytes (drop d w))) [
      | inl e ↦ rw e (s.forth w (d + length bytes) h b (rw e at x))
      | inr e ↦ rw e (rw e at x)
    ];
    back = λ w d h b x. elim (Bool-cases (starts bytes (drop d w))) [
      | inl e ↦ rw e (s.back w (d + length bytes) h b (rw e at x))
      | inr e ↦ rw e (rw e at x)
    ];
  }

pub known :
    {A : Type 0} {P : A → Type 0} {m : Outcome A} → Post P m → Post (λ a. P a × (m ≡ ok a)) m
known (good h) = good (h, refl)
known bad = bad

-- The manager answers with a blob whose tree is well-formed, and in which every place of every
-- Node48 is the place of some byte, or with an error.
abbrev pub Serves : (ℕ → Outcome Image) → Type 0
Serves pin = (guid : ℕ) → Post (λ (j : Image). IsTree j.root × IsOwned j.root) (pin guid)

module _ (pin : ℕ → Outcome Image) (seq : ℕ) (serves : Serves pin) where
  merge_at_blob_node-IsSame :
      (slot : ℕ) (bytes : List ℕ) (guid : ℕ) (p : Pass)
      → IsTree (blob_node slot bytes guid)
      → Post
          (λ (r : Node × Pass). IsSame pin (blob_node slot bytes guid) r.0)
          (merge_at_blob_node pin seq slot bytes guid p)
  unfolding merge_at_blob_node
  merge_at_blob_node-IsSame slot bytes guid p (i, l) =
      let e : ltb 104 (length bytes) ≡ false = ground (arith, l) in
      rw e (
        Post-bind (known (serves guid)) (λ j ((t, o), q).
          Post-if
            (λ (m : not (is_mergeable p.frame j) ≡ true).
              good (same_itself pin (blob_node slot bytes guid) (i, l)))
            (λ (m : not (is_mergeable p.frame j) ≡ false).
              Post-bind (merge_blob-IsSame pin slot bytes guid j p.frame q l t o)
                (λ (n, f) s. good s))))

  -- The pass never panics, and a tree that it leaves finds through the blobs what the tree found.
  try_merge_subtree-IsSame :
      (t : Node) (p : Pass)
      → IsTree t
      → Post (λ (r : Node × Pass). IsSame pin t r.0) (try_merge_subtree pin seq t p)
  unfolding try_merge_subtree
  try_merge_subtree-IsSame (empty_root slot) p h = good (same_itself pin (empty_root slot) h)
  try_merge_subtree-IsSame (leaf slot l) p h = good (same_itself pin (leaf slot l) h)
  try_merge_subtree-IsSame (prefix slot bytes child) p (i, (l, h)) =
      Post-bind (try_merge_subtree-IsSame child p h)
        (λ (n, p') s. good (prefix-IsSame pin slot bytes child n i l s))
  try_merge_subtree-IsSame (inner slot n children) p (i, (m, h)) =
      let (cells, (e, (a, (q, f)))) = pairs_of-Pairs n m in
      rw e (
        Post-bind
          (merge_pairs-IsKept pin n children (λ b p'. try_merge_subtree pin seq (children b) p')
            cells n children p a
            (λ b c p' z. try_merge_subtree-IsSame (children b) p' (h b c (f b c z)).1) f
            (start-IsKept pin slot n children (i, (m, h))))
          (λ ((n', children'), p') k.
            good (inner-IsSame pin slot n n' children children' (i, (m, h)) k)))
  try_merge_subtree-IsSame (blob_node slot bytes guid) p h =
      merge_at_blob_node-IsSame slot bytes guid p h

  -- Where the manager answers with well-formed blobs, in which every place of every Node48 is the
  -- place of some byte, or with an error, a pass over a well-formed tree comes to an end or to an
  -- error, never to a panic. The tree that it leaves is well-formed, its root is named in the header,
  -- and the hops of a lookup of bytes from it come to an answer exactly when those from the old tree
  -- come to the same one.
  pub try_merge_children-IsSame :
      (i : Image)
      → IsTree i.root
      → Post
          (λ (r : Image × Pass).
            IsSame pin i.root r.0.root × (r.0.frame.header.root_slot ≡ slot_of r.0.root))
          (try_merge_children pin seq i)
  unfolding try_merge_children
  try_merge_children-IsSame i h =
      Post-bind (try_merge_subtree-IsSame i.root _ h) (λ (n, p) s. good (s, refl))
