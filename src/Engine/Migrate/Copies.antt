-- ===== src/Engine/Migrate/Copies.antt =====
-- `clone_subtree`: the copy of a tree.
use artisan.Prelude.{
  ℕ, zero, suc, ◌+◌, ◌<◌, ◌≡◌, refl, sym, ◌∙◌, Bool, true, false, Option, none, some, List, [], ◌∷◌,
  ◌++◌, get_elem?, arith,
}
use artisan.Engine.Inner.{Inner}
use artisan.Engine.Inner.Finds.{child_of}
use artisan.Engine.Tree.{Node, inner, LookupResult, not_found}
use artisan.Engine.Tree.Finds.{look, pick, follow}
use artisan.Engine.Migrate.{Survivors, at}
use artisan.Engine.Migrate.Copied.{Bytes, Live, IsCopy, IsDead, Copied, Same}
use artisan.Engine.Migrate.Packs.{Packed}
use artisan.Engine.Migrate.Holds.{look_at, HaveTrees, IsPack}

-- The bytes with a child are those for which `dom` holds.
pub record IsDom (n : Inner) (dom : ℕ → Bool) : Type 0 where
  pub sound : (b : ℕ) → dom b ≡ true → (c : ℕ) × (child_of n b ≡ some c)
  pub total : (b c : ℕ) → b < 256 → child_of n b ≡ some c → dom b ≡ true

get_elem?-Bytes : (w : List ℕ) (d b : ℕ) → Bytes w → get_elem? w d ≡ some b → b < 256
get_elem?-Bytes [] d b h e = absurd (cc e)
get_elem?-Bytes (x ∷ w) zero b h e = ground (arith, h.0, e)
get_elem?-Bytes (x ∷ w) (suc d) b h e = get_elem?-Bytes w d b h.1 e

pick_same :
    (o : Option ℕ) (f g : ℕ → LookupResult)
    → ((b : ℕ) → o ≡ some b → f b ≡ g b)
    → pick o f ≡ pick o g
pick_same none f g h = refl
pick_same (some b) f g h = h b refl

follow-Same :
    (filter dom : Bool) (t : Node) (o : Option Node) (c : Option ℕ) (w : List ℕ) (d : ℕ)
    → Same filter dom t o
    → (dom ≡ true → (x : ℕ) × (c ≡ some x))
    → ((x : ℕ) → c ≡ some x → dom ≡ true)
    → Bytes w
    → look_at o w d ≡ follow c (look t w d)
follow-Same filter false t none none w d s h i b = refl
follow-Same filter false t none (some x) w d s h i b = absurd (cc (i x refl))
follow-Same filter false t (some n) c w d s h i b = absurd s
follow-Same filter true t o none w d s h i b = absurd (cc ((h refl).1))
follow-Same filter true t none (some x) w d s h i b = sym (s.nothing w d b)
follow-Same filter true t (some n) (some x) w d s h i b = s.looks w d b

copied :
    (filter dom : Bool) (t m : Node) → Same filter dom t (some m) → (dom ≡ true) × IsCopy filter t m
copied filter false t m s = absurd s
copied filter true t m s = (refl, s)

copied_there :
    (dom : Bool) (t : Node) (o : Option Node)
    → Same false dom t o
    → dom ≡ true
    → (m : Node) × ((o ≡ some m) × IsCopy false t m)
copied_there false t o s e = absurd (cc e)
copied_there true t none s e = absurd (cc (s.filtered))
copied_there true t (some m) s e = (m, (refl, s))

module _ (filter : Bool) (slot : ℕ) (n : Inner) (children : ℕ → Node) (dom : ℕ → Bool)
    (ss : Survivors) (i : IsDom n dom)
    (s : (b : ℕ) → Same filter (dom b) (children b) (at ss b)) where
  same_at : (b : ℕ) (m : Node) → at ss b ≡ some m → (dom b ≡ true) × IsCopy filter (children b) m
  same_at b m e = let s' = s b in copied filter (dom b) (children b) m (rw (sym e) s')

  pub copies_HaveTrees : HaveTrees ss
  copies_HaveTrees b m e = (same_at b m e).1.tree

  -- A node of the copies is a copy of the node.
  pub pack-IsCopy :
      (n' : Node)
      → IsPack ss n'
      → (filter ≡ false → Live n' → (b : ℕ) (m : Node) → b < 256 → at ss b ≡ some m → Live m)
      → IsCopy filter (inner slot n children) n'
  pack-IsCopy n' p l = record {
    tree = p.tree;
    looks = λ w d h.
        p.looks w d
        ∙ pick_same (get_elem? w d) _ _ (λ b e.
          follow-Same filter (dom b) (children b) (at ss b) (child_of n b) w (d + 1) (s b)
            (i.sound b) (λ x. i.total b x (get_elem?-Bytes w d b h e)) h);
    keyed = λ path (q, ks). p.keyed path q (λ b m e.
        let (t, c) = same_at b m e in
        let (x, j) = i.sound b t in c.keyed (path ++ (b ∷ [])) (ks b x j));
    live = λ f. p.live (λ b m e. (same_at b m e).1.live f);
    buried = λ f v b c k j.
        let s' : Same false (dom b) (children b) (at ss b) = rw (sym f) (s b) in
        let (m, (e, y)) = copied_there (dom b) (children b) (at ss b) s' (i.total b c k j) in
        y.buried refl (l f v b m k e);
  }

nothing_left :
    (filter : Bool) (slot : ℕ) (n : Inner) (children : ℕ → Node) (dom : ℕ → Bool)
    → IsDom n dom
    → ((b : ℕ) → Same filter (dom b) (children b) none)
    → filter ≡ true
    → IsDead filter (inner slot n children)
nothing_left filter slot n children dom i s f = record {
  filtered = f;
  nothing = λ w d h.
      pick_same (get_elem? w d) _ (λ b. not_found)
        (λ b e. sym (
          follow-Same filter (dom b) (children b) none (child_of n b) w (d + 1) (s b) (i.sound b)
            (λ x. i.total b x (get_elem?-Bytes w d b h e)) h))
      ∙ no_pick (get_elem? w d);
}
  where
    no_pick : (o : Option ℕ) → pick o (λ b. not_found) ≡ not_found
    no_pick none = refl
    no_pick (some b) = refl

-- `pack_inner_node` of the copies.
pub Packed-Copied :
    {S : Type 0} (slot : ℕ) (n : Inner) (children : ℕ → Node) (dom : ℕ → Bool) (ss : Survivors)
    → IsDom n dom
    → ((b : ℕ) → Same true (dom b) (children b) (at ss b))
    → (r : Option Node × S) → Packed ss r
    → Copied true (inner slot n children) r
Packed-Copied slot n children dom [] i s (none, s') p =
    nothing_left true slot n children dom i s refl
Packed-Copied slot n children dom [] i s (some n', s') p = absurd p
Packed-Copied slot n children dom (x ∷ ss) i s (none, s') p = absurd p
Packed-Copied slot n children dom (x ∷ ss) i s (some n', s') p =
    pack-IsCopy true slot n children dom (x ∷ ss) i s n' p (λ f. absurd (cc f))
