-- ===== src/Engine/Migrate/Places.antt =====
-- The places of a Node48, copied in their order.
use artisan.Prelude.{
  ℕ, zero, suc, ◌+◌, ◌-◌, ◌≤◌, ◌<◌, ◌≡◌, refl, sym, ap, ◌∙◌, true, false, not, Option, none, some,
  List, [], ◌∷◌, ◌==◌, length, get_or, arith, inl, inr, Bool-cases, tests,
}
use artisan.Errors.{Outcome, ok, panic, ◌>>=◌, Returns, returned, Returns-bind}
use artisan.Engine.Allocator.{IsRefusal}
use artisan.Engine.Inner.{table48, find_byte}
use artisan.Engine.Inner.Finds.{zeros, IsTable, child_of}
use artisan.Engine.Tree.{Node, slot_of}
use artisan.Engine.Tree.Finds.{slot_of-IsTree}
use artisan.Engine.Migrate.{Survivors, slots, at, byte_of_place, clone_places}
use artisan.Engine.Migrate.Copied.{IsCopy, Copied, Same}
use artisan.Engine.Migrate.Holds.{find-at, find-at_none}

-- Every place with a child has its byte.
abbrev pub Owned : (ℕ → ℕ) → List ℕ → Type 0
Owned index children = (j : ℕ) → 1 ≤ get_or children j 0 → (b : ℕ) × ((b < 256) × (index b ≡ suc j))

byte_of_place-found :
    (index : ℕ → ℕ) (p n b : ℕ)
    → b < n
    → index b ≡ p
    → (b' : ℕ) × ((byte_of_place index p n ≡ some b') × (index b' ≡ p))
unfolding byte_of_place
byte_of_place-found index p zero b h e = absurd (omega arith)
byte_of_place-found index p (suc n) b h e = elim (Bool-cases (index n == p)) [
  | inl i ↦ (n, (rw i refl, grind tests))
  | inr i ↦ let (b', (f, g)) = byte_of_place-found index p n b (ground arith) e in (b', (rw i f, g))
]

-- The places from `i` on, and the nodes that their bytes lead to.
pub record IsMoved (index : ℕ → ℕ) (children : ℕ → Node) (i : ℕ) (cs ps : List ℕ) (ss : Survivors)
    : Type 0 where
  pub size : length ps ≡ length cs
  pub free : zeros ps ≡ zeros cs
  pub inside :
      (b j : ℕ)
      → index b ≡ i + suc j
      → 1 ≤ get_or cs j 0
      → (n : Node) × ((at ss b ≡ some n)
          × (IsCopy false (children b) n × (get_or ps j 0 ≡ slot_of n)))
  pub outside : (b : ℕ) → index b ≤ i → at ss b ≡ none

module _ (index : ℕ → ℕ) (children : ℕ → Node) (i : ℕ) (cs ps : List ℕ) (ss : Survivors)
    (m : IsMoved index children (i + 1) cs ps ss) where
  IsMoved-free : IsMoved index children i (0 ∷ cs) (0 ∷ ps) ss
  IsMoved-free = record {
    size = ap suc m.size;
    free = ap (λ z. 1 + z) m.free;
    inside = free_inside;
    outside = λ b l. m.outside b (omega (arith, l));
  }
    where
      free_inside :
          (b j : ℕ)
          → index b ≡ i + suc j
          → 1 ≤ get_or (0 ∷ cs) j 0
          → (n : Node) × ((at ss b ≡ some n)
              × (IsCopy false (children b) n × (get_or (0 ∷ ps) j 0 ≡ slot_of n)))
      free_inside b zero e l = absurd (omega (arith, l))
      free_inside b (suc j) e l = m.inside b j (e ∙ omega arith) l

  IsMoved-taken :
      (c b : ℕ) (n : Node)
      → ((b b' : ℕ) → 1 ≤ index b → index b ≡ index b' → b ≡ b')
      → 1 ≤ c
      → index b ≡ i + 1
      → IsCopy false (children b) n
      → IsMoved index children i (c ∷ cs) (slot_of n ∷ ps) ((b, n) ∷ ss)
  IsMoved-taken c b n a l e y = record {
    size = ap suc m.size;
    free = ground (arith, m.free, slot_of-IsTree n y.tree);
    inside = taken_inside;
    outside = λ b' l'. ground (arith, m.outside b', e, l');
  }
    where
      taken_inside :
          (b' j : ℕ)
          → index b' ≡ i + suc j
          → 1 ≤ get_or (c ∷ cs) j 0
          → (n' : Node) × ((at ((b, n) ∷ ss) b' ≡ some n')
              × (IsCopy false (children b') n' × (get_or (slot_of n ∷ ps) j 0 ≡ slot_of n')))
      taken_inside b' zero e' l' =
          let z : b ≡ b' = a b b' (omega (arith, e)) (omega (arith, e, e')) in
          let r : (b == b) ≡ true = ground arith in rw (sym z) (n, (rw r refl, (y, refl)))
      taken_inside b' (suc j) e' l' =
          let r : (b == b') ≡ false = ground (arith, e, e') in
          rw r (m.inside b' j (e' ∙ omega arith) l')

module _ {S : Type 0} (index : ℕ → ℕ) (children : ℕ → Node)
    (f : ℕ → S → Outcome (Option Node × S)) where
  abbrev pub Moved : ℕ → List ℕ → (List ℕ × Survivors) × S → Type 0
  Moved i cs ((ps, ss), s) = IsMoved index children i cs ps ss

  one-Moved :
      (i c : ℕ) (cs : List ℕ) (b : ℕ) (x : Option Node) (s : S)
      (r : Outcome ((List ℕ × Survivors) × S))
      → ((b b' : ℕ) → 1 ≤ index b → index b ≡ index b' → b ≡ b')
      → 1 ≤ c
      → index b ≡ i + 1
      → Copied false (children b) (x, s)
      → Returns (Moved (i + 1) cs) IsRefusal r
      → Returns (Moved i (c ∷ cs)) IsRefusal (elim x [
        | none ↦ panic
        | some n ↦ r >>= λ ((ps, ss), s2). ok ((slot_of n ∷ ps, (b, n) ∷ ss), s2)
      ])
  one-Moved i c cs b none s r a l e y h = absurd (cc (y.filtered))
  one-Moved i c cs b (some n) s r a l e y h =
      Returns-bind h
        (λ ((ps, ss), s2) m. returned (IsMoved-taken index children i cs ps ss m c b n a l e y))

  pub clone_places-Moved :
      (i : ℕ) (cs : List ℕ) (s : S)
      → ((b b' : ℕ) → 1 ≤ index b → index b ≡ index b' → b ≡ b')
      → ((j : ℕ) → 1 ≤ get_or cs j 0 → (b : ℕ) × ((b < 256) × (index b ≡ i + suc j)))
      → ((b : ℕ) (s : S) → 1 ≤ index b → Returns (Copied false (children b)) IsRefusal (f b s))
      → Returns (Moved i cs) IsRefusal (clone_places f index i cs s)
  clone_places-Moved i [] s a o h = returned (record {
    size = refl;
    free = refl;
    inside = λ b j e l. absurd (omega (arith, l));
    outside = λ b l. refl;
  })
  clone_places-Moved i (c ∷ cs) s a o h =
      let o' : (j : ℕ) → 1 ≤ get_or cs j 0 → (b : ℕ) × ((b < 256) × (index b ≡ i + 1 + suc j)) =
        λ j l. let (b, (m, e)) = o (suc j) l in (b, (m, e ∙ omega arith)) in
      elim (Bool-cases (c == 0)) [
        | inl t ↦
            let z : c ≡ 0 = grind tests in
            rw t (
              Returns-bind (clone_places-Moved (i + 1) cs s a o' h)
                (λ ((ps, ss), s') m. returned (rw z (IsMoved-free index children i cs ps ss m))))
        | inr t ↦
            let (b, (l, e)) = o 0 (ground (arith, t)) in
            let e' : index b ≡ i + 1 = e ∙ omega arith in
            let (b', (g, e2)) = byte_of_place-found index (i + 1) 256 b l e' in
            rw (t, g)
              (Returns-bind (h b' s (omega (arith, e2))) (λ (x, s1) y.
                one-Moved i c cs b' x s1 (clone_places f index (i + 1) cs s1) a (ground (arith, t))
                  e2 y (clone_places-Moved (i + 1) cs s1 a o' h)))
      ]

-- The Node48 of the copies: its places, and the nodes that its bytes lead to.
pub moved-IsTable :
    (count : ℕ) (index : ℕ → ℕ) (children : ℕ → Node) (cs ps : List ℕ) (ss : Survivors)
    → IsTable count index cs
    → IsMoved index children 0 cs ps ss
    → IsTable count index ps
      × ((b : ℕ) → child_of (table48 count index ps) b ≡ find_byte b (slots ss))
moved-IsTable count index children cs ps ss h m =
    let inside =
      λ (b : ℕ) (l : 1 ≤ index b). m.inside b (index b - 1) (omega (arith, l)) (h.taken b l) in
    (
      record {
        places = h.places;
        taken =
            λ b l. let (n, (e, (y, g))) = inside b l in ground (arith, g, slot_of-IsTree n y.tree);
        apart = h.apart;
        size = m.size ∙ h.size;
        counted = ap (λ z. count + z) m.free ∙ h.counted;
      },
      λ b. elim (Bool-cases (index b == 0)) [
        | inl t ↦ rw t (sym (find-at_none ss b (m.outside b (ground (arith, t)))))
        | inr t ↦
            let (n, (e, (y, g))) = inside b (ground (arith, t)) in
            rw t (ap some g ∙ sym (find-at ss b n e))
      ],
    )

pub moved_copy :
    (index : ℕ → ℕ) (children : ℕ → Node) (count : ℕ) (cs ps : List ℕ) (ss : Survivors) (b : ℕ)
    → IsTable count index cs
    → IsMoved index children 0 cs ps ss
    → Same false (not (index b == 0)) (children b) (at ss b)
moved_copy index children count cs ps ss b h m = elim (Bool-cases (index b == 0)) [
  | inl t ↦ rw (t, m.outside b (ground (arith, t))) tt
  | inr t ↦
      let l : 1 ≤ index b = ground (arith, t) in
      let (n, (e, (y, g))) = m.inside b (index b - 1) (omega (arith, l)) (h.taken b l) in
      rw (t, e) y
]
