-- ===== src/Engine/Routes.antt =====
-- Which keys lead to the same child blob: user_prefix of engine/walker/key.rs, and
-- same_child_prefix_run_len of insert.rs.
use artisan.Prelude.{
  ℕ, suc, ◌≤◌, ◌≡◌, refl, sym, ap, ◌∙◌, Bool, true, false, Option, none, some, List, [], ◌∷◌, leb,
  if◌then◌else◌, length, take, arith, Bool-cases, Option-cases, inl, inr, length-append, take_front,
  map,
}
use artisan.Errors.{Outcome, ok}
use artisan.Engine.Key.{SearchKey, user}
use artisan.Engine.Key.Terminated.{same, same_eq, full}
use artisan.Engine.Tree.{Node, LookupResult, crossing, descend}
use artisan.Engine.Tree.Finds.{IsTree, look, descend-look}
use artisan.Engine.Tree.Crossings.{look_deep, look-crossing}

unfoldable pub user_prefix : SearchKey → ℕ → Option (List ℕ)
user_prefix k len = if leb len (length k.bytes) then some (take len k.bytes) else none

-- The items behind the first that begin with `prefix`.
abbrev pub run_behind : ℕ → List ℕ → List SearchKey → ℕ
run_behind child_depth p [] = 0
run_behind child_depth p (k ∷ items) =
    let rest = run_behind child_depth p items in
    elim (user_prefix k child_depth) [
      | none ↦ 0
      | some candidate ↦ if same candidate p then suc rest else 0
    ]

unfoldable pub same_child_prefix_run_len : SearchKey → List SearchKey → ℕ → ℕ
same_child_prefix_run_len first items child_depth = elim (user_prefix first child_depth) [
  | none ↦ 1
  | some p ↦ suc (run_behind child_depth p items)
]

if_some : (t : Bool) (x p : List ℕ) → (if t then some x else none) ≡ some p → (t ≡ true) × (x ≡ p)
if_some true x p h = (refl, ground (arith, h))
if_some false x p h = absurd (cc h)

prefix_cut :
    (k p : List ℕ) (n : ℕ)
    → user_prefix (user k) n ≡ some p
    → (n ≤ length k) × (take n (full k) ≡ p)
unfolding user_prefix
prefix_cut k p n h =
    let (e, i) = if_some (leb n (length k)) (take n k) p h in
    let l : n ≤ length k = ground (arith, e) in (l, take_front n k (0 ∷ []) l ∙ i)

the_crossing :
    (x : Outcome LookupResult) (r : LookupResult) (g n : ℕ)
    → x ≡ ok r
    → x ≡ ok (crossing g n)
    → r ≡ crossing g n
the_crossing x r g n e f = ground (arith, sym e ∙ f)

-- Two user keys with the bytes above a crossing in common cross into the same child.
descend-user_prefix :
    (t : Node) (k k' p : List ℕ) (depth guid child_depth : ℕ)
    → IsTree t
    → depth ≤ length (full k)
    → descend t (user k) depth ≡ ok (crossing guid child_depth)
    → user_prefix (user k) child_depth ≡ some p
    → user_prefix (user k') child_depth ≡ some p
    → descend t (user k') depth ≡ ok (crossing guid child_depth)
descend-user_prefix t k k' p depth guid n i l h e e' =
    let (m, u) = prefix_cut k p n e in
    let (m', u') = prefix_cut k' p n e' in
    let x : look t (full k) depth ≡ crossing guid n =
      the_crossing _ (look t (full k) depth) guid n (descend-look t k depth i l) h in
    let b = look_deep t (full k) depth guid n x in
    let l' : depth ≤ length (full k') = omega (arith, length-append k' (0 ∷ []), b, m') in
    descend-look t k' depth i l'
    ∙ ap ok (look-crossing t (full k) (full k') depth guid n x (u ∙ sym u'))

-- All the keys cross into one child.
abbrev pub Cross : Node → ℕ → ℕ → ℕ → List (List ℕ) → Type 0
Cross t depth guid n [] = Unit {0}
Cross t depth guid n (k ∷ keys) =
    (descend t (user k) depth ≡ ok (crossing guid n)) × Cross t depth guid n keys

Cross-take :
    (t : Node) (depth guid n m m' : ℕ) (keys : List (List ℕ))
    → m ≡ m'
    → Cross t depth guid n (take m' keys)
    → Cross t depth guid n (take m keys)
Cross-take t depth guid n m m' keys e c = rw e c

run_behind-Cross :
    (t : Node) (k p : List ℕ) (depth guid n : ℕ) (keys : List (List ℕ))
    → IsTree t
    → depth ≤ length (full k)
    → descend t (user k) depth ≡ ok (crossing guid n)
    → user_prefix (user k) n ≡ some p
    → Cross t depth guid n (take (run_behind n p (map user keys)) keys)
run_behind-Cross t k p depth guid n [] i l h e = tt
run_behind-Cross t k p depth guid n (k' ∷ keys) i l h e =
    elim (Option-cases (user_prefix (user k') n)) [
      | inl f ↦ Cross-take t depth guid n _ 0 (k' ∷ keys) (rw (f, run_behind) refl) tt
      | inr (q, f) ↦ elim (Bool-cases (same q p)) [
        | inl z ↦
            let f' : user_prefix (user k') n ≡ some p = f ∙ ap some (same_eq q p z) in
            Cross-take t depth guid n _ (suc (run_behind n p (map user keys))) (k' ∷ keys)
              (rw (f, z, run_behind) refl)
              (
                descend-user_prefix t k k' p depth guid n i l h e f',
                run_behind-Cross t k p depth guid n keys i l h e,
              )
        | inr z ↦ Cross-take t depth guid n _ 0 (k' ∷ keys) (rw (f, z, run_behind) refl) tt
      ]
    ]

-- In a well-formed tree in which the first key of a batch, from a depth within its stored bytes,
-- crosses into a child blob, every key of the
-- run that is written to that child without another descent crosses into it too, at the same depth:
-- a crossing hangs only on the bytes above it.
pub same_child_prefix_run_len-Cross :
    (t : Node) (k : List ℕ) (keys : List (List ℕ)) (depth guid child_depth : ℕ)
    → IsTree t
    → depth ≤ length (full k)
    → descend t (user k) depth ≡ ok (crossing guid child_depth)
    → Cross t depth guid child_depth
        (take (same_child_prefix_run_len (user k) (map user keys) child_depth) (k ∷ keys))
unfolding same_child_prefix_run_len
same_child_prefix_run_len-Cross t k keys depth guid n i l h =
    elim (Option-cases (user_prefix (user k) n)) [
      | inl e ↦
          Cross-take t depth guid n _ 1 (k ∷ keys) (rw (e, same_child_prefix_run_len) refl) (h, tt)
      | inr (p, e) ↦
          Cross-take t depth guid n _ (suc (run_behind n p (map user keys))) (k ∷ keys)
            (rw (e, same_child_prefix_run_len) refl)
            (h, run_behind-Cross t k p depth guid n keys i l h e)
    ]
