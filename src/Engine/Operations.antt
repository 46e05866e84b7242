-- ===== src/Engine/Operations.antt =====
-- Inserts and erases in one blob, as its users see them: a map from keys to what a lookup finds.
use artisan.Prelude.{
  ℕ, ◌≤◌, ◌≡◌, refl, sym, ap, ◌∙◌, Bool, true, false, ◌&&◌, List, [], ◌∷◌, if◌then◌else◌, length,
  arith,
}
use artisan.Errors.{Outcome, ok, panic, ◌>>=◌, Returns, returned, refused, Returns-bind}
use artisan.Engine.Allocator.{Allocator, IsRefusal}
use artisan.Engine.Key.{user}
use artisan.Engine.Key.Terminated.{same, starts, full}
use artisan.Engine.Tree.{Node, LookupResult, not_found, found, crossing, descend}
use artisan.Engine.Tree.Finds.{starts_length}
use artisan.Engine.Tree.Keyed.{Pos}
use artisan.Engine.Insert.{InsertCondition, InsertStep, Blob, insert_at_step}
use artisan.Engine.Insert.Steps.{admits, admits-crossing}
use artisan.Engine.Insert.Lookups.{IsBlobTree, Lookups, ok_if, insert_at_step-Lookups}
use artisan.Engine.Erase.{EraseCondition, EraseSignal, EraseStep, erase_at_step}
use artisan.Engine.Erase.Tombstones.{takes, Never}
use artisan.Engine.Erase.Lookups.{Buried, erase_at_step-Buried}

pub data Operation : Type 0 where
  put : (key value : List ℕ) (seq : ℕ) → InsertCondition → Operation
  delete : (key : List ℕ) → EraseCondition → Operation

abbrev pub key_of : Operation → List ℕ
key_of (put key value seq condition) = key
key_of (delete key condition) = key

-- The root after an operation; a crossing leaves the blob to its child.
abbrev root_after_insert : {S : Type 0} → Node → InsertStep × Blob S → Outcome (Node × Blob S)
root_after_insert t (InsertStep.done n m, b) = ok (n, b)
root_after_insert t (InsertStep.crossing guid depth, b) = ok (t, b)

-- `EraseSignal::Replaced` and `SubtreeGone` do not arise here, and would name another root.
abbrev root_after_erase : {S : Type 0} → Node → EraseStep × Blob S → Outcome (Node × Blob S)
root_after_erase t (EraseStep.done (EraseSignal.unchanged n) m, b) = ok (n, b)
root_after_erase t (EraseStep.done EraseSignal.subtree_gone m, b) = panic
root_after_erase t (EraseStep.done (EraseSignal.replaced n) m, b) = ok (n, b)
root_after_erase t (EraseStep.crossing guid depth, b) = ok (t, b)

module _ {S : Type 0} (a : Allocator S) (depth : ℕ) where
  abbrev pub step : Operation → Node → Blob S → Outcome (Node × Blob S)
  step (put key value seq condition) t b =
      insert_at_step a (user key) value seq condition t depth b >>= root_after_insert t
  step (delete key condition) t b =
      erase_at_step a (user key) condition t depth b >>= root_after_erase t

  abbrev pub run : List Operation → Node → Blob S → Outcome (Node × Blob S)
  run [] t b = ok (t, b)
  run (o ∷ os) t b = step o t b >>= λ (t', b'). run os t' b'

-- A map from keys to what is found.
abbrev pub Map : Type 0
Map = List ℕ → LookupResult

abbrev pub writes : Operation → LookupResult → Bool
writes (put key value seq condition) r = admits condition r
writes (delete key condition) r = takes condition r

abbrev pub written : Operation → LookupResult
written (put key value seq condition) = found value seq
written (delete key condition) = not_found

abbrev pub change : Operation → Map → Map
change o f k = if writes o (f (key_of o)) && same k (key_of o) then written o else f k

abbrev pub replay : List Operation → Map → Map
replay [] f = f
replay (o ∷ os) f = replay os (change o f)

-- The keys of the operations lead to this blob.
abbrev Lead : List ℕ → List Operation → Type 0
Lead path [] = Unit {0}
Lead path (o ∷ os) = (Pos (key_of o) × (starts path (full (key_of o)) ≡ true)) × Lead path os

-- Below `path`, lookups in the tree find what the map says.
abbrev pub IsMap : List ℕ → Node → Map → Type 0
IsMap path t f =
    IsBlobTree path t
    × ((k : List ℕ) → length path ≤ length (full k) → descend t (user k) (length path) ≡ ok (f k))

Never-IsRefusal :
    {A : Type 0} {P : A → Type 0} {m : Outcome A} → Returns P Never m → Returns P IsRefusal m
Never-IsRefusal (returned h) = returned h
Never-IsRefusal (refused h) = absurd h

pub found_there : {A : Type 0} (x : Outcome A) (r v : A) → x ≡ ok v → x ≡ ok r → v ≡ r
found_there x r v e f = ground (arith, sym e ∙ f)

-- Lookups after an operation that has written when it should.
changed_map :
    (o : Operation) (n t : Node) (d : ℕ) (f : Map) (m : Bool) (r : LookupResult) (k : List ℕ)
    → descend t (user k) d ≡ ok (f k)
    → f (key_of o) ≡ r
    → m ≡ writes o r
    → descend n (user k) d
      ≡ (if m && same k (key_of o) then ok (written o) else descend t (user k) d)
    → descend n (user k) d ≡ ok (change o f k)
changed_map o n t d f m r k h e g j =
    j ∙ rw (h, g, sym e) (ok_if (writes o (f (key_of o)) && same k (key_of o)) (written o) (f k))

crossed_map :
    (o : Operation) (f : Map) (r : LookupResult) (k : List ℕ)
    → f (key_of o) ≡ r
    → writes o r ≡ false
    → change o f k ≡ f k
crossed_map o f r k e g = rw (e, g) refl

module _ {S : Type 0} (a : Allocator S) (path : List ℕ) where
  put-IsMap :
      (key value : List ℕ) (seq : ℕ) (condition : InsertCondition) (t : Node) (b : Blob S) (f : Map)
      → IsMap path t f
      → length path ≤ length (full key)
      → (r : InsertStep × Blob S) → Lookups path key value seq condition t b r
      → Returns
          (λ (r' : Node × Blob S). IsMap path r'.0 (change (put key value seq condition) f))
          IsRefusal
          (root_after_insert t r)
  put-IsMap key value seq condition t b f (i, h) l (InsertStep.done n m, b') (u, ((r, (e, g)), j)) =
      let z = found_there _ r (f key) (h key l) e in
      returned (
        u,
        λ k l'.
            changed_map (put key value seq condition) n t (length path) f m r k (h k l') z g
              (j k l'),
      )
  put-IsMap key value seq condition t b f (i, h) l (InsertStep.crossing guid depth, b') (e, g) =
      let z = found_there _ (crossing guid depth) (f key) (h key l) e in
      returned (
        i,
        λ k l'.
            h k l'
            ∙ ap ok (
                sym (
                  crossed_map (put key value seq condition) f (crossing guid depth) k z
                    (admits-crossing condition guid depth))),
      )

  delete-IsMap :
      (key : List ℕ) (condition : EraseCondition) (t : Node) (b : Blob S) (f : Map)
      → IsMap path t f
      → length path ≤ length (full key)
      → (r : EraseStep × Blob S) → Buried key condition t (length path) b r
      → Returns
          (λ (r' : Node × Blob S). IsMap path r'.0 (change (delete key condition) f))
          IsRefusal
          (root_after_erase t r)
  delete-IsMap key condition t b f ((i, ks), h) l (EraseStep.done (EraseSignal.unchanged n) m, b')
        ((u, v), (kk, ((r, (e, (g, c))), j))) =
      let z = found_there _ r (f key) (h key l) e in
      returned (
        (u, kk path ks),
        λ k l'. changed_map (delete key condition) n t (length path) f m r k (h k l') z g (j k l'),
      )
  delete-IsMap key condition t b f i l (EraseStep.done EraseSignal.subtree_gone m, b') u = absurd u
  delete-IsMap key condition t b f i l (EraseStep.done (EraseSignal.replaced n) m, b') u = absurd u
  delete-IsMap key condition t b f (i, h) l (EraseStep.crossing guid depth, b') (e, g) =
      let z = found_there _ (crossing guid depth) (f key) (h key l) e in
      returned (
        i,
        λ k l'.
            h k l'
            ∙ ap ok (sym (crossed_map (delete key condition) f (crossing guid depth) k z refl)),
      )

  pub step-IsMap :
      (o : Operation) (t : Node) (b : Blob S) (f : Map)
      → IsMap path t f
      → Pos (key_of o)
      → starts path (full (key_of o)) ≡ true
      → Returns
          (λ (r : Node × Blob S). IsMap path r.0 (change o f))
          IsRefusal
          (step a (length path) o t b)
  step-IsMap (put key value seq condition) t b f i p s =
      Returns-bind (insert_at_step-Lookups a key value seq condition path t b i.0 p s)
        (put-IsMap key value seq condition t b f i (starts_length path (full key) s))
  step-IsMap (delete key condition) t b f i p s =
      Returns-bind
        (Never-IsRefusal (
          erase_at_step-Buried a key condition t (length path) b i.0.0
            (starts_length path (full key) s)))
        (delete-IsMap key condition t b f i (starts_length path (full key) s))

  -- A run of inserts and erases of keys that have no zero byte and begin with the path of the blob,
  -- in a well-formed tree of such keys in which lookups find what a map says, either stops because
  -- the allocator refuses, or ends with a well-formed tree of such keys in which every lookup finds
  -- what the map says after the operations are applied to it one after the other.
  pub run-IsMap :
      (os : List Operation) (t : Node) (b : Blob S) (f : Map)
      → IsMap path t f
      → Lead path os
      → Returns
          (λ (r : Node × Blob S). IsMap path r.0 (replay os f))
          IsRefusal
          (run a (length path) os t b)
  run-IsMap [] t b f i l = returned i
  run-IsMap (o ∷ os) t b f i ((p, s), l) =
      Returns-bind (step-IsMap o t b f i p s) (λ (t', b') i'. run-IsMap os t' b' (change o f) i' l)
