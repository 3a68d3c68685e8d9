-- ===== src/Base/Maps.antt =====
-- `HashSet` as a list read through `member`, and `HashMap` as an association list.
use Prim.Native.Nat.{◌≤◌}
use mathlib.Core.Path.{◌≡◌, refl, sym}
use mathlib.Core.Logic.{inl, inr}
use mathlib.Core.Bool.{Bool, true, false, not, ◌&&◌, ◌||◌}
use mathlib.Core.Option.{Option, none, some}
use mathlib.Core.List.{List, [], ◌∷◌, ◌++◌}
use native.Mathlib.Omega.{arith}
use wallet_daemon.Base.Tests.{if◌then◌else◌, Bool-cases}
use wallet_daemon.Base.Keys.{Eq, equals}
use wallet_daemon.Base.Lists.{length}

-- keeps the elements that pass the test
unfoldable pub keep {ℓ} : {A : Type ℓ} → (A → Bool) → List A → List A
keep p [] = []
keep p (x ∷ xs) = if p x then x ∷ keep p xs else keep p xs

module _ {ℓ} {A : Type ℓ} ⦃e : Eq A⦄ where
  unfoldable pub member : A → List A → Bool
  member a [] = false
  member a (x ∷ xs) = equals a x || member a xs

  pub equals_refl : (a : A) → equals a a ≡ true
  equals_refl a = (e.beq_iff a a).1 refl

  pub member-append : (a : A) (xs ys : List A) → member a (xs ++ ys) ≡ (member a xs || member a ys)
  unfolding member
  member-append a [] ys = refl
  member-append a (x ∷ xs) ys = ground (arith, member-append a xs ys)

  -- `xs.difference(ys)`
  unfoldable pub difference : List A → List A → List A
  difference xs ys = keep (λ x. not (member x ys)) xs

  pub member-keep :
      (p : A → Bool) (a : A) (xs : List A) → member a (keep p xs) ≡ (member a xs && p a)
  unfolding member keep
  member-keep p a [] = refl
  member-keep p a (x ∷ xs) = elim (Bool-cases (equals a x)) [
    | inl hit ↦ rw ((e.beq_iff a x).0 hit) (ground (arith, equals_refl x, member-keep p x xs))
    | inr miss ↦ ground (arith, member-keep p a xs)
  ]

  pub member-difference :
      (a : A) (xs ys : List A) → member a (difference xs ys) ≡ (member a xs && not (member a ys))
  unfolding difference
  member-difference a xs ys = member-keep (λ x. not (member x ys)) a xs

module _ {ℓ κ} {K : Type ℓ} {V : Type κ} ⦃e : Eq K⦄ where
  unfoldable pub lookup : K → List (K × V) → Option V
  lookup k [] = none
  lookup k ((j, v) ∷ m) = if equals k j then some v else lookup k m

  unfoldable pub insert : K → V → List (K × V) → List (K × V)
  insert k v [] = (k, v) ∷ []
  insert k v ((j, w) ∷ m) = if equals k j then (k, v) ∷ m else (j, w) ∷ insert k v m

  -- `m.retain(|k, _| p(k))`
  unfoldable pub retain : (K → Bool) → List (K × V) → List (K × V)
  retain p [] = []
  retain p ((j, w) ∷ m) = if p j then (j, w) ∷ retain p m else retain p m

  pub lookup-insert_self : (k : K) (v : V) (m : List (K × V)) → lookup k (insert k v m) ≡ some v
  unfolding lookup insert
  lookup-insert_self k v [] = ground (arith, equals_refl k)
  lookup-insert_self k v ((j, w) ∷ m) = ground (arith, equals_refl k, lookup-insert_self k v m)

  pub lookup-insert_ne :
      (j k : K) (v : V) (m : List (K × V))
      → equals j k ≡ false
      → lookup j (insert k v m) ≡ lookup j m
  unfolding lookup insert
  lookup-insert_ne j k v [] h = ground arith
  lookup-insert_ne j k v ((i, w) ∷ m) h = elim (Bool-cases (equals k i)) [
    | inl hit ↦ rw ((sym ((e.beq_iff k i).0 hit))) (ground (arith, equals_refl k))
    | inr miss ↦ ground (arith, lookup-insert_ne j k v m h)
  ]

  pub lookup-retain :
      (p : K → Bool) (j : K) (m : List (K × V))
      → lookup j (retain p m) ≡ (if p j then lookup j m else none)
  unfolding lookup retain
  lookup-retain p j [] = ground arith
  lookup-retain p j ((i, w) ∷ m) = elim (Bool-cases (equals j i)) [
    | inl hit ↦ rw ((e.beq_iff j i).0 hit) (ground (arith, equals_refl i, lookup-retain p i m))
    | inr miss ↦ ground (arith, lookup-retain p j m)
  ]

  pub length-retain-le : (p : K → Bool) (m : List (K × V)) → length (retain p m) ≤ length m
  unfolding retain
  length-retain-le p [] = omega arith
  length-retain-le p ((i, w) ∷ m) = ground (arith, length-retain-le p m)
