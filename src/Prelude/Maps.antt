-- ===== src/Prelude/Maps.antt =====
-- Go maps as association lists with one entry for a key.
use mathlib.Core.Path.{◌≡◌, refl, subst}
use mathlib.Core.Bool.{false}
use mathlib.Core.Logic.{inl, inr}
use mathlib.Core.Option.{Option, none, some}
use mathlib.Core.List.{List, [], ◌∷◌}
use native.Mathlib.Omega.{arith}
use project_arachne.Prelude.Tests.{if◌then◌else◌, Bool-cases}
use project_arachne.Prelude.Keys.{Eq, ◌==◌}
use Prim.Native.Nat.{suc, ◌≤◌}
use project_arachne.Prelude.Lists.{All, length}

module _ {ℓ κ} {K : Type ℓ} {V : Type κ} ⦃e : Eq K⦄ where
  unfoldable pub delete : K → List (K × V) → List (K × V)
  delete k [] = []
  delete k ((j, w) ∷ m) = let rest = delete k m in if j == k then rest else (j, w) ∷ rest

  unfoldable pub lookup : K → List (K × V) → Option V
  lookup key [] = none
  lookup key ((other, old) ∷ rest) = if other == key then some old else lookup key rest

  unfoldable pub insert : K → V → List (K × V) → List (K × V)
  insert key new [] = (key, new) ∷ []
  insert key new ((other, old) ∷ rest) =
      let changed = insert key new rest in
      if other == key then (key, new) ∷ rest else (other, old) ∷ changed

  pub lookup-insert :
      (added sought : K) (new : V) (entries : List (K × V))
      → lookup sought (insert added new entries)
        ≡ (if added == sought then some new else lookup sought entries)
  unfolding lookup insert
  lookup-insert added sought new [] = refl
  lookup-insert added sought new ((other, old) ∷ rest) = ground (
    arith,
    lookup-insert added sought new rest,
    e.same_iff other added,
    e.same_iff other sought,
    e.same_iff added sought,
  )

  pub lookup-delete :
      (k j : K) (m : List (K × V)) → lookup j (delete k m) ≡ (if k == j then none else lookup j m)
  unfolding lookup delete
  lookup-delete k j [] = ground arith
  lookup-delete k j ((i, w) ∷ m) =
      ground (arith, e.same_iff k j, e.same_iff i k, e.same_iff i j, lookup-delete k j m)

module _ {ℓ κ μ} {K : Type ℓ} {V : Type κ} ⦃e : Eq K⦄ (P : K × V → Type μ) where
  pub insert-All : (k : K) (v : V) (m : List (K × V)) → P (k, v) → All P m → All P (insert k v m)
  unfolding insert
  insert-All k v [] p h = (p, tt)
  insert-All k v ((j, w) ∷ m) p h = ground (arith, insert-All k v m p h.1)

  -- An entry that was found satisfies what all entries do.
  pub lookup-All : (k : K) (v : V) (m : List (K × V)) → All P m → lookup k m ≡ some v → P (k, v)
  unfolding lookup
  lookup-All k v [] h f = cc
  lookup-All k v ((j, w) ∷ m) h f = elim (Bool-cases (j == k)) [
    | inl hit ↦
        subst (λ i. P (i, v)) ((e.same_iff j k).0 hit) (subst (λ x. P (j, x)) (ground arith) h.0)
    | inr miss ↦ lookup-All k v m h.1 (ground arith)
  ]

  pub delete-All {ν} :
      (Q : K × V → Type ν) (k : K) (m : List (K × V))
      → ((j : K) (w : V) → (j == k) ≡ false → P (j, w) → Q (j, w))
      → All P m
      → All Q (delete k m)
  unfolding delete
  delete-All Q k [] f h = tt
  delete-All Q k ((j, w) ∷ m) f h = elim (Bool-cases (j == k)) [
    | inl hit ↦ rw hit (delete-All Q k m f h.1)
    | inr miss ↦ rw miss (f j w miss h.0, delete-All Q k m f h.1)
  ]

module _ {ℓ κ} {K : Type ℓ} {V : Type κ} ⦃e : Eq K⦄ where
  -- No key has two entries.
  abbrev pub KeysDistinct : List (K × V) → Type κ
  KeysDistinct [] = Unit
  KeysDistinct ((k, v) ∷ m) = (lookup k m ≡ none) × KeysDistinct m

  pub insert-KeysDistinct :
      (k : K) (v : V) (m : List (K × V)) → KeysDistinct m → KeysDistinct (insert k v m)
  unfolding insert lookup
  insert-KeysDistinct k v [] h = (refl, tt)
  insert-KeysDistinct k v ((j, w) ∷ m) h =
      ground (
        arith,
        e.same_iff j k,
        e.same_iff k j,
        lookup-insert k j v m,
        insert-KeysDistinct k v m h.1,
      )

  pub delete-KeysDistinct : (k : K) (m : List (K × V)) → KeysDistinct m → KeysDistinct (delete k m)
  unfolding delete lookup
  delete-KeysDistinct k [] h = tt
  delete-KeysDistinct k ((j, w) ∷ m) h =
      ground (arith, lookup-delete k j m, delete-KeysDistinct k m h.1)

  pub delete_absent : (k : K) (m : List (K × V)) → lookup k m ≡ none → delete k m ≡ m
  unfolding delete lookup
  delete_absent k [] h = refl
  delete_absent k ((j, w) ∷ m) h = ground (arith, delete_absent k m)

  pub delete-insert_absent :
      (k : K) (v : V) (m : List (K × V)) → lookup k m ≡ none → delete k (insert k v m) ≡ m
  unfolding delete insert lookup
  delete-insert_absent k v [] h = ground (arith, e.same_iff k k)
  delete-insert_absent k v ((j, w) ∷ m) h =
      ground (arith, e.same_iff k k, delete-insert_absent k v m)

  pub length-insert :
      (k : K) (v : V) (m : List (K × V))
      → length (insert k v m) ≡ (elim (lookup k m) [ none ↦ suc (length m) | some _ ↦ length m ])
  unfolding insert lookup
  length-insert k v [] = refl
  length-insert k v ((j, w) ∷ m) = ground (arith, length-insert k v m)

  pub length-delete : (k : K) (m : List (K × V)) → length (delete k m) ≤ length m
  unfolding delete
  length-delete k [] = omega arith
  length-delete k ((j, w) ∷ m) = ground (arith, length-delete k m)
