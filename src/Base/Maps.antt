-- ===== src/Base/Maps.antt =====
-- A Go map as an association list. `insert` overwrites in place or adds at the end, so a key
-- stands once in every map that the operations build.
use mathlib.Core.Path.{◌≡◌, refl}
use mathlib.Core.List.{List, [], ◌∷◌, ◌++◌}
use mathlib.Core.Option.{Option, none, some}
use native.Mathlib.Omega.{arith}
use mathlib.Core.Path.{subst}
use mathlib.Core.Logic.{inl, inr}
use ircparser.Base.Lists.{All}
use ircparser.Base.Tests.{Bool-cases, Eq, if◌then◌else◌}

abbrev pub Dict {ℓ} : Type 0 → Type ℓ → Type ℓ
Dict K V = List (K × V)

module _ {ℓ} {K : Type 0} {V : Type ℓ} ⦃e : Eq K⦄ where
  -- m[k]; `none` for a missing key
  unfoldable pub lookup : K → Dict K V → Option V
  lookup k [] = none
  lookup k ((j, v) ∷ m) = if e.beq j k then some v else lookup k m

  -- m[k] = v
  unfoldable pub insert : K → V → Dict K V → Dict K V
  insert k v [] = (k, v) ∷ []
  insert k v ((j, w) ∷ m) = if e.beq j k then (k, v) ∷ m else (j, w) ∷ insert k v m

  -- delete(m, k)
  unfoldable pub delete : K → Dict K V → Dict K V
  delete k [] = []
  delete k ((j, w) ∷ m) = let rest = delete k m in if e.beq j k then rest else (j, w) ∷ rest

  pub lookup-insert :
      (k j : K) (v : V) (m : Dict K V)
      → lookup j (insert k v m) ≡ (if e.beq k j then some v else lookup j m)
  unfolding lookup insert
  lookup-insert k j v [] = refl
  lookup-insert k j v ((i, w) ∷ m) =
      ground (arith, e.beq_iff k j, e.beq_iff i k, e.beq_iff i j, lookup-insert k j v m)

  pub lookup-delete :
      (k j : K) (m : Dict K V) → lookup j (delete k m) ≡ (if e.beq k j then none else lookup j m)
  unfolding lookup delete
  lookup-delete k j [] = ground arith
  lookup-delete k j ((i, w) ∷ m) =
      ground (arith, e.beq_iff k j, e.beq_iff i k, e.beq_iff i j, lookup-delete k j m)

  pub lookup-insert_self : (k : K) (v : V) (m : Dict K V) → lookup k (insert k v m) ≡ some v
  lookup-insert_self k v m = simp (lookup-insert, (e.beq_iff k k).1 refl)

  -- A new key goes to the end.
  pub insert_fresh :
      (k : K) (v : V) (m : Dict K V) → lookup k m ≡ none → insert k v m ≡ m ++ (k, v) ∷ []
  unfolding lookup insert
  insert_fresh k v [] h = refl
  insert_fresh k v ((j, w) ∷ m) h = ground (arith, insert_fresh k v m)

  pub lookup-concat :
      (k j : K) (v : V) (m : Dict K V)
      → lookup k (m ++ (j, v) ∷ [])
        ≡ elim (lookup k m) [ none ↦ if e.beq j k then some v else none | some w ↦ some w ]
  unfolding lookup
  lookup-concat k j v [] = refl
  lookup-concat k j v ((i, w) ∷ m) = ground (arith, lookup-concat k j v m)

  pub lookup-nil : (k : K) → lookup k [] ≡ none
  unfolding lookup
  lookup-nil k = refl

  pub lookup-cons :
      (k j : K) (v : V) (m : Dict K V)
      → lookup k ((j, v) ∷ m) ≡ (if e.beq j k then some v else lookup k m)
  unfolding lookup
  lookup-cons k j v m = refl

module _ {ℓ κ} {K : Type 0} {V : Type ℓ} ⦃e : Eq K⦄ (P : K × V → Type κ) where
  pub All-insert : (k : K) (v : V) (m : Dict K V) → P (k, v) → All P m → All P (insert k v m)
  unfolding insert
  All-insert k v [] p h = (p, tt)
  All-insert k v ((j, w) ∷ m) p (hj, hm) = elim (Bool-cases (e.beq j k)) [
    | inl same ↦ rw same (p, hm)
    | inr other ↦ rw other (hj, All-insert k v m p hm)
  ]

  pub All-delete : (k : K) (m : Dict K V) → All P m → All P (delete k m)
  unfolding delete
  All-delete k [] h = tt
  All-delete k ((j, w) ∷ m) (hj, hm) = elim (Bool-cases (e.beq j k)) [
    | inl same ↦ rw same (All-delete k m hm)
    | inr other ↦ rw other (hj, All-delete k m hm)
  ]

  pub All-lookup : (k : K) (m : Dict K V) {v : V} → All P m → lookup k m ≡ some v → P (k, v)
  unfolding lookup
  All-lookup k [] h f = cc
  All-lookup k ((j, w) ∷ m) {v} (hj, hm) f = elim (Bool-cases (e.beq j k)) [
    | inl same ↦
        let z : w ≡ v = ground arith in
        subst (λ j. P (j, v)) ((e.beq_iff j k).0 same) (subst (λ w. P (j, w)) z hj)
    | inr other ↦ All-lookup k m hm (ground arith)
  ]
