-- ===== src/Prelude/Maps.antt =====
-- Association lists without a repeated key, on which the number of entries is that of the keys.
use cypher.Prelude.Tests.{Bool-cases}
use cypher.Prelude.Lists.{length}
use cypher.Prelude.Assoc.{
  Eq, lookup, insert, remove, key_cases, lookup-insert_ne, lookup-remove_ne, lookup-remove_self,
}
use Prim.Native.Nat.{◌+◌}
use mathlib.Core.Path.{◌≡◌, refl, sym, ap, ◌∙◌}
use mathlib.Core.Logic.{inl, inr}
use mathlib.Core.Bool.{Bool, true, false}
use mathlib.Core.List.{List, [], ◌∷◌}
use mathlib.Core.Option.{none, some}
use native.Mathlib.Omega.{arith}

pub some-none {ℓ} : {A : Type ℓ} {a : A} → some a ≡ none → ⊥
some-none h = cc

pub true-false : {b : Bool} → b ≡ true → b ≡ false → ⊥
true-false h k = cc

module _ {ℓ κ} {K : Type ℓ} {V : Type κ} ⦃e : Eq K⦄ where
  abbrev pub IsMap : List (K × V) → Type κ
  IsMap [] = Unit {κ}
  IsMap ((k, v) ∷ m) = (lookup k m ≡ none) × IsMap m

  pub remove_absent : (k : K) (m : List (K × V)) → lookup k m ≡ none → remove k m ≡ m
  unfolding lookup remove
  remove_absent k [] h = refl
  remove_absent k ((j, w) ∷ m) h = elim (Bool-cases (e.beq j k)) [
    | inl same ↦ absurd (some-none (rw same at h))
    | inr other ↦ rw other (ap (◌∷◌ (j, w)) (remove_absent k m (rw other at h)))
  ]

  -- Removing an entry takes one off the number of entries.
  pub length-remove_known :
      (k : K) (m : List (K × V)) {w : V}
      → IsMap m
      → lookup k m ≡ some w
      → length (remove k m) + 1 ≡ length m
  unfolding lookup remove
  length-remove_known k [] h found = absurd (some-none (sym found))
  length-remove_known k ((j, u) ∷ m) h found = elim (Bool-cases (e.beq j k)) [
    | inl same ↦
        let absent : lookup k m ≡ none = rw (← (e.beq_iff j k).0 same) h.0 in
        rw (same, remove_absent k m absent) (omega arith)
    | inr other ↦ rw other (omega (arith, length-remove_known k m h.1 (rw other at found)))
  ]

  pub length-insert_new :
      (k : K) (v : V) (m : List (K × V)) → lookup k m ≡ none → length (insert k v m) ≡ length m + 1
  unfolding lookup insert
  length-insert_new k v [] h = refl
  length-insert_new k v ((j, w) ∷ m) h = elim (Bool-cases (e.beq j k)) [
    | inl same ↦ absurd (some-none (rw same at h))
    | inr other ↦ rw other (omega (arith, length-insert_new k v m (rw other at h)))
  ]

  pub insert-IsMap : (k : K) (v : V) (m : List (K × V)) → IsMap m → IsMap (insert k v m)
  unfolding lookup insert
  insert-IsMap k v [] h = (refl, tt)
  insert-IsMap k v ((j, w) ∷ m) h = elim (Bool-cases (e.beq j k)) [
    | inl same ↦ rw same (rw (← (e.beq_iff j k).0 same) h.0, h.1)
    | inr other ↦ rw other (
      rw (lookup-insert_ne k j v m (λ eq. true-false ((e.beq_iff j k).1 (sym eq)) other)) h.0,
      insert-IsMap k v m h.1,
    )
  ]

  -- What is left after a removal was there before.
  pub lookup-remove :
      (k j : K) (m : List (K × V)) {w : V} → lookup j (remove k m) ≡ some w → lookup j m ≡ some w
  lookup-remove k j m h = elim (key_cases k j) [
    | inl same ↦ absurd (some-none (sym h ∙ rw same (lookup-remove_self j m)))
    | inr apart ↦ sym (lookup-remove_ne k j m apart) ∙ h
  ]

  pub lookup-remove-none :
      (k j : K) (m : List (K × V)) → lookup j m ≡ none → lookup j (remove k m) ≡ none
  lookup-remove-none k j m h = elim (key_cases k j) [
    | inl same ↦ rw same (lookup-remove_self j m)
    | inr apart ↦ lookup-remove_ne k j m apart ∙ h
  ]

  pub remove-IsMap : (k : K) (m : List (K × V)) → IsMap m → IsMap (remove k m)
  unfolding remove
  remove-IsMap k [] h = tt
  remove-IsMap k ((j, w) ∷ m) h = elim (Bool-cases (e.beq j k)) [
    | inl same ↦ rw same (remove-IsMap k m h.1)
    | inr other ↦ rw other (lookup-remove-none k j m h.0, remove-IsMap k m h.1)
  ]
