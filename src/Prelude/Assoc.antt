-- ===== src/Prelude/Assoc.antt =====
-- Rust's `HashMap` and `DashMap` as association lists, and the equality tests of their keys.
use Prim.Native.Nat.{ℕ, ◌+◌, ◌≤◌}
use Prim.Native.String.{String}
use mathlib.Core.Path.{◌≡◌, refl, sym, ap, ap₂, ◌∙◌}
use mathlib.Core.Logic.{◌↔◌, ◌≢◌, ◌⊎◌, inl, inr}
use mathlib.Core.Bool.{Bool, true, false, ◌&&◌}
use mathlib.Core.List.{List, [], ◌∷◌}
use mathlib.Core.Option.{Option, none, some}
use native.Mathlib.Omega.{arith}
use text.Mathlib.Text.{◌==◌ as str_eq}
use text.Mathlib.TextEquality.{eq_iff}
use cypher.Prelude.Tests.{◌==◌ as nat_beq, ==_iff, if◌then◌else◌, Bool-cases}
use cypher.Prelude.Bytes.{Bytes, bytes_eq, bytes_eq_iff}
use cypher.Prelude.Lists.{length}

pub record Eq {ℓ} (A : Type ℓ) : Type ℓ where
  pub beq : A → A → Bool
  pub beq_iff : (a b : A) → (beq a b ≡ true) ↔ (a ≡ b)

instance abbrev pub nat_eq : Eq ℕ
nat_eq = record { beq = nat_beq; beq_iff = ==_iff }

instance abbrev pub string_eq : Eq String
string_eq = record { beq = str_eq; beq_iff = eq_iff }

instance abbrev pub bytes_Eq : Eq Bytes
bytes_Eq = record { beq = bytes_eq; beq_iff = bytes_eq_iff }

module _ {ℓ κ} {A : Type ℓ} {B : Type κ} (ea : Eq A) (eb : Eq B) where
  abbrev pub pair_beq : A × B → A × B → Bool
  pair_beq (a, b) (c, d) = ea.beq a c && eb.beq b d

  and_true : (x y : Bool) → (x && y) ≡ true → (x ≡ true) × (y ≡ true)
  and_true true true h = (refl, refl)
  and_true true false h = ground arith
  and_true false y h = ground arith

  pub pair_beq_iff : (p q : A × B) → (pair_beq p q ≡ true) ↔ (p ≡ q)
  pair_beq_iff (a, b) (c, d) = (
    λ h.
        let (ha, hb) = and_true (ea.beq a c) (eb.beq b d) h in
        ap₂ (λ x y. (x, y)) ((ea.beq_iff a c).0 ha) ((eb.beq_iff b d).0 hb),
    λ e. rw ((ea.beq_iff a c).1 (ap (λ p. p.0) e), (eb.beq_iff b d).1 (ap (λ p. p.1) e)),
  )

instance abbrev pub pair_Eq {ℓ κ} : {A : Type ℓ} {B : Type κ} ⦃ea : Eq A⦄ ⦃eb : Eq B⦄ → Eq (A × B)
pair_Eq ⦃ea⦄ ⦃eb⦄ = record { beq = pair_beq ea eb; beq_iff = pair_beq_iff ea eb }

pub beq_refl {ℓ} : {A : Type ℓ} (e : Eq A) (a : A) → e.beq a a ≡ true
beq_refl e a = (e.beq_iff a a).1 refl

pub beq_ne {ℓ} : {A : Type ℓ} (e : Eq A) (a b : A) → a ≢ b → e.beq a b ≡ false
beq_ne e a b h = elim (Bool-cases (e.beq a b)) [
  | inl same ↦ absurd (h ((e.beq_iff a b).0 same))
  | inr other ↦ other
]

pub beq_ne_of_eq {ℓ} :
    {A : Type ℓ} (e : Eq A) (i k j : A) → k ≢ j → e.beq i k ≡ true → e.beq i j ≡ false
beq_ne_of_eq e i k j h same = beq_ne e i j (λ p. h (rw (← (e.beq_iff i k).0 same) p))

pub some_injective {ℓ} : {A : Type ℓ} {a b : A} → some a ≡ some b → a ≡ b
some_injective h = cc

true-false : {b : Bool} → b ≡ true → b ≡ false → ⊥
true-false h k = cc

pub key_cases {ℓ} : {A : Type ℓ} ⦃e : Eq A⦄ (k j : A) → (k ≡ j) ⊎ (k ≢ j)
key_cases ⦃e⦄ k j = elim (Bool-cases (e.beq k j)) [
  | inl same ↦ inl ((e.beq_iff k j).0 same)
  | inr apart ↦ inr (λ eq. true-false ((e.beq_iff k j).1 eq) apart)
]

module _ {ℓ κ} {K : Type ℓ} {V : Type κ} ⦃e : Eq K⦄ where
  unfoldable pub lookup : K → List (K × V) → Option V
  lookup k [] = none
  lookup k ((j, v) ∷ m) = if e.beq j k then some v else lookup k m

  unfoldable pub insert : K → V → List (K × V) → List (K × V)
  insert k v [] = (k, v) ∷ []
  insert k v ((j, w) ∷ m) = if e.beq j k then (k, v) ∷ m else (j, w) ∷ insert k v m

  unfoldable pub remove : K → List (K × V) → List (K × V)
  remove k [] = []
  remove k ((j, w) ∷ m) = if e.beq j k then remove k m else (j, w) ∷ remove k m

  pub lookup-insert_self : (k : K) (v : V) (m : List (K × V)) → lookup k (insert k v m) ≡ some v
  unfolding lookup insert
  lookup-insert_self k v [] = rw (beq_refl e k)
  lookup-insert_self k v ((j, w) ∷ m) = elim (Bool-cases (e.beq j k)) [
    | inl same ↦ rw (same, beq_refl e k)
    | inr other ↦ rw (other, other) (lookup-insert_self k v m)
  ]

  pub lookup-insert_ne :
      (k j : K) (v : V) (m : List (K × V)) → k ≢ j → lookup j (insert k v m) ≡ lookup j m
  unfolding lookup insert
  lookup-insert_ne k j v [] h = rw (beq_ne e k j h)
  lookup-insert_ne k j v ((i, w) ∷ m) h =
      ground (arith, beq_ne e k j h, beq_ne_of_eq e i k j h, lookup-insert_ne k j v m h)

  pub lookup-remove_self : (k : K) (m : List (K × V)) → lookup k (remove k m) ≡ none
  unfolding lookup remove
  lookup-remove_self k [] = refl
  lookup-remove_self k ((j, w) ∷ m) = elim (Bool-cases (e.beq j k)) [
    | inl same ↦ rw same (lookup-remove_self k m)
    | inr other ↦ rw (other, other) (lookup-remove_self k m)
  ]

  pub lookup-remove_ne : (k j : K) (m : List (K × V)) → k ≢ j → lookup j (remove k m) ≡ lookup j m
  unfolding lookup remove
  lookup-remove_ne k j [] h = refl
  lookup-remove_ne k j ((i, w) ∷ m) h =
      ground (arith, beq_ne_of_eq e i k j h, lookup-remove_ne k j m h)

  pub length-insert-le : (k : K) (v : V) (m : List (K × V)) → length (insert k v m) ≤ length m + 1
  unfolding insert
  length-insert-le k v [] = omega arith
  length-insert-le k v ((j, w) ∷ m) = ground (arith, length-insert-le k v m)

  pub length-remove-le : (k : K) (m : List (K × V)) → length (remove k m) ≤ length m
  unfolding remove
  length-remove-le k [] = omega arith
  length-remove-le k ((j, w) ∷ m) = ground (arith, length-remove-le k m)

  -- Writing under a key that is there keeps the number of entries.
  pub length-insert_known :
      (k : K) (v : V) (m : List (K × V)) {w : V}
      → lookup k m ≡ some w
      → length (insert k v m) ≡ length m
  unfolding lookup insert
  length-insert_known k v [] h = ground arith
  length-insert_known k v ((j, u) ∷ m) {w} h = ground (arith, length-insert_known k v m {w = w})

  -- What an updated map holds is the new entry or an old one.
  pub lookup-insert :
      (k j : K) (v : V) (m : List (K × V)) {w : V}
      → lookup j (insert k v m) ≡ some w
      → ((k ≡ j) × (v ≡ w)) ⊎ (lookup j m ≡ some w)
  lookup-insert k j v m h = elim (key_cases k j) [
    | inl same ↦ inl (same, some_injective (sym (lookup-insert_self k v m) ∙ (rw (← same) at h)))
    | inr apart ↦ inr (sym (lookup-insert_ne k j v m apart) ∙ h)
  ]
