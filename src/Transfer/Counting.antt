-- ===== src/Transfer/Counting.antt =====
-- When as many chunks are received as the file has, none is missing.
use cypher.Prelude.{
  ℕ, zero, suc, ◌+◌, ◌≤◌, ◌<◌, ◌≡◌, refl, inl, inr, true, false, List, [], ◌∷◌, ◌++◌, length,
  length-append, ◌==◌, Bool-cases, ==_iff, ◌≢◌, arith,
}
use cypher.Transfer.Sender.{contains, insert_ack}
use cypher.Transfer.Assembler.{missing_below}

-- A set of numbers below n, as a list without repetitions.
unfoldable pub IsSubset : (n : ℕ) → List ℕ → Type 0
IsSubset n [] = Unit {0}
IsSubset n (x ∷ xs) = (x < n) × (contains x xs ≡ false) × IsSubset n xs

pub insert_ack-IsSubset :
    (n x : ℕ) (xs : List ℕ) → x < n → IsSubset n xs → IsSubset n (insert_ack x xs)
unfolding insert_ack IsSubset
insert_ack-IsSubset n x xs below h = elim (Bool-cases (contains x xs)) [
  | inl there ↦ rw there h
  | inr fresh ↦ rw fresh (below, fresh, h)
]

length-missing_below_cons :
    (n x : ℕ) (xs : List ℕ)
    → contains x xs ≡ false
    → (x < n → length (missing_below n (x ∷ xs)) + 1 ≡ length (missing_below n xs))
      × (n ≤ x → length (missing_below n (x ∷ xs)) ≡ length (missing_below n xs))
unfolding missing_below contains
length-missing_below_cons zero x xs fresh = (λ h. absurd (omega (arith, h)), λ h. refl)
length-missing_below_cons (suc n) x xs fresh =
    let (lt_case, ge_case) = length-missing_below_cons n x xs fresh in
    let ends = length-append (missing_below n xs) (n ∷ []) in
    let ends' = length-append (missing_below n (x ∷ xs)) (n ∷ []) in
    elim (Bool-cases (x == n)) [
      | inl same ↦
          let e : x ≡ n = (==_iff x n).0 same in
          let absent : contains n xs ≡ false = rw e at fresh in
          rw (same, absent)
            (
              λ h. omega (arith, ge_case (omega (arith, e)), ends),
              λ h. absurd (omega (arith, h, e)),
            )
      | inr other ↦
          let ne : x ≢ n = λ e. test_ne x n other e in
          elim (Bool-cases (contains n xs)) [
            | inl there ↦
                rw (other, there)
                  (λ h. lt_case (below_of x n h ne), λ h. ge_case (omega (arith, h)))
            | inr absent ↦
                rw (other, absent)
                  (
                    λ h. omega (arith, lt_case (below_of x n h ne), ends, ends'),
                    λ h. omega (arith, ge_case (omega (arith, h)), ends, ends'),
                  )
          ]
    ]
  where
    test_ne : (a b : ℕ) → (a == b) ≡ false → a ≢ b
    test_ne a b h = ground arith

    below_of : (a b : ℕ) → a < suc b → a ≢ b → a < b
    below_of a b h k = ground arith

length-missing_below_none : (n : ℕ) → length (missing_below n []) ≡ n
unfolding missing_below contains
length-missing_below_none zero = refl
length-missing_below_none (suc n) =
    omega (arith, length-missing_below_none n, length-append (missing_below n []) (n ∷ []))

-- What is received and what is missing add up.
pub length-missing_below :
    (n : ℕ) (xs : List ℕ) → IsSubset n xs → length (missing_below n xs) + length xs ≡ n
unfolding IsSubset
length-missing_below n [] h = omega (arith, length-missing_below_none n)
length-missing_below n (x ∷ xs) (below, fresh, h) =
    omega (arith, (length-missing_below_cons n x xs fresh).0 below, length-missing_below n xs h)

-- When none is missing each one is there.
pub contains_all :
    (n : ℕ) (xs : List ℕ) → length (missing_below n xs) ≡ 0 → (i : ℕ) → i < n → contains i xs ≡ true
unfolding missing_below
contains_all zero xs h i below = absurd (omega (arith, below))
contains_all (suc n) xs h i below = elim (Bool-cases (contains n xs)) [
  | inr absent ↦
      let none_left : length (missing_below n xs ++ (n ∷ [])) ≡ 0 = rw absent at h in
      absurd (omega (arith, length-append (missing_below n xs) (n ∷ []), none_left))
  | inl there ↦ elim (Bool-cases (i == n)) [
    | inl same ↦ rw ((==_iff i n).0 same) there
    | inr other ↦ contains_all n xs (rw there at h) i (ground arith)
  ]
]
