-- ===== src/Transfer/Bytewise.antt =====
-- Files byte by byte, under writes and cuts.
use cypher.Prelude.{
  ℕ, zero, suc, ◌+◌, ◌≤◌, ◌<◌, ◌≡◌, refl, ap, ap₂, [], ◌∷◌, get_or, length, take, drop, arith,
}
use cypher.Prelude.Bytes.{Bytes}
use cypher.Transfer.Assembler.{overwrite, write_at}

pub get_or-take : (n p : ℕ) (xs : Bytes) → p < n → get_or (take n xs) p 0 ≡ get_or xs p 0
get_or-take zero p xs h = absurd (omega (arith, h))
get_or-take (suc n) p [] h = refl
get_or-take (suc n) zero (x ∷ xs) h = refl
get_or-take (suc n) (suc p) (x ∷ xs) h = get_or-take n p xs (omega (arith, h))

pub get_or-drop : (n p : ℕ) (xs : Bytes) → get_or (drop n xs) p 0 ≡ get_or xs (n + p) 0
get_or-drop zero p xs = let e : 0 + p ≡ p = omega arith in rw e refl
get_or-drop (suc n) p [] = refl
get_or-drop (suc n) p (x ∷ xs) =
    let e : suc n + p ≡ suc (n + p) = omega arith in rw e (get_or-drop n p xs)

get_or-overwrite_in :
    (ds file : Bytes) (p : ℕ) → p < length ds → get_or (overwrite ds file) p 0 ≡ get_or ds p 0
unfolding overwrite
get_or-overwrite_in [] file p h = absurd (omega (arith, h))
get_or-overwrite_in (d ∷ ds) [] p h = refl
get_or-overwrite_in (d ∷ ds) (b ∷ file) zero h = refl
get_or-overwrite_in (d ∷ ds) (b ∷ file) (suc p) h = get_or-overwrite_in ds file p (omega (arith, h))

get_or_past : (ds : Bytes) (p : ℕ) → length ds ≤ p → get_or ds p 0 ≡ 0
get_or_past [] p h = refl
get_or_past (d ∷ ds) zero h = absurd (omega (arith, h))
get_or_past (d ∷ ds) (suc p) h = get_or_past ds p (omega (arith, h))

get_or-overwrite_out :
    (ds file : Bytes) (p : ℕ) → length ds ≤ p → get_or (overwrite ds file) p 0 ≡ get_or file p 0
unfolding overwrite
get_or-overwrite_out [] file p h = refl
get_or-overwrite_out (d ∷ ds) [] p h = get_or_past (d ∷ ds) p h
get_or-overwrite_out (d ∷ ds) (b ∷ file) zero h = absurd (omega (arith, h))
get_or-overwrite_out (d ∷ ds) (b ∷ file) (suc p) h =
    get_or-overwrite_out ds file p (omega (arith, h))

-- A written byte is read back, and every other byte is as before.
pub get_or-write_at_in :
    (n : ℕ) (ds file : Bytes) (p : ℕ)
    → p < length ds
    → get_or (write_at n ds file) (n + p) 0 ≡ get_or ds p 0
unfolding write_at
get_or-write_at_in zero ds file p h =
    let e : 0 + p ≡ p = omega arith in rw e (get_or-overwrite_in ds file p h)
get_or-write_at_in (suc n) ds [] p h =
    let e : suc n + p ≡ suc (n + p) = omega arith in rw e (get_or-write_at_in n ds [] p h)
get_or-write_at_in (suc n) ds (b ∷ file) p h =
    let e : suc n + p ≡ suc (n + p) = omega arith in rw e (get_or-write_at_in n ds file p h)

pub get_or-write_at_before :
    (n : ℕ) (ds file : Bytes) (p : ℕ) → p < n → get_or (write_at n ds file) p 0 ≡ get_or file p 0
unfolding write_at
get_or-write_at_before zero ds file p h = absurd (omega (arith, h))
get_or-write_at_before (suc n) ds [] zero h = refl
get_or-write_at_before (suc n) ds [] (suc p) h = get_or-write_at_before n ds [] p (omega (arith, h))
get_or-write_at_before (suc n) ds (b ∷ file) zero h = refl
get_or-write_at_before (suc n) ds (b ∷ file) (suc p) h =
    get_or-write_at_before n ds file p (omega (arith, h))

pub get_or-write_at_after :
    (n : ℕ) (ds file : Bytes) (p : ℕ)
    → n + length ds ≤ p
    → get_or (write_at n ds file) p 0 ≡ get_or file p 0
unfolding write_at
get_or-write_at_after zero ds file p h = get_or-overwrite_out ds file p (omega (arith, h))
get_or-write_at_after (suc n) ds [] zero h = absurd (omega (arith, h))
get_or-write_at_after (suc n) ds (b ∷ file) zero h = absurd (omega (arith, h))
get_or-write_at_after (suc n) ds [] (suc p) h = get_or-write_at_after n ds [] p (omega (arith, h))
get_or-write_at_after (suc n) ds (b ∷ file) (suc p) h =
    get_or-write_at_after n ds file p (omega (arith, h))

length-overwrite :
    (ds file : Bytes) → length ds ≤ length file → length (overwrite ds file) ≡ length file
unfolding overwrite
length-overwrite [] file h = refl
length-overwrite (d ∷ ds) [] h = absurd (omega (arith, h))
length-overwrite (d ∷ ds) (b ∷ file) h = ap suc (length-overwrite ds file (omega (arith, h)))

-- A write inside the file keeps its length.
pub length-write_at :
    (n : ℕ) (ds file : Bytes)
    → n + length ds ≤ length file
    → length (write_at n ds file) ≡ length file
unfolding write_at
length-write_at zero ds file h = length-overwrite ds file (omega (arith, h))
length-write_at (suc n) ds [] h = absurd (omega (arith, h))
length-write_at (suc n) ds (b ∷ file) h = ap suc (length-write_at n ds file (omega (arith, h)))

-- Files of one length with the same bytes are the same.
pub bytewise :
    (xs ys : Bytes)
    → length xs ≡ length ys
    → ((p : ℕ) → p < length xs → get_or xs p 0 ≡ get_or ys p 0)
    → xs ≡ ys
bytewise [] [] l h = refl
bytewise [] (y ∷ ys) l h = absurd (omega (arith, l))
bytewise (x ∷ xs) [] l h = absurd (omega (arith, l))
bytewise (x ∷ xs) (y ∷ ys) l h =
    ap₂ (λ (z : ℕ) (zs : Bytes). z ∷ zs) (h 0 (omega arith))
      (bytewise xs ys (omega (arith, l)) (λ p below. h (suc p) (omega (arith, below))))
