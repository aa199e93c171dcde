-- ===== src/Ring/Pieces.antt =====
-- What `memcpy` into the ring's buffer leaves, as slices.
use swindle_bootloader_gd.Common.{
  ℕ, zero, suc, ◌+◌, ◌≤◌, ◌≡◌, refl, sym, ap, ◌∙◌, List, [], ◌∷◌, ◌++◌, arith, length, take, drop,
  blit, length-blit,
}
use swindle_bootloader_gd.Ring.{copy_in}

pub length-copy_in : (off : ℕ) (xs buf : List ℕ) → length (copy_in off xs buf) ≡ length buf
length-copy_in zero xs buf = length-blit xs buf
length-copy_in (suc off) xs [] = refl
length-copy_in (suc off) xs (b ∷ buf) = ap suc (length-copy_in off xs buf)

take-blit : (xs buf : List ℕ) → length xs ≤ length buf → take (length xs) (blit xs buf) ≡ xs
take-blit [] buf h = refl
take-blit (x ∷ xs) [] h = absurd (omega arith)
take-blit (x ∷ xs) (b ∷ buf) h = ap (λ ys. x ∷ ys) (take-blit xs buf (omega arith))

-- The slice from the start to the end of the copied bytes.
pub take-copy_in :
    (n off : ℕ) (xs buf : List ℕ)
    → n ≡ off + length xs
    → n ≤ length buf
    → take n (copy_in off xs buf) ≡ take off buf ++ xs
take-copy_in n zero xs buf e h =
    let same : n ≡ length xs = omega arith in
    ap (λ k. take k (blit xs buf)) same ∙ take-blit xs buf (omega arith)
take-copy_in zero (suc off) xs buf e h = absurd (omega arith)
take-copy_in (suc n) (suc off) xs [] e h = absurd (omega arith)
take-copy_in (suc n) (suc off) xs (b ∷ buf) e h =
    ap (λ ys. b ∷ ys) (take-copy_in n off xs buf (omega arith) (omega arith))

-- The slice from the ring's tail, `from`, to the end of the copied bytes.
pub slice-copy_in :
    (from len n off : ℕ) (xs buf : List ℕ)
    → off ≡ from + len
    → n ≡ len + length xs
    → from + n ≤ length buf
    → take n (drop from (copy_in off xs buf)) ≡ take len (drop from buf) ++ xs
slice-copy_in zero len n off xs buf o e h =
    let same : off ≡ len = omega arith in
    take-copy_in n off xs buf (omega arith) (omega arith) ∙ ap (λ k. take k buf ++ xs) same
slice-copy_in (suc from) len n zero xs buf o e h = absurd (omega arith)
slice-copy_in (suc from) len n (suc off) xs [] o e h = absurd (omega arith)
slice-copy_in (suc from) len n (suc off) xs (b ∷ buf) o e h =
    slice-copy_in from len n off xs buf (omega arith) (omega arith) (omega arith)

drop-blit : (n : ℕ) (xs buf : List ℕ) → length xs ≤ n → drop n (blit xs buf) ≡ drop n buf
drop-blit n [] buf h = refl
drop-blit zero (x ∷ xs) buf h = absurd (omega arith)
drop-blit (suc n) (x ∷ xs) [] h = refl
drop-blit (suc n) (x ∷ xs) (b ∷ buf) h = drop-blit n xs buf (omega arith)

-- What lies behind the copied bytes stays.
pub drop-copy_in :
    (n off : ℕ) (xs buf : List ℕ) → off + length xs ≤ n → drop n (copy_in off xs buf) ≡ drop n buf
drop-copy_in n zero xs buf h = drop-blit n xs buf (omega arith)
drop-copy_in zero (suc off) xs buf h = absurd (omega arith)
drop-copy_in (suc n) (suc off) xs [] h = refl
drop-copy_in (suc n) (suc off) xs (b ∷ buf) h = drop-copy_in n off xs buf (omega arith)

pub take-all : (n : ℕ) (xs : List ℕ) → length xs ≤ n → take n xs ≡ xs
take-all zero [] h = refl
take-all zero (x ∷ xs) h = absurd (omega arith)
take-all (suc n) [] h = refl
take-all (suc n) (x ∷ xs) h = ap (λ ys. x ∷ ys) (take-all n xs (omega arith))

take-nil : (n : ℕ) → take {A = ℕ} n [] ≡ []
take-nil zero = refl
take-nil (suc n) = refl

drop-nil : (n : ℕ) → drop {A = ℕ} n [] ≡ []
drop-nil zero = refl
drop-nil (suc n) = refl

-- A slice in two parts.
pub take_add : (n m k : ℕ) (xs : List ℕ) → k ≡ n + m → take k xs ≡ take n xs ++ take m (drop n xs)
take_add zero m k xs e = ap (λ j. take j xs) {x = k} {y = m} (omega arith)
take_add (suc n) m zero xs e = absurd (omega arith)
take_add (suc n) m (suc k) [] e = sym (take-nil m)
take_add (suc n) m (suc k) (x ∷ xs) e = ap (λ ys. x ∷ ys) (take_add n m k xs (omega arith))

pub take-append-drop : (n : ℕ) (xs : List ℕ) → take n xs ++ drop n xs ≡ xs
take-append-drop zero xs = refl
take-append-drop (suc n) [] = refl
take-append-drop (suc n) (x ∷ xs) = ap (λ ys. x ∷ ys) (take-append-drop n xs)

pub drop_add : (n m k : ℕ) (xs : List ℕ) → k ≡ n + m → drop m (drop n xs) ≡ drop k xs
drop_add zero m k xs e = ap (λ j. drop j xs) {x = m} {y = k} (omega arith)
drop_add (suc n) m zero xs e = absurd (omega arith)
drop_add (suc n) m (suc k) [] e = drop-nil m
drop_add (suc n) m (suc k) (x ∷ xs) e = drop_add n m k xs (omega arith)
