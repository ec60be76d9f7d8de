-- ===== src/Netman/Span.antt =====
-- The values of a function at consecutive positions.
use net_gitaroo.Common.{
  List, [], ap, arith, count, false, length, mem, refl, suc, zero, ℕ, ◌++◌, ◌+◌, ◌<◌, ◌∙◌, ◌∷◌, ◌≡◌,
  ◌≢◌, ◌≤◌,
}
use net_gitaroo.IpVisual.{put_at}
use net_gitaroo.Packets.{Ptr}

-- The values of `f` at the `n` positions from `i` on.
abbrev pub span {ℓ} : {A : Type ℓ} → (ℕ → A) → ℕ → ℕ → List A
span f i zero = []
span f i (suc n) = f i ∷ span f (suc i) n

pub length-span {ℓ} : {A : Type ℓ} (f : ℕ → A) (i n : ℕ) → length (span f i n) ≡ n
length-span f i zero = refl
length-span f i (suc n) = omega (arith, length-span f (suc i) n)

-- Replacing one value of a span swaps it for the other.
pub count-span-put_below :
    (f : ℕ → Ptr) (j x a i n : ℕ) → j < i → count a (span (put_at f j x) i n) ≡ count a (span f i n)
count-span-put_below f j x a i zero h = refl
count-span-put_below f j x a i (suc n) h = ground (arith, count-span-put_below f j x a (suc i) n)

pub count-span-put :
    (f : ℕ → Ptr) (j x a i n : ℕ)
    → i ≤ j
    → j < i + n
    → count a (x ∷ span f i n) ≡ count a (f j ∷ span (put_at f j x) i n)
count-span-put f j x a i zero h k = absurd (omega arith)
count-span-put f j x a i (suc n) h k =
    ground (arith, count-span-put f j x a (suc i) n, count-span-put_below f j x a (suc i) n)

pub mem-span :
    (f : ℕ → Ptr) (x j i n : ℕ) → mem x (span f i n) ≡ false → i ≤ j → j < i + n → f j ≢ x
mem-span f x j i zero h k l = absurd (omega arith)
mem-span f x j i (suc n) h k l = ground (arith, mem-span f x j (suc i) n)

pub count-span-put_above :
    (f : ℕ → Ptr) (j x a i n : ℕ)
    → i + n ≤ j
    → count a (span (put_at f j x) i n) ≡ count a (span f i n)
count-span-put_above f j x a i zero h = refl
count-span-put_above f j x a i (suc n) h = ground (arith, count-span-put_above f j x a (suc i) n)

pub count-span-last :
    (f : ℕ → Ptr) (a i n : ℕ) → count a (span f i (suc n)) ≡ count a (f (i + n) ∷ span f i n)
count-span-last f a i zero = ground arith
count-span-last f a i (suc n) = ground (arith, count-span-last f a (suc i) n)

pub span-put_above {ℓ} :
    {A : Type ℓ} (f : ℕ → A) (j : ℕ) (x : A) (i n : ℕ)
    → i + n ≤ j
    → span (put_at f j x) i n ≡ span f i n
span-put_above f j x i zero h = refl
span-put_above f j x i (suc n) h = ground (arith, span-put_above f j x (suc i) n)

pub span-last {ℓ} :
    {A : Type ℓ} (f : ℕ → A) (i n : ℕ) → span f i (suc n) ≡ span f i n ++ (f (i + n) ∷ [])
span-last f i zero = ap (λ k. f k ∷ []) (omega arith)
span-last f i (suc n) =
    ap (◌∷◌ (f i)) (span-last f (suc i) n ∙ ap (λ k. span f (suc i) n ++ (f k ∷ [])) (omega arith))

pub span-append {ℓ} :
    {A : Type ℓ} (f : ℕ → A) (i m k : ℕ) → span f i (m + k) ≡ span f i m ++ span f (i + m) k
span-append f i zero k =
    let none : zero + k ≡ k = omega arith in
    let start : i ≡ i + zero = omega arith in ap (span f i) none ∙ ap (λ j. span f j k) start
span-append f i (suc m) k =
    let shift : suc m + k ≡ suc (m + k) = omega arith in
    let start : suc i + m ≡ i + suc m = omega arith in
    ap (span f i) shift
    ∙ ap (◌∷◌ (f i)) (span-append f (suc i) m k ∙ ap (λ j. span f (suc i) m ++ span f j k) start)
