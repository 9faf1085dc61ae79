-- ===== src/Storage/Spec/Slices.antt =====
-- Lists of bytes that are cut from a memory.
use vtfs.Base.{ℕ, zero, suc, ◌+◌, ◌-◌, ◌≤◌, ◌<◌, min, ◌≡◌, refl, sym, ap, ◌∙◌, arith, ◌∷◌, ◌++◌}
use vtfs.Base.Lists.{length, take, drop}
use vtfs.Storage.Contents.{slice}

pub slice_at : (f : ℕ → ℕ) (i j n m : ℕ) → i ≡ j → n ≡ m → slice f i n ≡ slice f j m
slice_at f i j n m h k = cc (h, k)

pub slice-add : (f : ℕ → ℕ) (i a b : ℕ) → slice f i (a + b) ≡ slice f i a ++ slice f (i + a) b
slice-add f i zero b = slice_at f i (i + 0) (0 + b) b (omega arith) (omega arith)
slice-add f i (suc a) b =
    let sum : suc a + b ≡ suc (a + b) = omega arith in
    let place : i + suc a ≡ i + 1 + a = omega arith in
    rw sum (rw place (ap (λ bytes. f i ∷ bytes) (slice-add f (i + 1) a b)))

-- Two cuts that meet are one.
pub slice_join :
    (f : ℕ → ℕ) (i a j b n : ℕ) → j ≡ i + a → n ≡ a + b → slice f i a ++ slice f j b ≡ slice f i n
slice_join f i a j b n meet sum = rw meet (rw sum (sym (slice-add f i a b)))

pub slice_same :
    (f g : ℕ → ℕ) (i n : ℕ) → ((k : ℕ) → i ≤ k → k < i + n → f k ≡ g k) → slice f i n ≡ slice g i n
slice_same f g i zero h = refl
slice_same f g i (suc n) h =
    let here : f i ≡ g i = h i (omega arith) (omega arith) in
    let rest = slice_same f g (i + 1) n (λ k lo hi. h k (omega arith) (omega arith)) in
    cc (here, rest)

pub length-slice : (f : ℕ → ℕ) (i n : ℕ) → length (slice f i n) ≡ n
length-slice f i zero = refl
length-slice f i (suc n) = omega (arith, length-slice f (i + 1) n)

pub take-slice : (f : ℕ → ℕ) (m i n : ℕ) → take m (slice f i n) ≡ slice f i (min m n)
take-slice f zero i n = slice_at f i i 0 (min 0 n) refl (omega arith)
take-slice f (suc m) i zero = slice_at f i i 0 (min (suc m) 0) refl (omega arith)
take-slice f (suc m) i (suc n) =
    let rest = take-slice f m (i + 1) n in
    let one : min (suc m) (suc n) ≡ suc (min m n) = omega arith in rw one (rw rest refl)

pub drop-slice : (f : ℕ → ℕ) (m i n : ℕ) → drop m (slice f i n) ≡ slice f (i + m) (n - m)
drop-slice f zero i n = slice_at f i (i + 0) n (n - 0) (omega arith) (omega arith)
drop-slice f (suc m) i zero = slice_at f (i + suc m) (i + suc m) 0 (0 - suc m) refl (omega arith)
drop-slice f (suc m) i (suc n) =
    drop-slice f m (i + 1) n
    ∙ slice_at f (i + 1 + m) (i + suc m) (n - m) (suc n - suc m) (omega arith) (omega arith)
