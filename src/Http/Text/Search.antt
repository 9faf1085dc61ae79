-- ===== src/Http/Text/Search.antt =====
-- What `strstr` and `strchr` find behind bytes that cannot be the place.
use vtfs.Base.{
  ℕ, ◌≤◌, ◌≡◌, refl, true, false, none, some, [], ◌∷◌, ◌++◌, ◌==◌, ==_refl, arith, Bool-cases, inl,
  inr,
}
use vtfs.Base.Lists.{mem, length}
use vtfs.Base.Strings.{Bytes}
use vtfs.Http.Text.{starts_with, strstr, strchr}

pub starts_with-append : (p s : Bytes) → starts_with p (p ++ s) ≡ true
unfolding starts_with
starts_with-append [] s = refl
starts_with-append (a ∷ p) s = rw (==_refl a) (starts_with-append p s)

-- A needle is found where it stands, if it does not begin with a NUL.
pub strstr-append :
    (a : ℕ) (needle s : Bytes)
    → (a == 0) ≡ false
    → strstr ((a ∷ needle) ++ s) (a ∷ needle) ≡ some ((a ∷ needle) ++ s)
unfolding strstr
strstr-append a needle s n0 = rw n0 (rw (starts_with-append (a ∷ needle) s))

-- It is not found in front of the first place that has its first byte.
pub strstr_skip :
    (a : ℕ) (needle before s : Bytes)
    → mem 0 before ≡ false
    → mem a before ≡ false
    → strstr (before ++ s) (a ∷ needle) ≡ strstr s (a ∷ needle)
unfolding strstr starts_with
strstr_skip a needle [] s n0 na = refl
strstr_skip a needle (c ∷ before) s n0 na = ground (arith, strstr_skip a needle before s)

pub strchr_skip :
    (c : ℕ) (before s : Bytes)
    → mem 0 before ≡ false
    → mem c before ≡ false
    → strchr (before ++ s) c ≡ strchr s c
unfolding strchr
strchr_skip c [] s n0 nc = refl
strchr_skip c (d ∷ before) s n0 nc = ground (arith, strchr_skip c before s)

pub strchr_here : (c : ℕ) (s : Bytes) → strchr (c ∷ s) c ≡ some (c ∷ s)
unfolding strchr
strchr_here c s = rw (==_refl c)

pub strchr_pass :
    (c d : ℕ) (s : Bytes) → (d == c) ≡ false → (d == 0) ≡ false → strchr s c ≡ strchr (d ∷ s) c
unfolding strchr
strchr_pass c d s nc n0 = rw nc (rw n0)

pub strchr-length-le : (c : ℕ) (s found : Bytes) → strchr s c ≡ some found → length found ≤ length s
unfolding strchr
strchr-length-le c [] found e = absurd (cc e)
strchr-length-le c (d ∷ s) found e = elim (Bool-cases (d == c)) [
  | inl here ↦ let same : some (d ∷ s) ≡ some found = rw here at e in ground (arith, same)
  | inr away ↦ elim (Bool-cases (d == 0)) [
    | inl nul ↦ let gone : none ≡ some found = rw nul at (rw away at e) in absurd (cc gone)
    | inr more ↦
        let later : strchr s c ≡ some found = rw more at (rw away at e) in
        omega (arith, strchr-length-le c s found later)
  ]
]
