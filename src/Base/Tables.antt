-- ===== src/Base/Tables.antt =====
-- A test of all numbers below a bound, by evaluation.
use Prim.Native.Nat.{ℕ, zero, suc, ◌<◌}
use mathlib.Core.Path.{◌≡◌, ap, ◌∙◌}
use mathlib.Core.Bool.{Bool, true, false}
use mathlib.Core.Logic.{inl, inr}
use native.Mathlib.Omega.{arith}
use vtfs.Base.Tests.{if◌then◌else◌, ◌==◌, Bool-cases, ==→eq}

unfoldable pub passes : (ℕ → Bool) → ℕ → Bool
passes test zero = true
passes test (suc top) = if test top then passes test top else false

pub passes_lem : (test : ℕ → Bool) (top k : ℕ) → k < top → passes test top ≡ true → test k ≡ true
unfolding passes
passes_lem test zero k below h = absurd (omega arith)
passes_lem test (suc top) k below h =
    let here : test top ≡ true = ground arith in
    elim (Bool-cases (k == top)) [
      | inl same ↦ ap test (==→eq k top same) ∙ here
      | inr other ↦ passes_lem test top k (ground arith) (ground arith)
    ]
