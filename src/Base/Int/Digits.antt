-- ===== src/Base/Int/Digits.antt =====
-- The rounds that printing a number takes.
use Prim.Native.Nat.{ℕ, zero, suc, ◌+◌, ◌*◌, ◌/◌, ◌<◌}
use Prim.Native.String.{String}
use mathlib.Core.Path.{◌≡◌, refl, ap, ◌∙◌}
use native.Mathlib.Omega.{arith}
use kubeception_operator.Base.Int.{digits, print, format_uint}

-- 10 ^ (n + 1)
abbrev beyond : ℕ → ℕ
beyond zero = 10
beyond (suc n) = 10 * beyond n

digits_stable : (f n : ℕ) → n < beyond f → digits (suc (suc f)) n ≡ digits (suc f) n
unfolding digits
digits_stable zero n h = let single : n / 10 ≡ 0 = omega arith in rw single refl
digits_stable (suc f) n h =
    let shorter : n / 10 < beyond f = omega arith in
    ap (λ (front : String). print (n / 10) front n) (digits_stable f (n / 10) shorter)

no_more : (f : ℕ) → 0 + f ≡ f
no_more f = omega arith

one_more : (more f : ℕ) → suc more + f ≡ suc (more + f)
one_more more f = omega arith

beyond_mono : (more f n : ℕ) → n < beyond f → n < beyond (more + f)
beyond_mono zero f n h = rw (no_more f) h
beyond_mono (suc more) f n h =
    let shorter = beyond_mono more f n h in rw (one_more more f) (omega arith)

digits_more : (more f n : ℕ) → n < beyond f → digits (suc (more + f)) n ≡ digits (suc f) n
digits_more zero f n h = rw (no_more f) refl
digits_more (suc more) f n h =
    rw (one_more more f)
      (digits_stable (more + f) n (beyond_mono more f n h) ∙ digits_more more f n h)

-- More rounds than 20 print the same digits, for any number below 10 ^ 20 and so for any of 64 bits.
format_uint_enough : (more n : ℕ) → n < 100000000000000000000 → digits (more + 20) n ≡ format_uint n
unfolding format_uint
format_uint_enough more n h =
    let rounds : more + 20 ≡ suc (more + 19) = omega arith in rw rounds (digits_more more 19 n h)
