-- ===== src/Base/Int.antt =====
-- Signed integers (`int32`) over the native numbers, and how Go prints numbers in decimal.
pub mod Digits
use Prim.Native.Nat.{ℕ, zero, suc, ◌+◌, ◌/◌, ◌%◌}
use Prim.Native.String.{String, ◌++◌ as ◌<>◌}

-- `negsuc n` is -(n + 1).
pub data ℤ : Type 0 where
  pos : ℕ → ℤ
  negsuc : ℕ → ℤ

-- The last decimal digit of a number.
unfoldable pub digit : ℕ → String
digit n = elim (n % 10) [
  | zero ↦ "0"
  | suc zero ↦ "1"
  | suc (suc zero) ↦ "2"
  | suc (suc (suc zero)) ↦ "3"
  | suc (suc (suc (suc zero))) ↦ "4"
  | suc (suc (suc (suc (suc zero)))) ↦ "5"
  | suc (suc (suc (suc (suc (suc zero))))) ↦ "6"
  | suc (suc (suc (suc (suc (suc (suc zero)))))) ↦ "7"
  | suc (suc (suc (suc (suc (suc (suc (suc zero))))))) ↦ "8"
  | _ ↦ "9"
]

-- The digits of a number, from the ones before its last.
abbrev pub print : ℕ → String → ℕ → String
print zero front n = digit n
print (suc _) front n = front <> digit n

-- The digits of a number, the first one first. One round of fuel for each digit.
unfoldable pub digits : ℕ → ℕ → String
digits zero n = ""
digits (suc fuel) n = print (n / 10) (digits fuel (n / 10)) n

-- `fmt.Sprintf("%d", n)` of a `uint`; a number below 2 ^ 64 has at most 20 digits.
unfoldable pub format_uint : ℕ → String
unfolding digits digit
format_uint n = digits 20 n

-- `strconv.FormatInt(n, 10)`
unfoldable pub format_int : ℤ → String
unfolding format_uint
format_int (pos n) = format_uint n
format_int (negsuc n) = "-" <> format_uint (n + 1)
