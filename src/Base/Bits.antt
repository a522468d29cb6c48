-- ===== src/Base/Bits.antt =====
-- Bitwise operations on words that are cut into a low field and the rest, at every width.
use Prim.Native.Nat.{
  ℕ, zero, suc, ◌+◌, ◌-◌, ◌*◌, ◌/◌, ◌%◌, ◌≤◌, ◌<◌, min, max, bit_and, bit_or, bit_xor, digits,
  bitwise, differ, bit_and-bitwise, bit_or-bitwise, bit_xor-bitwise,
}
use mathlib.Core.Path.{◌≡◌, refl, sym, ap, ◌∙◌}
use mathlib.Core.Bool.{Bool, true, false}
use go_jsonfast.Base.Tests.{if◌then◌else◌}
use native.Mathlib.Omega.{arith}

-- The recursion that the native operations stand for does not depend on its count, once that is
-- at least the first number.
module _ (z : ℕ → ℕ) (f : ℕ → ℕ → ℕ) where
  at_zero : (k b : ℕ) → digits z f k 0 b ≡ z b
  at_zero zero b = refl
  at_zero (suc k) b = refl

  more_count : (k spare a b : ℕ) → a ≤ k → digits z f (k + spare) a b ≡ digits z f k a b
  more_count k spare zero b enough = at_zero (k + spare) b ∙ sym (at_zero k b)
  more_count zero spare (suc a) b enough = absurd (omega arith)
  more_count (suc k) spare (suc a) b enough =
      let count : suc k + spare ≡ suc (k + spare) = omega arith in
      ap (λ m. digits z f m (suc a) b) count
      ∙ ap (λ high. high * 2 + f (suc a % 2) (b % 2))
          (more_count k spare (suc a / 2) (b / 2) (omega arith))

  bitwise_digit :
      (a b : ℕ)
      → bitwise z f (suc a) b ≡ bitwise z f (suc a / 2) (b / 2) * 2 + f (suc a % 2) (b % 2)
  bitwise_digit a b =
      let half = suc a / 2 in
      let whole : half + (a - half) ≡ a = omega arith in
      ap (λ k. digits z f k half (b / 2) * 2 + f (suc a % 2) (b % 2)) (sym whole)
      ∙ ap (λ high. high * 2 + f (suc a % 2) (b % 2))
          (more_count half (a - half) half (b / 2) (omega arith))

pub bit_and_digit : (a b : ℕ) → bit_and a b ≡ bit_and (a / 2) (b / 2) * 2 + min (a % 2) (b % 2)
bit_and_digit zero b = simp bit_and-bitwise (omega arith)
bit_and_digit (suc a) b = simp bit_and-bitwise (bitwise_digit (λ y. 0) min a b)

pub bit_or_digit : (a b : ℕ) → bit_or a b ≡ bit_or (a / 2) (b / 2) * 2 + max (a % 2) (b % 2)
bit_or_digit zero b = simp bit_or-bitwise (omega arith)
bit_or_digit (suc a) b = simp bit_or-bitwise (bitwise_digit (λ y. y) max a b)

pub bit_xor_digit : (a b : ℕ) → bit_xor a b ≡ bit_xor (a / 2) (b / 2) * 2 + differ (a % 2) (b % 2)
bit_xor_digit zero b = simp bit_xor-bitwise (omega arith)
bit_xor_digit (suc a) b = simp bit_xor-bitwise (bitwise_digit (λ y. y) differ a b)

-- 2 ^ k by doubling, which arithmetic reads at a variable k.
abbrev pub power_of_two : ℕ → ℕ
power_of_two zero = 1
power_of_two (suc k) = power_of_two k * 2

-- An operation that works digit by digit works on the fields of `k` bits and above.
module _ (op f : ℕ → ℕ → ℕ)
    (digit : (a b : ℕ) → op a b ≡ op (a / 2) (b / 2) * 2 + f (a % 2) (b % 2))
    (nothing : op 0 0 ≡ 0) where
  op_fields :
      (k a b p q : ℕ)
      → a < power_of_two k
      → b < power_of_two k
      → op (a + p * power_of_two k) (b + q * power_of_two k) ≡ op a b + op p q * power_of_two k
  op_fields zero a b p q h l =
      let ea : a ≡ 0 = omega arith in
      let eb : b ≡ 0 = omega arith in
      let ep : 0 + p * 1 ≡ p = omega arith in
      let eq : 0 + q * 1 ≡ q = omega arith in rw (ea, eb) (rw (ep, eq) (rw nothing (omega arith)))
  op_fields (suc k) a b p q h l =
      let m = power_of_two k in
      let ea : (a + p * (m * 2)) / 2 ≡ a / 2 + p * m = omega arith in
      let eb : (b + q * (m * 2)) / 2 ≡ b / 2 + q * m = omega arith in
      let ma : (a + p * (m * 2)) % 2 ≡ a % 2 = omega arith in
      let mb : (b + q * (m * 2)) % 2 ≡ b % 2 = omega arith in
      rw (digit (a + p * (m * 2)) (b + q * (m * 2))) (
        rw (ea, eb, ma, mb)
          (omega (arith, op_fields k (a / 2) (b / 2) p q (omega arith) (omega arith), digit a b)))

  op_bounded :
      ((x y : ℕ) → x < 2 → y < 2 → f x y < 2)
      → (k a b : ℕ) → a < power_of_two k
      → b < power_of_two k
      → op a b < power_of_two k
  op_bounded bit zero a b h l =
      let ea : a ≡ 0 = omega arith in
      let eb : b ≡ 0 = omega arith in rw (ea, eb) (rw nothing (omega arith))
  op_bounded bit (suc k) a b h l = omega (
    arith,
    digit a b,
    op_bounded bit k (a / 2) (b / 2) (omega arith) (omega arith),
    bit (a % 2) (b % 2) (omega arith) (omega arith),
  )

differ_bit : (x y : ℕ) → x < 2 → y < 2 → differ x y < 2
differ_bit zero y h l = l
differ_bit (suc zero) zero h l = omega arith
differ_bit (suc zero) (suc zero) h l = omega arith
differ_bit (suc zero) (suc (suc y)) h l = absurd (omega arith)
differ_bit (suc (suc x)) y h l = absurd (omega arith)

-- A word of lanes: the low byte `a`, and the lanes above it.
pub bit_and_lane :
    (a b p q : ℕ)
    → a < 256
    → b < 256
    → bit_and (a + p * 256) (b + q * 256) ≡ bit_and a b + bit_and p q * 256
bit_and_lane a b p q = op_fields bit_and min bit_and_digit refl 8 a b p q

pub bit_or_lane :
    (a b p q : ℕ)
    → a < 256
    → b < 256
    → bit_or (a + p * 256) (b + q * 256) ≡ bit_or a b + bit_or p q * 256
bit_or_lane a b p q = op_fields bit_or max bit_or_digit refl 8 a b p q

pub bit_xor_lane :
    (a b p q : ℕ)
    → a < 256
    → b < 256
    → bit_xor (a + p * 256) (b + q * 256) ≡ bit_xor a b + bit_xor p q * 256
bit_xor_lane a b p q = op_fields bit_xor differ bit_xor_digit refl 8 a b p q

pub bit_and_byte : (a b : ℕ) → a < 256 → b < 256 → bit_and a b < 256
bit_and_byte = op_bounded bit_and min bit_and_digit refl (λ x y h l. omega arith) 8

pub bit_or_byte : (a b : ℕ) → a < 256 → b < 256 → bit_or a b < 256
bit_or_byte = op_bounded bit_or max bit_or_digit refl (λ x y h l. omega arith) 8

pub bit_xor_byte : (a b : ℕ) → a < 256 → b < 256 → bit_xor a b < 256
bit_xor_byte = op_bounded bit_xor differ bit_xor_digit refl differ_bit 8

-- A test that holds at every number of a small range, which evaluation settles.
module _ (p : ℕ → Bool) where
  unfoldable pub below_all : ℕ → Bool
  below_all zero = true
  below_all (suc n) = if p n then below_all n else false

  pub below_all_at : {x : ℕ} (n : ℕ) → x < n → below_all n ≡ true → p x ≡ true
  unfolding below_all
  below_all_at zero lt h = absurd (omega arith)
  below_all_at {x} (suc n) lt h = ground (arith, below_all_at {x = x} n)
