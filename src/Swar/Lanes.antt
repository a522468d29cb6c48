-- ===== src/Swar/Lanes.antt =====
-- Words of any number of lanes: subtraction lane by lane, and where the lowest flag stands.
use go_jsonfast.Swar.{sub64, little_endian, trailing_zeros, run_of, word_limit}
use go_jsonfast.Base.{
  ◌&&◌, ℕ, zero, suc, ◌+◌, ◌-◌, ◌*◌, ◌/◌, ◌%◌, ◌<◌, ◌≡◌, refl, ap, Bool, true, false, [], ◌∷◌, ◌++◌,
  arith, ltb, if◌then◌else◌, Bool-cases, inl, inr, length, Bytes, bit_and, bit_xor, ◌∙◌,
}
use go_jsonfast.Base.Bits.{bit_and_lane, bit_xor_lane, bit_xor_byte}

-- `n` lanes that all hold `c`, and the number past all words of `n` lanes.
abbrev pub lanes : ℕ → ℕ → ℕ
lanes zero c = 0
lanes (suc n) c = c + lanes n c * 256

abbrev pub lane_limit : ℕ → ℕ
lane_limit zero = 1
lane_limit (suc n) = lane_limit n * 256

-- Each element is a byte.
abbrev pub AreBytes : Bytes → Type 0
AreBytes [] = Unit {0}
AreBytes (c ∷ s) = (c < 256) × AreBytes s

abbrev pub are_bytes : Bytes → Bool
are_bytes [] = true
are_bytes (c ∷ s) = ltb c 256 && are_bytes s

and_true : (x y : Bool) → (x && y) ≡ true → (x ≡ true) × (y ≡ true)
and_true true true h = (refl, refl)
and_true true false h = cc
and_true false y h = cc

ltb-true : (c k : ℕ) → ltb c k ≡ true → c < k
ltb-true c k h = ground arith

pub are_bytes_sound : (s : Bytes) → are_bytes s ≡ true → AreBytes s
are_bytes_sound [] h = tt
are_bytes_sound (c ∷ s) h =
    let (a, b) = and_true (ltb c 256) (are_bytes s) h in (ltb-true c 256 a, are_bytes_sound s b)

pub AreBytes-append : (u v : Bytes) → AreBytes u → AreBytes v → AreBytes (u ++ v)
AreBytes-append [] v a b = b
AreBytes-append (c ∷ u) v (a, a') b = (a, AreBytes-append u v a' b)

pub AreBytes-split : (u v : Bytes) → AreBytes (u ++ v) → AreBytes u × AreBytes v
AreBytes-split [] v b = (tt, b)
AreBytes-split (c ∷ u) v (a, b) = let (x, y) = AreBytes-split u v b in ((a, x), y)

pub lanes-lt : (n c : ℕ) → c < 256 → lanes n c < lane_limit n
lanes-lt zero c h = omega arith
lanes-lt (suc n) c h = omega (arith, lanes-lt n c h)

pub little_endian-lt : (s : Bytes) → AreBytes s → little_endian s < lane_limit (length s)
unfolding little_endian
little_endian-lt [] h = omega arith
little_endian-lt (c ∷ s) (b, h) = omega (arith, little_endian-lt s h)

-- w - k in `n` lanes with a borrow from the lane below.
unfoldable pub sub_lanes : Bool → ℕ → ℕ → ℕ → ℕ
sub_lanes borrow n w k =
    let k' = if borrow then suc k else k in if ltb w k' then w + lane_limit n - k' else w - k'

pub sub_lanes-suc :
    (n c w k r : ℕ)
    → c < 256
    → k < 256
    → w < lane_limit n
    → r < lane_limit n
    → sub_lanes false (suc n) (c + w * 256) (k + r * 256)
      ≡ (c + 256 - k) % 256 + sub_lanes (ltb c k) n w r * 256
unfolding sub_lanes
sub_lanes-suc n c w k r hc hk hw hr = ground arith

pub sub64-sub_lanes :
    (x y : ℕ) → x < word_limit → y < word_limit → sub64 x y ≡ sub_lanes false 8 x y
unfolding sub64 sub_lanes
sub64-sub_lanes x y hx hy = ground arith

unfoldable pub and_not_lanes : ℕ → ℕ → ℕ → ℕ
and_not_lanes n x y = bit_and x (bit_xor y (lanes n 255))

pub and_not_lanes-suc :
    (n a b p q : ℕ)
    → a < 256
    → b < 256
    → and_not_lanes (suc n) (a + p * 256) (b + q * 256)
      ≡ bit_and a (bit_xor b 255) + and_not_lanes n p q * 256
unfolding and_not_lanes
and_not_lanes-suc n a b p q ha hb = rw (bit_xor_lane b 255 q (lanes n 255) hb (omega arith)) (
    bit_and_lane a (bit_xor b 255) p (bit_xor q (lanes n 255)) ha
      (bit_xor_byte b 255 hb (omega arith)))

-- (x - 1…1) &^ x, with a borrow from below.
unfoldable pub borrow_of : Bool → ℕ → ℕ → ℕ
unfolding sub_lanes and_not_lanes
borrow_of borrow n x = and_not_lanes n (sub_lanes borrow n x (lanes n 1)) x

pub borrow_of-suc :
    (n a p : ℕ)
    → a < 256
    → p < lane_limit n
    → borrow_of false (suc n) (a + p * 256)
      ≡ bit_and ((a + 256 - 1) % 256) (bit_xor a 255) + borrow_of (ltb a 1) n p * 256
unfolding borrow_of
borrow_of-suc n a p ha hp =
    rw (sub_lanes-suc n a p 1 (lanes n 1) ha (omega arith) hp (lanes-lt n 1 (omega arith))) (
      and_not_lanes-suc n ((a + 256 - 1) % 256) a (sub_lanes (ltb a 1) n p (lanes n 1)) p
        (omega arith) ha)

-- The number of bits in `n` lanes.
abbrev pub lane_bits : ℕ → ℕ
lane_bits zero = 0
lane_bits (suc n) = suc (suc (suc (suc (suc (suc (suc (suc (lane_bits n))))))))

zeros_even : (f x y : ℕ) → x ≡ y * 2 → trailing_zeros (suc f) x ≡ suc (trailing_zeros f y)
unfolding trailing_zeros
zeros_even f x y e =
    let even : x % 2 ≡ 0 = omega arith in let half : x / 2 ≡ y = omega arith in rw (even, half)

zeros_odd : (f x : ℕ) → x % 2 ≡ 1 → trailing_zeros (suc f) x ≡ 0
unfolding trailing_zeros
zeros_odd f x e = rw e

-- A low lane of zeros counts eight.
zeros_lane :
    (n x : ℕ) → trailing_zeros (lane_bits (suc n)) (x * 256) ≡ 8 + trailing_zeros (lane_bits n) x
zeros_lane n x =
    let f = lane_bits n in
    zeros_even _ (x * 256) (x * 128) (omega arith)
    ∙ ap suc (
        zeros_even _ (x * 128) (x * 64) (omega arith)
        ∙ ap suc (
            zeros_even _ (x * 64) (x * 32) (omega arith)
            ∙ ap suc (
                zeros_even _ (x * 32) (x * 16) (omega arith)
                ∙ ap suc (
                    zeros_even _ (x * 16) (x * 8) (omega arith)
                    ∙ ap suc (
                        zeros_even _ (x * 8) (x * 4) (omega arith)
                        ∙ ap suc (
                            zeros_even _ (x * 4) (x * 2) (omega arith)
                            ∙ ap suc (zeros_even f (x * 2) x refl)))))))
    ∙ omega arith

-- A low lane whose high bit alone is set counts seven.
zeros_flag : (n x : ℕ) → trailing_zeros (lane_bits (suc n)) (128 + x * 256) ≡ 7
zeros_flag n x =
    zeros_even _ (128 + x * 256) (64 + x * 128) (omega arith)
    ∙ ap suc (
        zeros_even _ (64 + x * 128) (32 + x * 64) (omega arith)
        ∙ ap suc (
            zeros_even _ (32 + x * 64) (16 + x * 32) (omega arith)
            ∙ ap suc (
                zeros_even _ (16 + x * 32) (8 + x * 16) (omega arith)
                ∙ ap suc (
                    zeros_even _ (8 + x * 16) (4 + x * 8) (omega arith)
                    ∙ ap suc (
                        zeros_even _ (4 + x * 8) (2 + x * 4) (omega arith)
                        ∙ ap suc (
                            zeros_even _ (2 + x * 4) (1 + x * 2) (omega arith)
                            ∙ ap suc (zeros_odd (lane_bits n) (1 + x * 2) (omega arith))))))))

-- A mask that works lane by lane up to the first lane it flags: a byte that `keep` takes leaves a
-- zero lane, and any other the high bit of its lane, whatever stands above.
pub record IsLaneMask (keep : ℕ → Bool) (mask : ℕ → ℕ → ℕ) : Type 0 where
  pub nothing : mask 0 0 ≡ 0
  pub kept :
      (n c w : ℕ)
      → c < 256
      → w < lane_limit n
      → keep c ≡ true
      → mask (suc n) (c + w * 256) ≡ mask n w * 256
  pub flagged :
      (n c w : ℕ)
      → c < 256
      → w < lane_limit n
      → keep c ≡ false
      → (x : ℕ) × (mask (suc n) (c + w * 256) ≡ 128 + x * 256)

run_of-add : (keep : ℕ → Bool) (s : Bytes) (j k : ℕ) → run_of keep s (j + k) ≡ j + run_of keep s k
unfolding run_of
run_of-add keep [] j k = refl
run_of-add keep (c ∷ s) j k = ground (arith, run_of-add keep s j (suc k))

pub run_of-from : (keep : ℕ → Bool) (s : Bytes) (j : ℕ) → run_of keep s j ≡ j + run_of keep s 0
run_of-from keep s j =
    let e : j ≡ j + 0 = omega arith in ap (run_of keep s) e ∙ run_of-add keep s j 0

module _ {keep : ℕ → Bool} {mask : ℕ → ℕ → ℕ} (m : IsLaneMask keep mask) where
  -- The lowest set bit of the mask stands in the first lane that is not kept, and the mask is zero
  -- when there is none.
  pub zeros-IsLaneMask :
      (s : Bytes)
      → AreBytes s
      → trailing_zeros (lane_bits (length s)) (mask (length s) (little_endian s)) / 8
        ≡ run_of keep s 0
  unfolding little_endian run_of
  zeros-IsLaneMask [] h = unfold trailing_zeros in refl
  zeros-IsLaneMask (c ∷ s) (b, h) = elim (Bool-cases (keep c)) [
    | inl k ↦
        rw (k, m.kept (length s) c (little_endian s) b (little_endian-lt s h) k)
          (rw (zeros_lane (length s) (mask (length s) (little_endian s)))
            (omega (arith, zeros-IsLaneMask s h, run_of-from keep s 1)))
    | inr k ↦
        let (x, e) = m.flagged (length s) c (little_endian s) b (little_endian-lt s h) k in
        rw (k, e) (rw (zeros_flag (length s) x))
  ]

  pub IsLaneMask-zero :
      (s : Bytes) → AreBytes s → run_of keep s 0 ≡ length s → mask (length s) (little_endian s) ≡ 0
  unfolding little_endian run_of
  IsLaneMask-zero [] h = λ e. m.nothing
  IsLaneMask-zero (c ∷ s) (b, h) = elim (Bool-cases (keep c)) [
    | inl k ↦
        rw (k, m.kept (length s) c (little_endian s) b (little_endian-lt s h) k)
          (λ e. rw (IsLaneMask-zero s h (omega (arith, run_of-from keep s 1))))
    | inr k ↦ rw k (λ e. absurd (omega arith))
  ]
