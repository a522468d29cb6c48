-- ===== src/Walk/Kinds/Digits.antt =====
-- The binary digits of a word, and the one that kindStack.set writes.
use Prim.Native.Nat.{max}
use native.Mathlib.Nat.{div-div-eq-div-mul, pow-succ'}
use go_jsonfast.Base.{
  ℕ, zero, suc, ◌-◌, ◌/◌, ◌%◌, ◌^◌, ◌<◌, ◌≤◌, min, bit_and, bit_or, bit_xor, Bool, true, false,
  ◌&&◌, ◌≡◌, refl, ap, ap₂, sym, ◌∙◌, arith, ◌==◌, ==_iff, if◌then◌else◌,
}
use go_jsonfast.Base.Bits.{bit_and_digit, bit_or_digit, below_all, below_all_at}
use go_jsonfast.Swar.{word_limit, shift_left64, and_not64}
use go_jsonfast.Walk.Kinds.{put_bit, get_bit}

abbrev pub digit : ℕ → ℕ → ℕ
digit zero w = w % 2
digit (suc c) w = digit c (w / 2)

digit_bounded : (c w : ℕ) → digit c w < 2
digit_bounded zero w = omega arith
digit_bounded (suc c) w = digit_bounded c (w / 2)

digit_and : (c a b : ℕ) → digit c (bit_and a b) ≡ min (digit c a) (digit c b)
digit_and zero a b = omega (arith, bit_and_digit a b)
digit_and (suc c) a b =
    let half : bit_and a b / 2 ≡ bit_and (a / 2) (b / 2) = omega (arith, bit_and_digit a b) in
    ap (digit c) half ∙ digit_and c (a / 2) (b / 2)

digit_or : (c a b : ℕ) → digit c (bit_or a b) ≡ max (digit c a) (digit c b)
digit_or zero a b = omega (arith, bit_or_digit a b)
digit_or (suc c) a b =
    let half : bit_or a b / 2 ≡ bit_or (a / 2) (b / 2) = omega (arith, bit_or_digit a b) in
    ap (digit c) half ∙ digit_or c (a / 2) (b / 2)

nothing_and : (n y : ℕ) → y ≤ n → bit_and y 0 ≡ 0
nothing_and zero y h = let e : y ≡ 0 = omega arith in rw e
nothing_and (suc n) y h = omega (arith, bit_and_digit y 0, nothing_and n (y / 2) (omega arith))

and_one : (x : ℕ) → bit_and x 1 ≡ x % 2
and_one x = omega (arith, bit_and_digit x 1, nothing_and (x / 2) (x / 2) (omega arith))

digit-shift : (c w : ℕ) → digit c w ≡ w / 2 ^ c % 2
digit-shift zero w = omega arith
digit-shift (suc c) w =
    digit-shift c (w / 2)
    ∙ ap (λ x. x % 2) (div-div-eq-div-mul w 2 (2 ^ c) ∙ ap (λ d. w / d) (sym (pow-succ' 2 c)))

pub get_bit-digit : (w c : ℕ) → get_bit w c ≡ digit c w
get_bit-digit w c = and_one (w / 2 ^ c) ∙ sym (digit-shift c w)

-- The masks of a set: all ones but one digit, and one digit.
abbrev hole_test : ℕ → ℕ → Bool
hole_test b c = digit c (bit_xor (shift_left64 1 b) (word_limit - 1)) == (if b == c then 0 else 1)

abbrev kind_test : ℕ → ℕ → ℕ → Bool
kind_test k b c = digit c (shift_left64 k b) == (if b == c then k else 0)

abbrev mask_test : ℕ → ℕ → Bool
mask_test b c = hole_test b c && kind_test 0 b c && kind_test 1 b c

mask_table : below_all (λ b. below_all (mask_test b) 64) 64 ≡ true
unfolding below_all
mask_table = refl

mask_at : (b c : ℕ) → b < 64 → c < 64 → mask_test b c ≡ true
mask_at b c hb hc =
    below_all_at (mask_test b) 64 hc
      (below_all_at (λ b. below_all (mask_test b) 64) 64 hb mask_table)

hole_digit :
    (b c : ℕ)
    → mask_test b c ≡ true
    → digit c (bit_xor (shift_left64 1 b) (word_limit - 1)) ≡ (if b == c then 0 else 1)
hole_digit b c h = (==_iff _ _).0 (first (hole_test b c) (kind_test 0 b c) (kind_test 1 b c) h)
  where
    first : (x y z : Bool) → (x && y && z) ≡ true → x ≡ true
    first true y z h = refl
    first false true z h = cc
    first false false z h = cc

kind_digit :
    (b c k : ℕ)
    → k < 2
    → mask_test b c ≡ true
    → digit c (shift_left64 k b) ≡ (if b == c then k else 0)
kind_digit b c zero l h =
    (==_iff _ _).0 (second (hole_test b c) (kind_test 0 b c) (kind_test 1 b c) h)
  where
    second : (x y z : Bool) → (x && y && z) ≡ true → y ≡ true
    second x true z h = refl
    second true false z h = cc
    second false false z h = cc
kind_digit b c (suc zero) l h =
    (==_iff _ _).0 (third (hole_test b c) (kind_test 0 b c) (kind_test 1 b c) h)
  where
    third : (x y z : Bool) → (x && y && z) ≡ true → z ≡ true
    third x y true h = refl
    third true true false h = cc
    third true false false h = cc
    third false y false h = cc
kind_digit b c (suc (suc k)) l h = absurd (omega arith)

-- Writing a digit sets it and keeps the others of the word.
pub get_bit-put_bit :
    (w b c k : ℕ)
    → b < 64
    → c < 64
    → k < 2
    → get_bit (put_bit w b k) c ≡ (if b == c then k else get_bit w c)
unfolding put_bit and_not64
get_bit-put_bit w b c k hb hc hk =
    let table = mask_at b c hb hc in
    let hole = bit_xor (shift_left64 1 b) (word_limit - 1) in
    get_bit-digit (put_bit w b k) c
    ∙ digit_or c (bit_and w hole) (shift_left64 k b)
    ∙ ap₂ max (digit_and c w hole ∙ ap (min (digit c w)) (hole_digit b c table))
        (kind_digit b c k hk table)
    ∙ parts (b == c)
  where
    parts :
        (t : Bool)
        → max (min (digit c w) (if t then 0 else 1)) (if t then k else 0)
          ≡ (if t then k else get_bit w c)
    parts true = omega arith
    parts false = omega (arith, digit_bounded c w, get_bit-digit w c)
