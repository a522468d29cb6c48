-- ===== src/Swar/Masks.antt =====
-- plainMask and bodyMask of swar.go flag the bytes that are not plain, and those that no string
-- body holds as they are: each is a mask by lanes.
use go_jsonfast.Swar.{
  and_not64, borrow_lanes, plain_byte, plain_mask, body_byte, body_mask, word_limit, swar_lo,
  swar_space, word_size, first_lane, little_endian, run_of,
}
use go_jsonfast.Swar.Lanes.{
  lanes, lane_limit, sub_lanes, sub_lanes-suc, sub64-sub_lanes, and_not_lanes, and_not_lanes-suc,
  borrow_of, borrow_of-suc, lanes-lt, IsLaneMask, AreBytes, little_endian-lt, zeros-IsLaneMask,
  IsLaneMask-zero,
}
use go_jsonfast.Base.{
  ℕ, zero, suc, ◌+◌, ◌-◌, ◌*◌, ◌/◌, ◌%◌, ◌<◌, ◌≡◌, refl, ap₂, Bool, true, false, ◌&&◌, not, arith,
  ltb, ◌==◌, if◌then◌else◌, bit_and, bit_or, bit_xor, ◌∙◌, sym, Bytes, length,
}
use go_jsonfast.Base.Bits.{
  bit_and_lane, bit_or_lane, bit_xor_lane, bit_and_byte, bit_or_byte, bit_xor_byte, below_all,
  below_all_at,
}

-- One lane of (x - 1…1) &^ x with no borrow from below.
abbrev byte_borrow : ℕ → ℕ
byte_borrow a = bit_and ((a + 256 - 1) % 256) (bit_xor a 255)

byte_borrow-lt : (a : ℕ) → a < 256 → byte_borrow a < 256
byte_borrow-lt a h = bit_and_byte _ _ (omega arith) (bit_xor_byte a 255 h (omega arith))

-- The part that the two masks share: the zero bytes of w ^ q…q.
abbrev match_of : Bool → ℕ → ℕ → ℕ → ℕ
match_of borrow n w q = borrow_of borrow n (bit_xor w (lanes n q))

match_of-suc :
    (n c w q : ℕ)
    → c < 256
    → q < 256
    → bit_xor w (lanes n q) < lane_limit n
    → match_of false (suc n) (c + w * 256) q
      ≡ byte_borrow (bit_xor c q) + match_of (ltb (bit_xor c q) 1) n w q * 256
match_of-suc n c w q hc hq hx =
    rw (bit_xor_lane c q w (lanes n q) hc hq)
      (borrow_of-suc n (bit_xor c q) (bit_xor w (lanes n q)) (bit_xor_byte c q hc hq) hx)

bit_xor-lt : (n x y : ℕ) → x < lane_limit n → y < lane_limit n → bit_xor x y < lane_limit n
bit_xor-lt zero x y hx hy =
    let ex : x ≡ 0 = omega arith in let ey : y ≡ 0 = omega arith in rw (ex, ey) (omega arith)
bit_xor-lt (suc n) x y hx hy =
    let ex : x ≡ x % 256 + x / 256 * 256 = omega arith in
    let ey : y ≡ y % 256 + y / 256 * 256 = omega arith in
    let split = ap₂ bit_xor ex ey ∙ bit_xor_lane _ _ _ _ (omega arith) (omega arith) in
    omega (
      arith,
      split,
      bit_xor_byte (x % 256) (y % 256) (omega arith) (omega arith),
      bit_xor-lt n (x / 256) (y / 256) (omega arith) (omega arith),
    )

-- bodyMask over `n` lanes, each of its three subtractions with a borrow from below.
pub body_lanes : Bool → Bool → Bool → ℕ → ℕ → ℕ
body_lanes below quote slash n w =
    bit_and
      (bit_or
        (bit_or (and_not_lanes n (sub_lanes below n w (lanes n b' ')) w) (match_of quote n w b'"'))
        (match_of slash n w b'\\'))
      (lanes n 0x80)

abbrev byte_body : ℕ → ℕ
byte_body c =
    bit_and
      (bit_or
        (bit_or (bit_and ((c + 256 - b' ') % 256) (bit_xor c 255)) (byte_borrow (bit_xor c b'"')))
        (byte_borrow (bit_xor c b'\\')))
      0x80

-- plainMask over `n` lanes.
pub plain_lanes : Bool → Bool → Bool → ℕ → ℕ → ℕ
plain_lanes below quote slash n w =
    bit_and
      (bit_or (bit_or (bit_or (sub_lanes below n w (lanes n b' ')) w) (match_of quote n w b'"'))
        (match_of slash n w b'\\'))
      (lanes n 0x80)

abbrev byte_plain : ℕ → ℕ
byte_plain c =
    bit_and
      (bit_or (bit_or (bit_or ((c + 256 - b' ') % 256) c) (byte_borrow (bit_xor c b'"')))
        (byte_borrow (bit_xor c b'\\')))
      0x80

module _ (n c w : ℕ) (hc : c < 256) (hw : w < lane_limit n) where
  match_quote :
      match_of false (suc n) (c + w * 256) b'"'
      ≡ byte_borrow (bit_xor c b'"') + match_of (ltb (bit_xor c b'"') 1) n w b'"' * 256
  match_quote =
      match_of-suc n c w b'"' hc (omega arith)
        (bit_xor-lt n w (lanes n b'"') hw (lanes-lt n b'"' (omega arith)))

  match_backslash :
      match_of false (suc n) (c + w * 256) b'\\'
      ≡ byte_borrow (bit_xor c b'\\') + match_of (ltb (bit_xor c b'\\') 1) n w b'\\' * 256
  match_backslash =
      match_of-suc n c w b'\\' hc (omega arith)
        (bit_xor-lt n w (lanes n b'\\') hw (lanes-lt n b'\\' (omega arith)))

  below_space :
      sub_lanes false (suc n) (c + w * 256) (lanes (suc n) b' ')
      ≡ (c + 256 - b' ') % 256 + sub_lanes (ltb c b' ') n w (lanes n b' ') * 256
  below_space =
      sub_lanes-suc n c w b' ' (lanes n b' ') hc (omega arith) hw (lanes-lt n b' ' (omega arith))

  quote_lt : byte_borrow (bit_xor c b'"') < 256
  quote_lt = byte_borrow-lt _ (bit_xor_byte c b'"' hc (omega arith))

  backslash_lt : byte_borrow (bit_xor c b'\\') < 256
  backslash_lt = byte_borrow-lt _ (bit_xor_byte c b'\\' hc (omega arith))

  body_lanes-suc :
      body_lanes false false false (suc n) (c + w * 256)
      ≡ byte_body c
        + body_lanes (ltb c b' ') (ltb (bit_xor c b'"') 1) (ltb (bit_xor c b'\\') 1) n w * 256
  unfolding body_lanes
  body_lanes-suc =
      let first =
        bit_and_byte ((c + 256 - b' ') % 256) (bit_xor c 255) (omega arith)
          (bit_xor_byte c 255 hc (omega arith)) in
      let second = bit_or_byte _ _ first quote_lt in
      rw (below_space, match_quote, match_backslash)
        (rw (and_not_lanes-suc n ((c + 256 - b' ') % 256) c _ w (omega arith) hc) (
          rw (bit_or_lane _ _ _ _ first quote_lt) (
            rw (bit_or_lane _ _ _ _ second backslash_lt) (
              bit_and_lane _ 0x80 _ (lanes n 0x80) (bit_or_byte _ _ second backslash_lt)
                (omega arith)))))

  plain_lanes-suc :
      plain_lanes false false false (suc n) (c + w * 256)
      ≡ byte_plain c
        + plain_lanes (ltb c b' ') (ltb (bit_xor c b'"') 1) (ltb (bit_xor c b'\\') 1) n w * 256
  unfolding plain_lanes
  plain_lanes-suc =
      let first = bit_or_byte ((c + 256 - b' ') % 256) c (omega arith) hc in
      let second = bit_or_byte _ _ first quote_lt in
      rw (below_space, match_quote, match_backslash)
        (rw (bit_or_lane ((c + 256 - b' ') % 256) c _ w (omega arith) hc) (
          rw (bit_or_lane _ _ _ _ first quote_lt) (
            rw (bit_or_lane _ _ _ _ second backslash_lt) (
              bit_and_lane _ 0x80 _ (lanes n 0x80) (bit_or_byte _ _ second backslash_lt)
                (omega arith)))))

-- A kept byte flags nothing and borrows nowhere; any other sets exactly the high bit.
abbrev lane_test : (ℕ → Bool) → (ℕ → ℕ) → ℕ → Bool
lane_test keep mask c =
    if keep c
    then mask c == 0
      && not (ltb c b' ')
      && not (ltb (bit_xor c b'"') 1)
      && not (ltb (bit_xor c b'\\') 1)
    else mask c == 0x80

body_table : below_all (lane_test body_byte byte_body) 256 ≡ true
unfolding below_all body_byte
body_table = refl

plain_table : below_all (lane_test plain_byte byte_plain) 256 ≡ true
unfolding below_all plain_byte
plain_table = refl

module _ (keep : ℕ → Bool) (mask : ℕ → ℕ) (table : below_all (lane_test keep mask) 256 ≡ true)
    (c : ℕ) (hc : c < 256) where
  kept_lane :
      keep c ≡ true
      → (mask c ≡ 0)
        × (ltb c b' ' ≡ false)
        × (ltb (bit_xor c b'"') 1 ≡ false)
        × (ltb (bit_xor c b'\\') 1 ≡ false)
  kept_lane k = ground (arith, below_all_at (lane_test keep mask) 256 hc table)

  flagged_lane : keep c ≡ false → mask c ≡ 0x80
  flagged_lane k = ground (arith, below_all_at (lane_test keep mask) 256 hc table)

pub body_lanes-IsLaneMask : IsLaneMask body_byte (body_lanes false false false)
body_lanes-IsLaneMask = record {
  nothing = unfold body_lanes borrow_of sub_lanes and_not_lanes in refl;
  kept = λ n c w hc hw k.
      let (none, below, quote, slash) = kept_lane body_byte byte_body body_table c hc k in
      rw (body_lanes-suc n c w hc hw) (rw (none, below, quote, slash) (omega arith));
  flagged = λ n c w hc hw k. (
    body_lanes (ltb c b' ') (ltb (bit_xor c b'"') 1) (ltb (bit_xor c b'\\') 1) n w,
    rw (body_lanes-suc n c w hc hw) (rw (flagged_lane body_byte byte_body body_table c hc k)),
  );
}

pub plain_lanes-IsLaneMask : IsLaneMask plain_byte (plain_lanes false false false)
plain_lanes-IsLaneMask = record {
  nothing = unfold plain_lanes borrow_of sub_lanes and_not_lanes in refl;
  kept = λ n c w hc hw k.
      let (none, below, quote, slash) = kept_lane plain_byte byte_plain plain_table c hc k in
      rw (plain_lanes-suc n c w hc hw) (rw (none, below, quote, slash) (omega arith));
  flagged = λ n c w hc hw k. (
    plain_lanes (ltb c b' ') (ltb (bit_xor c b'"') 1) (ltb (bit_xor c b'\\') 1) n w,
    rw (plain_lanes-suc n c w hc hw) (rw (flagged_lane plain_byte byte_plain plain_table c hc k)),
  );
}

and_not64-and_not_lanes : (x y : ℕ) → and_not64 x y ≡ and_not_lanes 8 x y
unfolding and_not64 and_not_lanes
and_not64-and_not_lanes x y = refl

borrow_lanes-borrow_of : (x : ℕ) → x < word_limit → borrow_lanes x ≡ borrow_of false 8 x
unfolding borrow_lanes borrow_of
borrow_lanes-borrow_of x h =
    rw (sub64-sub_lanes x swar_lo h (omega arith)) (and_not64-and_not_lanes _ x)

module _ (w : ℕ) (h : w < word_limit) where
  match64 : (q : ℕ) → q < 256 → borrow_lanes (bit_xor w (lanes 8 q)) ≡ match_of false 8 w q
  match64 q hq = borrow_lanes-borrow_of _ (bit_xor-lt 8 w (lanes 8 q) h (lanes-lt 8 q hq))

  -- The masks of swar.go are those over eight lanes.
  pub body_mask-body_lanes : body_mask w ≡ body_lanes false false false 8 w
  unfolding body_mask body_lanes
  body_mask-body_lanes =
      rw (sub64-sub_lanes w swar_space h (omega arith), and_not64-and_not_lanes _ w)
        (rw (match64 b'"' (omega arith), match64 b'\\' (omega arith)))

  pub plain_mask-plain_lanes : plain_mask w ≡ plain_lanes false false false 8 w
  unfolding plain_mask plain_lanes
  plain_mask-plain_lanes =
      rw (sub64-sub_lanes w swar_space h (omega arith))
        (rw (match64 b'"' (omega arith), match64 b'\\' (omega arith)))

-- What a scan by words relies on: over a word of eight bytes, `firstLane` of the mask finds the
-- first byte that is not kept, and 8 when there is none, where the mask is 0.
pub record IsWordMask (keep : ℕ → Bool) (mask : ℕ → ℕ) : Type 0 where
  pub first :
      (s : Bytes)
      → AreBytes s
      → length s ≡ word_size
      → first_lane (mask (little_endian s)) ≡ run_of keep s 0
  pub zero_if_all :
      (s : Bytes)
      → AreBytes s
      → length s ≡ word_size
      → run_of keep s 0 ≡ word_size
      → mask (little_endian s) ≡ 0

IsLaneMask-IsWordMask :
    {keep : ℕ → Bool} {by_lanes : ℕ → ℕ → ℕ} (mask : ℕ → ℕ)
    → IsLaneMask keep by_lanes
    → ((w : ℕ) → w < word_limit → mask w ≡ by_lanes 8 w)
    → IsWordMask keep mask
IsLaneMask-IsWordMask {keep} {by_lanes} mask m e = record {
  first = λ s b l.
      unfold first_lane in
      rw (e (little_endian s) (rw l at (little_endian-lt s b))) (rw l at (zeros-IsLaneMask m s b));
  zero_if_all = λ s b l r.
      rw (e (little_endian s) (rw l at (little_endian-lt s b)))
        (rw l at (IsLaneMask-zero m s b (r ∙ sym l)));
}

pub body_mask-IsWordMask : IsWordMask body_byte body_mask
body_mask-IsWordMask = IsLaneMask-IsWordMask body_mask body_lanes-IsLaneMask body_mask-body_lanes

pub plain_mask-IsWordMask : IsWordMask plain_byte plain_mask
plain_mask-IsWordMask =
    IsLaneMask-IsWordMask plain_mask plain_lanes-IsLaneMask plain_mask-plain_lanes
