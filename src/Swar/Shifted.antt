-- ===== src/Swar/Shifted.antt =====
-- A shifted last word as plainRun of swar.go loads it: its bytes and zeros.
use native.Mathlib.Nat.{div-div-eq-div-mul, zero-div}
use go_jsonfast.Swar.Dropped.{AreBytes-append, AreBytes-drop}
use go_jsonfast.Swar.{
  word_size, byte_bits, first_lane, little_endian, run_of, shift_right, plain_byte, plain_mask,
}
use go_jsonfast.Swar.Lanes.{AreBytes, lane_limit}
use go_jsonfast.Swar.Masks.{plain_mask-IsWordMask}
use go_jsonfast.Base.{
  ℕ, zero, suc, ◌+◌, ◌*◌, ◌/◌, ◌^◌, ◌≤◌, ◌≡◌, refl, ap, true, [], ◌∷◌, ◌++◌, arith, ◌==◌, ==_iff,
  if◌then◌else◌, ◌∙◌, sym, Bytes, length, drop, length-drop, length-append, replicate,
}
use go_jsonfast.Base.Bits.{below_all, below_all_at}

-- A word shifted right by whole bytes holds the bytes above, and zeros.
little_endian-drop :
    (d : ℕ) (s : Bytes) → AreBytes s → little_endian s / lane_limit d ≡ little_endian (drop d s)
unfolding little_endian
little_endian-drop zero s b = omega arith
little_endian-drop (suc d) [] b = zero-div (lane_limit (suc d))
little_endian-drop (suc d) (c ∷ s) b =
    let x = c + little_endian s * 256 in
    let swap : lane_limit d * 256 ≡ 256 * lane_limit d = omega arith in
    let low : x / 256 ≡ little_endian s = omega arith in
    ap (λ n. x / n) swap
    ∙ sym (div-div-eq-div-mul x 256 (lane_limit d))
    ∙ ap (λ n. n / lane_limit d) low
    ∙ little_endian-drop d s b.1

little_endian-zeros : (s : Bytes) (d : ℕ) → little_endian (s ++ replicate d 0) ≡ little_endian s
unfolding little_endian
little_endian-zeros [] zero = refl
little_endian-zeros [] (suc d) = rw (little_endian-zeros [] d)
little_endian-zeros (c ∷ s) d = rw (little_endian-zeros s d)

shift_right-lanes : (d x : ℕ) → d ≤ 8 → shift_right x (byte_bits * d) ≡ x / lane_limit d
unfolding below_all
shift_right-lanes d x h =
    let table = below_all_at (λ d. 2 ^ (byte_bits * d) == lane_limit d) 9 (omega arith) limits in
    ap (λ n. x / n) ((==_iff _ _).0 table)
  where
    limits : below_all (λ d. 2 ^ (byte_bits * d) == lane_limit d) 9 ≡ true
    limits = refl

run_of_plain-zeros :
    (s : Bytes) (d j : ℕ) → run_of plain_byte (s ++ replicate d 0) j ≡ run_of plain_byte s j
unfolding run_of plain_byte
run_of_plain-zeros [] zero j = refl
run_of_plain-zeros [] (suc d) j = refl
run_of_plain-zeros (c ∷ s) d j =
    ap (λ n. if plain_byte c then n else j) (run_of_plain-zeros s d (suc j))

AreBytes-zeros : (d : ℕ) → AreBytes (replicate d 0)
AreBytes-zeros zero = tt
AreBytes-zeros (suc d) = (omega arith, AreBytes-zeros d)

length-replicate : (d : ℕ) → length (replicate {A = ℕ} d 0) ≡ d
length-replicate zero = refl
length-replicate (suc d) = ap suc (length-replicate d)

-- The tail of the last word, shifted down past the `d` bytes before it.
pub shifted_tail :
    (s : Bytes) (d : ℕ)
    → AreBytes s
    → length s ≡ word_size
    → d ≤ word_size
    → first_lane (plain_mask (shift_right (little_endian s) (byte_bits * d)))
      ≡ run_of plain_byte (drop d s) 0
shifted_tail s d b l h =
    let w = drop d s ++ replicate d 0 in
    let shifted =
      shift_right-lanes d (little_endian s) h
      ∙ little_endian-drop d s b
      ∙ sym (little_endian-zeros (drop d s) d) in
    let full : length w ≡ word_size =
      omega
        (arith, length-append (drop d s) (replicate d 0), length-drop d s, length-replicate d) in
    let bytes =
      AreBytes-append (drop d s) (replicate d 0) (AreBytes-drop d s b) (AreBytes-zeros d) in
    ap (λ n. first_lane (plain_mask n)) shifted
    ∙ plain_mask-IsWordMask.first w bytes full
    ∙ run_of_plain-zeros (drop d s) d 0
