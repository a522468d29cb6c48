-- ===== src/Swar/Runs.antt =====
-- plainRun and bodyRun of swar.go, which test a word at a time, return what their loops over one
-- byte at a time return.
use go_jsonfast.Swar.Dropped.{drop-drop, AreBytes-drop, AreBytes-take, length-take_of_le}
use go_jsonfast.Swar.Shifted.{shifted_tail}
use go_jsonfast.Swar.{
  word_size, byte_bits, first_lane, little_endian, load64, run_of, shift_right, plain_byte,
  plain_mask, plain_bytes, plain_run, plain_words, plain_last, body_mask, body_bytes, body_run,
  body_words,
}
use go_jsonfast.Swar.Lanes.{AreBytes, run_of-from}
use go_jsonfast.Swar.Masks.{IsWordMask, body_mask-IsWordMask, plain_mask-IsWordMask}
use go_jsonfast.Base.{
  ℕ, zero, suc, ◌+◌, ◌-◌, ◌*◌, ◌≤◌, ◌<◌, ◌≡◌, ◌≢◌, refl, ap, Bool, true, inl, inr, some, [], ◌∷◌,
  ◌++◌, arith, ltb, leb, ◌==◌, ==_iff, Bool-cases, ◌∙◌, sym, Bytes, length, take, drop, get_elem?,
  length-drop, take-append-drop, drop_of_lt, take_of_le,
}

module _ (keep : ℕ → Bool) where
  -- A run that passes `d` bytes is the run from there.
  run_of-drop :
      (s : Bytes) (d j : ℕ) → d ≤ run_of keep s 0 → run_of keep (drop d s) (j + d) ≡ run_of keep s j
  unfolding run_of
  run_of-drop s zero j h = ap (run_of keep s) (omega arith)
  run_of-drop [] (suc d) j h = absurd (omega arith)
  run_of-drop (c ∷ s) (suc d) j h = elim (Bool-cases (keep c)) [
    | inl k ↦
        let on : d ≤ run_of keep s 0 = omega (arith, rw k at h, run_of-from keep s 1) in
        let e : j + suc d ≡ suc j + d = omega arith in rw (k, e) (run_of-drop s d (suc j) on)
    | inr k ↦ absurd (omega (arith, rw k at h))
  ]

  run_of-suc : (s : Bytes) → run_of keep s 1 ≡ suc (run_of keep s 0)
  run_of-suc s = run_of-from keep s 1 ∙ omega arith

  run_of-stop :
      (s r : Bytes) → run_of keep s 0 ≢ length s → run_of keep (s ++ r) 0 ≡ run_of keep s 0
  unfolding run_of
  run_of-stop [] r = λ h. absurd (h refl)
  run_of-stop (c ∷ s) r = elim (Bool-cases (keep c)) [
    | inl k ↦ rw k (λ h.
        run_of-suc (s ++ r)
        ∙ ap suc (run_of-stop s r (λ e. h (run_of-suc s ∙ ap suc e)))
        ∙ sym (run_of-suc s))
    | inr k ↦ rw k (λ h. refl)
  ]

  run_of-all : (s r : Bytes) → run_of keep s 0 ≡ length s → length s ≤ run_of keep (s ++ r) 0
  unfolding run_of
  run_of-all [] r = λ h. omega arith
  run_of-all (c ∷ s) r = elim (Bool-cases (keep c)) [
    | inl k ↦ rw k (λ h. omega (
      arith,
      run_of-from keep s 1,
      run_of-from keep (s ++ r) 1,
      run_of-all s r (omega (arith, run_of-from keep s 1)),
    ))
    | inr k ↦ rw k (λ h. absurd (omega arith))
  ]

  run_of-le : (s : Bytes) (j : ℕ) → run_of keep s j ≤ j + length s
  unfolding run_of
  run_of-le [] j = omega arith
  run_of-le (c ∷ s) j = ground (arith, run_of-le s (suc j))

first_lane_zero : first_lane 0 ≡ word_size
unfolding first_lane
first_lane_zero = refl

-- A scan by words, at a word that starts at `j`.
module _ {keep : ℕ → Bool} {mask : ℕ → ℕ} (m : IsWordMask keep mask) (text : Bytes)
    (b : AreBytes text) (j : ℕ) (fits : j + word_size ≤ length text) where
  window : Bytes
  window = take word_size (drop j text)

  window-length : length window ≡ word_size
  unfolding window
  window-length = length-take_of_le word_size (drop j text) (omega (arith, length-drop j text))

  window_bytes : AreBytes window
  unfolding window
  window_bytes = AreBytes-take word_size (drop j text) (AreBytes-drop j text b)

  window_append : window ++ drop word_size (drop j text) ≡ drop j text
  unfolding window
  window_append = take-append-drop word_size (drop j text)

  load64-window : load64 text j ≡ little_endian window
  unfolding load64 window
  load64-window = refl

  -- A zero mask lets the scan pass the word.
  pub zero_mask : mask (load64 text j) ≡ 0 → word_size ≤ run_of keep (drop j text) 0
  zero_mask z =
      let lane = ap first_lane (sym (ap mask load64-window) ∙ z) ∙ first_lane_zero in
      let none = sym (m.first window window_bytes window-length) ∙ lane in
      omega (
        arith,
        window-length,
        ap (λ s. run_of keep s 0) window_append,
        run_of-all keep window (drop word_size (drop j text)) (none ∙ sym window-length),
      )

  pub zero_mask-run_of :
      mask (load64 text j) ≡ 0
      → (d : ℕ) → d ≤ word_size
      → run_of keep (drop (j + d) text) (j + d) ≡ run_of keep (drop j text) j
  zero_mask-run_of z d h =
      rw (← drop-drop j d text) (run_of-drop keep (drop j text) d j (omega (arith, zero_mask z)))

  pub flagged_mask :
      mask (load64 text j) ≢ 0 → run_of keep (drop j text) j ≡ j + first_lane (mask (load64 text j))
  flagged_mask nz =
      let stops : run_of keep window 0 ≢ length window = λ e. nz (
        ap mask load64-window
        ∙ m.zero_if_all window window_bytes window-length (e ∙ window-length)) in
      omega (
        arith,
        run_of-from keep (drop j text) j,
        ap (λ s. run_of keep s 0) window_append,
        run_of-stop keep window (drop word_size (drop j text)) stops,
        m.first window window_bytes window-length,
        ap (λ w. first_lane (mask w)) load64-window,
      )

body_words-body_bytes :
    (text : Bytes) → AreBytes text → (rounds j : ℕ) → body_words rounds text j ≡ body_bytes text j
unfolding body_words
body_words-body_bytes text b zero j = refl
body_words-body_bytes text b (suc rounds) j =
    elim (Bool-cases (leb (j + word_size) (length text))) [
      | inl fits ↦
          let le : j + word_size ≤ length text = ground arith in
          let w = body_mask-IsWordMask in
          elim (Bool-cases (body_mask (load64 text j) == 0)) [
            | inl z ↦
                let e = (==_iff (body_mask (load64 text j)) 0).0 z in
                rw (fits, z)
                  (body_words-body_bytes text b rounds (j + word_size)
                    ∙ unfold body_bytes in zero_mask-run_of w text b j le e word_size (omega arith))
            | inr nz ↦
                rw (fits, nz)
                  (unfold body_bytes in
                    sym (
                      flagged_mask w text b j le
                        (λ e. cc ((==_iff (body_mask (load64 text j)) 0).1 e))))
          ]
      | inr ends ↦ rw ends
    ]

-- bodyRun, a word at a time, is bodyBytes on a text of bytes.
pub body_run-body_bytes :
    (text : Bytes) (j : ℕ) → AreBytes text → body_run text j ≡ body_bytes text j
unfolding body_run
body_run-body_bytes text j b = body_words-body_bytes text b (length text) j

-- The byte before `j`, if there is one, is plain.
abbrev pub FollowsPlain : Bytes → ℕ → Type 0
FollowsPlain text j = (i c : ℕ) → suc i ≡ j → get_elem? text i ≡ some c → plain_byte c ≡ true

module _ (text : Bytes) (b : AreBytes text) (last : ℕ) (word : last + word_size ≡ length text) where
  passes :
      (j : ℕ)
      → j + word_size ≤ length text
      → plain_mask (load64 text j) ≡ 0
      → (d : ℕ) → d ≤ word_size
      → plain_bytes text (j + d) ≡ plain_bytes text j
  unfolding plain_bytes
  passes j le e = zero_mask-run_of plain_mask-IsWordMask text b j le e

  plain_last-plain_bytes : plain_last text last ≡ plain_bytes text last
  unfolding plain_last
  plain_last-plain_bytes =
      let w = plain_mask-IsWordMask in
      let le : last + word_size ≤ length text = omega arith in
      elim (Bool-cases (plain_mask (load64 text last) == 0)) [
        | inl z ↦
            let e = (==_iff (plain_mask (load64 text last)) 0).0 z in
            rw z (
              unfold plain_bytes in
              omega (
                arith,
                zero_mask w text b last le e,
                run_of-le plain_byte (drop last text) last,
                run_of-from plain_byte (drop last text) last,
                length-drop last text,
              ))
        | inr nz ↦ rw nz (
            unfold plain_bytes in
            sym (
              flagged_mask w text b last le
                (λ e. cc ((==_iff (plain_mask (load64 text last)) 0).1 e))))
      ]

  from_last :
      (j : ℕ)
      → last ≤ j
      → (last < j → plain_bytes text last ≡ plain_bytes text j)
      → plain_last text last ≡ plain_bytes text j
  from_last j le before = elim (Bool-cases (ltb last j)) [
    | inl lt ↦ plain_last-plain_bytes ∙ before (ground arith)
    | inr ge ↦ plain_last-plain_bytes ∙ ap (plain_bytes text) (ground arith)
  ]

  -- Between two words the scan stands at `j`, past the last word only if all before `j` is plain.
  plain_words-plain_bytes :
      (rounds j : ℕ)
      → last ≤ j + rounds
      → (last < j → plain_bytes text last ≡ plain_bytes text j)
      → plain_words rounds text last j ≡ plain_bytes text j
  unfolding plain_words
  plain_words-plain_bytes zero j enough before = from_last j (omega arith) before
  plain_words-plain_bytes (suc rounds) j enough before =
      let w = plain_mask-IsWordMask in
      elim (Bool-cases (ltb j last)) [
        | inl more ↦
            let lt : j < last = ground arith in
            let le : j + word_size ≤ length text = omega arith in
            elim (Bool-cases (plain_mask (load64 text j) == 0)) [
              | inl z ↦
                  let e = (==_iff (plain_mask (load64 text j)) 0).0 z in
                  let on = passes j le e in
                  let at : last < j + word_size → plain_bytes text last ≡ plain_bytes text j =
                    λ h. ap (plain_bytes text) (omega arith) ∙ on (last - j) (omega arith) in
                  let next = on word_size (omega arith) in
                  rw (more, z)
                    (plain_words-plain_bytes rounds (j + word_size) (omega arith)
                        (λ h. at h ∙ sym next)
                      ∙ next)
              | inr nz ↦
                  rw (more, nz)
                    (unfold plain_bytes in
                      sym (
                        flagged_mask w text b j le
                          (λ e. cc ((==_iff (plain_mask (load64 text j)) 0).1 e))))
            ]
        | inr ends ↦ rw ends (from_last j (ground arith) before)
      ]

module _ (text : Bytes) (b : AreBytes text) (last : ℕ) (word : last + word_size ≡ length text) where
  tail_full : length (drop last text) ≡ word_size
  tail_full = omega (arith, length-drop last text)

  load64-tail : load64 (drop last text) 0 ≡ little_endian (drop last text)
  unfolding load64
  load64-tail = ap little_endian (take_of_le word_size (drop last text) (omega (arith, tail_full)))

  tail_run :
      (j : ℕ)
      → last ≤ j
      → j ≤ length text
      → j
          + first_lane
              (plain_mask (shift_right (load64 (drop last text) 0) (byte_bits * (j - last))))
        ≡ plain_bytes text j
  unfolding plain_bytes
  tail_run j le h =
      let s = drop last text in
      let shifted = shifted_tail s (j - last) (AreBytes-drop last text b) tail_full (omega arith) in
      let at : drop (j - last) s ≡ drop j text =
        drop-drop last (j - last) text ∙ ap (λ n. drop n text) (omega arith) in
      rw load64-tail (
        omega (
          arith,
          shifted,
          ap (λ r. run_of plain_byte r 0) at,
          run_of-from plain_byte (drop j text) j,
        ))

  after_plain : FollowsPlain text (suc last) → plain_bytes text last ≡ plain_bytes text (suc last)
  unfolding plain_bytes run_of
  after_plain follows =
      let (c, at, e) = drop_of_lt last text (omega arith) in rw e (rw (follows last c refl at))

-- plainRun, a word at a time and with a shifted last word, is plainBytes wherever it is called:
-- at the start of a text of bytes or behind a plain byte, at most at its end.
pub plain_run-plain_bytes :
    (text : Bytes) (j : ℕ)
    → AreBytes text
    → j ≤ length text
    → FollowsPlain text j
    → plain_run text j ≡ plain_bytes text j
unfolding plain_run
plain_run-plain_bytes text j b h follows =
    let last = length text - word_size in
    elim (Bool-cases (ltb (length text) word_size)) [
      | inl short ↦ rw short
      | inr long ↦
          let word : last + word_size ≡ length text = ground arith in
          elim (Bool-cases (ltb (last + 1) j)) [
            | inl far ↦ rw (long, far) (tail_run text b last word j (ground arith) h)
            | inr near ↦
                let bound : j ≤ last + 1 = ground arith in
                let before : last < j → plain_bytes text last ≡ plain_bytes text j = λ lt.
                  let e : suc last ≡ j = omega arith in
                  after_plain text b last word (rw e follows) ∙ ap (plain_bytes text) e in
                rw (long, near)
                  (plain_words-plain_bytes text b last word (length text) j (omega arith) before)
          ]
    ]
