-- ===== src/Walk/Steps.antt =====
-- What a round of the walker does for each kind of entry.
use go_jsonfast.Base.{ℕ, suc, ◌+◌, ◌-◌, some, none, ◌≡◌, arith, if◌then◌else◌, Bytes, bit_and}
use go_jsonfast.Scan.{skip_ws, skip_scalar}
use go_jsonfast.Walk.{
  WalkState, state_code, state_of, entry_at, slot_at, slot_scalar, Walker, step, closed, at_bound,
  take_scalar, take_open, take_close, state_mask,
}
use go_jsonfast.Walk.Kinds.{set_kind}
use go_jsonfast.Walk.Table.{code_mask, scalar_mask, state_of-state_code}

module _ (text : Bytes) (w : Walker) where
  abbrev pub at : ℕ
  at = skip_ws text w.i

  pub step_goto :
      (k : ℕ) (s : WalkState)
      → slot_at text at ≡ k
      → entry_at w.state k ≡ state_code s
      → step text w ≡ some (record w { i = suc at; state = s }, at, k)
  unfolding step
  step_goto k s slot entry =
      let none_left : state_code s - state_code s ≡ 0 = omega arith in
      rw slot (rw entry (rw (code_mask s) (rw none_left (rw (state_of-state_code s)))))

  pub step_scalar :
      (j : ℕ) (s : WalkState)
      → slot_at text at ≡ slot_scalar
      → entry_at w.state slot_scalar ≡ take_scalar + state_code s
      → skip_scalar text at ≡ some j
      → step text w ≡ some (record w { i = j; state = s }, at, slot_scalar)
  unfolding step
  step_scalar j s slot entry scan =
      let work : take_scalar + state_code s - state_code s ≡ take_scalar = omega arith in
      rw slot (
        rw entry (
          rw (scalar_mask s) (
            rw work
              (rw scan (rw slot (rw entry (rw (scalar_mask s) (rw (state_of-state_code s)))))))))

  pub step_no_scalar :
      (s : WalkState)
      → slot_at text at ≡ slot_scalar
      → entry_at w.state slot_scalar ≡ take_scalar + state_code s
      → skip_scalar text at ≡ none
      → step text w ≡ none
  unfolding step
  step_no_scalar s slot entry scan =
      let work : take_scalar + state_code s - state_code s ≡ take_scalar = omega arith in
      rw slot (rw entry (rw (scalar_mask s) (rw work (rw scan))))

  pub step_refused : (k : ℕ) → slot_at text at ≡ k → entry_at w.state k ≡ 0xf0 → step text w ≡ none
  unfolding step
  step_refused k slot entry = rw slot (rw entry)

  pub step_open :
      (k e : ℕ)
      → slot_at text at ≡ k
      → entry_at w.state k ≡ e
      → e - bit_and e state_mask ≡ take_open
      → step text w ≡ (
          if at_bound w.depth w.max_depth
          then none
          else some (
            record w {
              kinds = set_kind w.kinds w.depth (bit_and k 1);
              i = suc at;
              depth = suc w.depth;
              state = state_of (bit_and e state_mask);
            },
            at,
            k,
          ))
  unfolding step
  step_open k e slot entry work = rw slot (rw entry (rw work))

  pub step_close :
      (k : ℕ)
      → slot_at text at ≡ k
      → entry_at w.state k ≡ take_close
      → step text w
        ≡ some (
          record w { i = suc at; depth = w.depth - 1; state = closed w.kinds (w.depth - 1) },
          at,
          k,
        )
  unfolding step
  step_close k slot entry = rw slot (rw entry)
