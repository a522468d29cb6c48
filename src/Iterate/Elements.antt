-- ===== src/Iterate/Elements.antt =====
-- IterateArray and FindElement see the same elements.
use go_jsonfast.Base.{
  ℕ, suc, ◌<◌, true, Option, some, none, List, ◌≡◌, arith, Bytes, inl, inr, Option-cases, ltb,
  ◌>>=◌, length, byte_at, slice,
}
use go_jsonfast.Scan.{skip_ws}
use go_jsonfast.Walk.Tokens.{skip_ws-ge, Token-lt}
use go_jsonfast.Values.{skip_value_at}
use go_jsonfast.Iterate.{ScanStep, open_container}
use go_jsonfast.Iterate.Items.{items}

-- An element and its end.
abbrev pub element_at : Bytes → ℕ → Option (Bytes × ℕ)
element_at text i = elim (skip_value_at text i) [
  | none ↦ none
  | some end ↦ some (slice text i end, end)
]

abbrev pub elements : Bytes → List Bytes × ScanStep
elements text =
    items text b']' (element_at text) (suc (suc (length text))) (open_container text 0 b'[')

pub skip_value_at-lt :
    (text : Bytes) (i : ℕ) {end : ℕ} → skip_value_at text i ≡ some end → i < length text
unfolding skip_value_at
skip_value_at-lt text i h = elim (Option-cases (byte_at text (skip_ws text i))) [
  | inl e ↦ cc (rw (e, skip_value_at) at h)
  | inr (c, e) ↦ omega (arith, skip_ws-ge text i, Token-lt text (skip_ws text i) c e)
]

pub lt-ltb : (a b : ℕ) → a < b → ltb a b ≡ true
lt-ltb a b h = ground arith

-- A value at the index, if there is one.
value_at : Bytes → Option ℕ → Option Bytes
value_at text o = do at ← o; end ← skip_value_at text at; some (slice text at end)
