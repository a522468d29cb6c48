-- ===== src/Cursor/Lookups.antt =====
-- A lookup by a cursor and its raw value, against FindMember and FindElement of iterate.go.
use go_jsonfast.Base.{
  ℕ, suc, ◌+◌, Bool, [], ◌∷◌, ◌≡◌, sym, ap, ◌∙◌, arith, Bytes, inl, inr, Bool-cases, drop,
}
use go_jsonfast.Swar.{run_of}
use go_jsonfast.Swar.Dropped.{drop-drop}
use go_jsonfast.Scan.{skip_ws, is_space}
use go_jsonfast.Iterate

-- A run from where it ended goes no further.
run_of-twice :
    (keep : ℕ → Bool) (s : Bytes) (j : ℕ)
    → (d : ℕ) × (run_of keep s j ≡ j + d) × (run_of keep (drop d s) (j + d) ≡ j + d)
unfolding run_of
run_of-twice keep [] j = (0, omega arith, omega arith)
run_of-twice keep (c ∷ s) j = elim (Bool-cases (keep c)) [
  | inl on ↦
      let (d, first, again) = run_of-twice keep s (suc j) in
      let at : suc j + d ≡ j + suc d = omega arith in
      (suc d, rw on (first ∙ at), ap (run_of keep (drop d s)) (sym at) ∙ again ∙ at)
  | inr off ↦
      let at : j ≡ j + 0 = omega arith in
      (0, rw off at, ap (run_of keep (c ∷ s)) (sym at) ∙ rw off at)
]

pub skip_ws-twice : (text : Bytes) (i : ℕ) → skip_ws text (skip_ws text i) ≡ skip_ws text i
unfolding skip_ws
skip_ws-twice text i =
    let (d, first, again) = run_of-twice is_space (drop i text) i in
    ap (λ n. run_of is_space (drop n text) n) first
    ∙ ap (λ s. run_of is_space s (i + d)) (sym (drop-drop i d text))
    ∙ again
    ∙ sym first
