-- ===== src/Decode/Resume.antt =====
-- Where matchedPrefix stops, stringEnd may go on.
use go_jsonfast.Base.{
  ℕ, zero, suc, ◌+◌, ◌-◌, ◌<◌, ◌≤◌, ◌∷◌, ◌++◌, ◌≡◌, inl, inr, refl, sym, ap, subst, ◌∙◌, arith,
  Bool-cases, same_option, length, length-append, length-drop, drop, slice, Bytes,
}
use go_jsonfast.Swar.Lanes.{AreBytes}
use go_jsonfast.Swar.Dropped.{drop-drop}
use go_jsonfast.Strings.{clean_run, any_body, string_end}
use go_jsonfast.Strings.Runs.{clean_run-Passes}
use go_jsonfast.Decode.{writes, written, has_prefix, matched_rounds, matched_prefix}
use go_jsonfast.Decode.Content.{Stands, Reads, stood}
use go_jsonfast.Decode.Pieces.{Written-cases, written-StandsAt}
use go_jsonfast.Decode.Forward.{Stands-Wrote}
use go_jsonfast.Decode.Exact.{Units-Reads, peel, at_stop, Found, written_quote}
use go_jsonfast.Decode.Tokens.{any_keeps}
use go_jsonfast.Decode.Bodies.{Reads-IsAnyBody}
use go_jsonfast.Decode.Ends.{string_end-Found}

writes_size : {b c : Bytes} {m n : ℕ} → writes b m ≡ writes c n → m ≡ n
writes_size h = cc

module _ (text : Bytes) (b : AreBytes text) where
  Found-longer :
      {i k e : ℕ} {x : Bytes}
      → i ≤ k
      → Found any_body text k x e
      → (y : Bytes) → Reads any_body (drop i text) y (drop e text)
      → Found any_body text i y e
  Found-longer le f y d = record {
    reads = d;
    further = omega (arith, f.further);
    inside = f.inside;
  }

  -- A string has no end before its closing quote.
  Found-at :
      {k e : ℕ} {x : Bytes} → Reads any_body (drop k text) x (drop e text) → e ≤ length text → k < e
  Found-at {k} {e} d inside =
      let (u, split, body) = Reads-IsAnyBody d in
      omega (
        arith,
        ap length split,
        length-append u (b'"' ∷ drop e text),
        length-drop k text,
        length-drop e text,
      )

  past_run : (i : ℕ) → string_end text i ≡ string_end text (clean_run text i)
  past_run i =
      let k = clean_run text i in
      let p = clean_run-Passes text b i in
      same_option (string_end text i) (string_end text k)
        (λ e h.
          let (x, f) = (string_end-Found text i e b).0 h in
          let (y, split, d) = peel any_body p.units p.splits f.reads in
          (string_end-Found text k e b).1
            (y, record { reads = d; further = Found-at d f.inside; inside = f.inside }))
        (λ e h.
          let (x, f) = (string_end-Found text k e b).0 h in
          (string_end-Found text i e b).1 (
            p.passed ++ x,
            Found-longer (omega (arith, p.end_is)) f (p.passed ++ x) (
                subst (λ t. Reads any_body t (p.passed ++ x) (drop e text)) (sym p.splits)
                  (Units-Reads any_body p.units f.reads)),
          ))

  past_piece :
      (i : ℕ) {c : Bytes} {n : ℕ}
      → written (drop (clean_run text i) text) any_body ≡ writes c n
      → string_end text (clean_run text i) ≡ string_end text (clean_run text i + n)
  past_piece i {c} {n} h =
      let k = clean_run text i in
      let p = clean_run-Passes text b i in
      let at = written-StandsAt any_body (drop k text) refl p.stop h in
      let piece = subst (Stands any_body (drop k text) c) (drop-drop k n text) at.piece in
      same_option (string_end text k) (string_end text (k + n))
        (λ e h'.
          let (x, f) = (string_end-Found text k e b).0 h' in
          elim (at_stop any_body p.stop f.reads) [
            | inl (here, nil) ↦
                cc
                  (sym h ∙ ap (λ s. written s any_body) here ∙ written_quote any_body (drop e text))
            | inr (c', u, z, value, st, d) ↦
                let wrote = Stands-Wrote any_body any_keeps st in
                let w : writes c n ≡ writes c' wrote.size = sym h ∙ wrote.is in
                let size : n ≡ wrote.size = writes_size w in
                let behind : u ≡ drop (k + n) text =
                  sym wrote.behind
                  ∙ ap (λ m. drop m (drop k text)) (sym size)
                  ∙ drop-drop k n text in
                let d' = subst (λ s. Reads any_body s z (drop e text)) behind d in
                (string_end-Found text (k + n) e b).1
                  (z, record { reads = d'; further = Found-at d' f.inside; inside = f.inside })
          ])
        (λ e h'.
          let (x, f) = (string_end-Found text (k + n) e b).0 h' in
          (string_end-Found text k e b).1 (
            c ++ x,
            Found-longer (omega arith) f (c ++ x)
                (stood c (drop (k + n) text) x refl piece f.reads),
          ))

  pub matched_rounds-resume :
      (rounds i : ℕ) (s : Bytes)
      → string_end text i ≡ string_end text (matched_rounds rounds text i s).0
  unfolding matched_rounds
  matched_rounds-resume zero i s = refl
  matched_rounds-resume (suc rounds) i s =
      let k = clean_run text i in
      elim (Bool-cases (has_prefix s (slice text i k))) [
        | inr differs ↦ rw (differs, matched_rounds) (past_run i)
        | inl match ↦ elim (Written-cases (written (drop k text) any_body)) [
          | inl f ↦ rw (match, matched_rounds) (rw f (past_run i))
          | inr (inl f) ↦ rw (match, matched_rounds) (rw f (past_run i))
          | inr (inr (c, n, f)) ↦ elim (Bool-cases (has_prefix (drop (k - i) s) c)) [
            | inr differs ↦
                rw (match, matched_rounds) (rw f (rw differs (past_run i ∙ past_piece i f)))
            | inl match' ↦
                rw (match, matched_rounds)
                  (rw f (
                    rw match' (
                      past_run i
                      ∙ past_piece i f
                      ∙ matched_rounds-resume rounds (k + n) (drop (length c) (drop (k - i) s)))))
          ]
        ]
      ]

  pub matched_prefix-resume :
      (i : ℕ) (s : Bytes) → string_end text i ≡ string_end text (matched_prefix text i s).0
  unfolding matched_prefix
  matched_prefix-resume i s = matched_rounds-resume (suc (length text)) i s
