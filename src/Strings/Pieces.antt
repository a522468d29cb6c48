-- ===== src/Strings/Pieces.antt =====
-- What the string scanners take for an escape is one of the grammar, and back.
use go_jsonfast.Base.{
  ℕ, ◌<◌, true, false, ◌&&◌, some, [], ◌∷◌, ◌++◌, ◌≡◌, ◌≢◌, inl, inr, refl, sym, ap, subst, ◌∙◌,
  arith, ◌==◌, ==_iff, Bool-cases, Option-cases, ℤ, leb_ℤ, length, drop, Bytes,
}
use go_jsonfast.Swar.{body_byte}
use go_jsonfast.Utf8.{rune_error, is_surrogate, decode_pair}
use go_jsonfast.Strings.{
  bad_rune, malformed_rune, unescape_byte, short_escape, hex4, unicode_escape, rune_of_pair,
  rune_of_escape, rune_at, rune_end, ends, on, piece,
}
use go_jsonfast.Strings.Grammar.{IsBody, short, point, pair, lone}

pub unicode_inv :
    (s : Bytes) (h : ℕ)
    → unicode_escape s ≡ some h
    → (x u a b c d : ℕ) × (r : Bytes) × (s ≡ x ∷ u ∷ a ∷ b ∷ c ∷ d ∷ r)
      × (x ≡ b'\\')
      × (u ≡ b'u')
      × (hex4 a b c d ≡ some h)
unfolding unicode_escape
unicode_inv (x ∷ u ∷ a ∷ b ∷ c ∷ d ∷ r) h e = elim (Bool-cases (x == b'\\' && u == b'u')) [
  | inl t ↦ let e' = rw t at e in (x, u, a, b, c, d, r, refl, ground arith, ground arith, e')
  | inr f ↦ cc (rw f at e)
]
unicode_inv _ h e = cc

-- An escape of the grammar at the front of a text.
module _ (Single : Bytes → Type 0) (lowest : ℤ) where
  pub record IsEscape (s : Bytes) (n : ℕ) : Type 0 where
    pub taken : Bytes
    pub rest : Bytes
    pub splits : s ≡ taken ++ rest
    pub size : length taken ≡ n
    pub positive : 0 < n
    pub extends : (v : Bytes) → IsBody Single lowest v → IsBody Single lowest (taken ++ v)

  lone-IsEscape :
      (s : Bytes) (h : ℕ)
      → unicode_escape s ≡ some h
      → is_surrogate h ≡ true
      → leb_ℤ lowest bad_rune ≡ true
      → IsEscape s 6
  lone-IsEscape s h e high keep =
      let (x, u, a, b, c, d, r, split, back, letter, hex) = unicode_inv s h e in
      record {
        taken = x ∷ u ∷ a ∷ b ∷ c ∷ d ∷ [];
        rest = r;
        splits = split;
        size = refl;
        positive = omega arith;
        extends = λ v body. lone back letter hex high keep body;
      }

  paired-IsEscape :
      (s : Bytes) (h l : ℕ)
      → unicode_escape s ≡ some h
      → is_surrogate h ≡ true
      → unicode_escape (drop 6 s) ≡ some l
      → decode_pair h l ≢ rune_error
      → IsEscape s 12
  paired-IsEscape s h l e high next valid =
      let (x, u, a, b, c, d, r, split, back, letter, hex) = unicode_inv s h e in
      let next' = rw split at next in
      let (x', u', a', b', c', d', r', split', back', letter', hex') = unicode_inv r l next' in
      record {
        taken = x ∷ u ∷ a ∷ b ∷ c ∷ d ∷ x' ∷ u' ∷ a' ∷ b' ∷ c' ∷ d' ∷ [];
        rest = r';
        splits = split ∙ ap (λ t. x ∷ u ∷ a ∷ b ∷ c ∷ d ∷ t) split';
        size = refl;
        positive = omega arith;
        extends = λ v body. pair back letter hex high back' letter' hex' valid body;
      }

  point-IsEscape :
      (s : Bytes) (h : ℕ) → unicode_escape s ≡ some h → is_surrogate h ≡ false → IsEscape s 6
  point-IsEscape s h e low =
      let (x, u, a, b, c, d, r, split, back, letter, hex) = unicode_inv s h e in
      record {
        taken = x ∷ u ∷ a ∷ b ∷ c ∷ d ∷ [];
        rest = r;
        splits = split;
        size = refl;
        positive = omega arith;
        extends = λ v body. point back letter hex low body;
      }

  -- The escape of the surrogate `h` at the front of s, and the next one.
  pair-IsEscape :
      (s : Bytes) (h : ℕ) {r : ℤ} {n : ℕ}
      → unicode_escape s ≡ some h
      → is_surrogate h ≡ true
      → rune_of_pair h (unicode_escape (drop 6 s)) ≡ (r, n)
      → leb_ℤ lowest r ≡ true
      → IsEscape s n
  unfolding rune_of_pair
  pair-IsEscape s h {r} {n} e high p keep = elim (Option-cases (unicode_escape (drop 6 s))) [
    | inl none' ↦ alone (rw none' at p)
    | inr (l, next) ↦ elim (Bool-cases (decode_pair h l == rune_error)) [
      | inl error ↦ alone (rw error at (rw next at p))
      | inr valid ↦
          let q = rw valid at (rw next at p) in
          let at : n ≡ 12 = sym (ap (λ t. t.1) q) in
          rw at (
            paired-IsEscape s h l e high next
              (λ bad. cc ((==_iff (decode_pair h l) rune_error).1 bad)))
    ]
  ]
    where
      alone : ◌≡◌ {A = ℤ × ℕ} (bad_rune, 6) (r, n) → IsEscape s n
      alone q =
          let at : n ≡ 6 = sym (ap (λ t. t.1) q) in
          let is : r ≡ bad_rune = sym (ap (λ t. t.0) q) in
          rw at (lone-IsEscape s h e high (rw is at keep))

  rune_end_inv :
      (s : Bytes) {n : ℕ}
      → rune_end s lowest ≡ some n
      → (leb_ℤ lowest (rune_at s).0 ≡ true) × ((rune_at s).1 ≡ n)
  unfolding rune_end
  rune_end_inv s e = ground arith

  -- A rune that the reading keeps, where no unit stands: its text is an escape of the grammar.
  rune-IsEscape :
      (c : ℕ) (s : Bytes)
      → leb_ℤ lowest malformed_rune ≡ false
      → (leb_ℤ lowest bad_rune ≡ true → body_byte c ≡ false)
      → leb_ℤ lowest (rune_at (c ∷ s)).0 ≡ true
      → IsEscape (c ∷ s) (rune_at (c ∷ s)).1
  unfolding rune_at rune_of_escape
  rune-IsEscape c s refuses stop = elim (Bool-cases (c == b'\\')) [
    | inr plain ↦ elim (Bool-cases (body_byte c)) [
      | inl body ↦ rw (plain, body) (λ keep. cc (stop keep))
      | inr other ↦ rw (plain, other) (λ keep. cc)
    ]
    | inl back ↦ elim (Option-cases (unicode_escape (c ∷ s))) [
      | inl none' ↦ rw (back, none') (λ keep. cc)
      | inr (h, e) ↦ elim (Bool-cases (is_surrogate h)) [
        | inl high ↦ rw (back, e, high) (λ keep. pair-IsEscape (c ∷ s) h e high refl keep)
        | inr low ↦ rw (back, e, low) (λ keep. point-IsEscape (c ∷ s) h e low)
      ]
    ]
  ]

  short_inv :
      (s : Bytes)
      → (short_escape s == 0) ≡ false
      → (c d : ℕ) × (r : Bytes) × (s ≡ c ∷ d ∷ r) × (c ≡ b'\\') × (d ≢ b'u') × (unescape_byte d ≢ 0)
  unfolding short_escape
  short_inv (c ∷ d ∷ r) e = (c, d, r, refl, ground arith, ground arith, ground arith)
  short_inv _ e = cc

  -- What the scanners go on behind is an escape of the grammar.
  pub piece-IsEscape :
      (s : Bytes) {n : ℕ}
      → leb_ℤ lowest malformed_rune ≡ false
      → ((c : ℕ) (r : Bytes) → s ≡ c ∷ r → leb_ℤ lowest bad_rune ≡ true → body_byte c ≡ false)
      → piece s lowest ≡ on n
      → IsEscape s n
  unfolding piece
  piece-IsEscape [] refuses stop e = cc
  piece-IsEscape (c ∷ s) {n} refuses stop e = elim (Bool-cases (c == b'"')) [
    | inl quote ↦ cc (rw quote at e)
    | inr other ↦
        let e' = rw other at e in
        elim (Bool-cases (short_escape (c ∷ s) == 0)) [
          | inr escape ↦
              let (x, d, r, split, back, letter, value) = short_inv (c ∷ s) escape in
              let at : 2 ≡ n = cc (rw escape at e') in
              rw (← at) (record {
                taken = x ∷ d ∷ [];
                rest = r;
                splits = split;
                size = refl;
                positive = omega arith;
                extends = λ v body. short back letter value body;
              })
          | inl none' ↦
              let e₂ = rw none' at e' in
              elim (Option-cases (rune_end (c ∷ s) lowest)) [
                | inl f ↦ cc (rw f at e₂)
                | inr (m, k) ↦
                    let at : m ≡ n = cc (rw k at e₂) in
                    let (keep, size) = rune_end_inv (c ∷ s) k in
                    subst (IsEscape (c ∷ s)) (size ∙ at)
                      (rune-IsEscape c s refuses (stop c s refl) keep)
              ]
        ]
  ]

  pub piece-ends : (s : Bytes) → piece s lowest ≡ ends → (r : Bytes) × (s ≡ b'"' ∷ r)
  unfolding piece
  piece-ends [] e = cc
  piece-ends (c ∷ s) e = elim (Bool-cases (c == b'"')) [
    | inl quote ↦ (s, ap (λ x. x ∷ s) ((==_iff c b'"').0 quote))
    | inr other ↦
        let e' = rw other at e in
        elim (Bool-cases (short_escape (c ∷ s) == 0)) [
          | inr escape ↦ cc (rw escape at e')
          | inl none' ↦
              let e₂ = rw none' at e' in
              elim (Option-cases (rune_end (c ∷ s) lowest)) [
                | inl f ↦ cc (rw f at e₂)
                | inr (m, k) ↦ cc (rw k at e₂)
              ]
        ]
  ]

  pub piece_quote : (r : Bytes) → piece (b'"' ∷ r) lowest ≡ ends
  unfolding piece
  piece_quote r = refl
