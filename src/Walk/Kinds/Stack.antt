-- ===== src/Walk/Kinds/Stack.antt =====
-- kindStack keeps the kinds of the open containers: a kind set at a depth is read there, and those
-- at other depths stay.
use go_jsonfast.Base.{
  ℕ, zero, suc, ◌+◌, ◌-◌, ◌*◌, ◌/◌, ◌%◌, ◌<◌, ◌≤◌, false, List, [], ◌∷◌, ◌++◌, ◌≡◌, ◌≢◌, refl, ap,
  sym, ◌∙◌, arith, ltb, leb, ◌==◌, ==_iff, if◌then◌else◌, inl, inr, Bool-cases, length,
  length-append, get_or, set, get_or-set, get_or-set_other, length-set,
}
use go_jsonfast.Walk.Kinds.{KindStack, put_bit, get_bit, spill, set_kind, get_kind}
use go_jsonfast.Walk.Kinds.Digits.{get_bit-put_bit}

-- The word that a spill adds reads as it did when it was missing.
get_or-grown : (l : List ℕ) (j : ℕ) → get_or (l ++ 0 ∷ []) j 0 ≡ get_or l j 0
get_or-grown [] zero = refl
get_or-grown [] (suc j) = refl
get_or-grown (x ∷ l) zero = refl
get_or-grown (x ∷ l) (suc j) = get_or-grown l j

get_or-spill : (l : List ℕ) (k j : ℕ) → get_or (spill l k) j 0 ≡ get_or l j 0
unfolding spill
get_or-spill l k j = elim (Bool-cases (k == length l)) [
  | inl grows ↦ rw grows (get_or-grown l j)
  | inr stays ↦ rw stays
]

length-spill :
    (l : List ℕ) (k : ℕ) → k ≤ length l → (k < length (spill l k)) × (length l ≤ length (spill l k))
unfolding spill
length-spill l k h = elim (Bool-cases (k == length l)) [
  | inl grows ↦ rw grows (ground (arith, length-append l (0 ∷ [])))
  | inr stays ↦ rw stays (ground arith)
]

-- Writing a digit of one word of several: what is read after it.
written :
    (l : List ℕ) (k b k' b' kind : ℕ)
    → k < length l
    → b < 64
    → b' < 64
    → kind < 2
    → get_bit (get_or (set l k (put_bit (get_or l k 0) b kind)) k' 0) b' ≡ (
        if k == k'
        then (if b == b' then kind else get_bit (get_or l k' 0) b')
        else get_bit (get_or l k' 0) b')
written l k b k' b' kind hk hb hb' hkind = elim (Bool-cases (k == k')) [
  | inl same ↦
      let e : k ≡ k' = (==_iff k k').0 same in
      rw same (
        ap (λ j. get_bit (get_or (set l k (put_bit (get_or l k 0) b kind)) j 0) b') (sym e)
        ∙ ap (λ w. get_bit w b') (get_or-set l k (put_bit (get_or l k 0) b kind) 0 hk)
        ∙ get_bit-put_bit (get_or l k 0) b b' kind hb hb' hkind
        ∙ ap (λ j. if b == b' then kind else get_bit (get_or l j 0) b') e)
  | inr other ↦
      let ne : k ≢ k' = λ e. cc ((==_iff k k').1 e) in
      rw other (ap (λ w. get_bit w b') (get_or-set_other l k k' _ 0 ne))
]

-- Two depths are one when word and digit are.
same_place :
    (d d' kind x : ℕ)
    → (if d / 64 == d' / 64 then (if d % 64 == d' % 64 then kind else x) else x)
      ≡ (if d == d' then kind else x)
same_place d d' kind x = elim (Bool-cases (d == d')) [
  | inl one ↦
      let e = (==_iff d d').0 one in
      rw (
        one,
        (==_iff (d / 64) (d' / 64)).1 (ap (λ n. n / 64) e),
        (==_iff (d % 64) (d' % 64)).1 (ap (λ n. n % 64) e),
      )
  | inr two ↦
      let ne : d ≢ d' = λ e. cc ((==_iff d d').1 e) in
      elim (Bool-cases (d / 64 == d' / 64)) [
        | inr word ↦ rw (two, word)
        | inl word ↦
            let e = (==_iff (d / 64) (d' / 64)).0 word in
            let bit : (d % 64 == d' % 64) ≡ false = ground arith in rw (two, word, bit)
      ]
]

shifted_place :
    (d d' kind x : ℕ)
    → 4 ≤ d / 64
    → 4 ≤ d' / 64
    → (if d / 64 - 4 == d' / 64 - 4 then (if d % 64 == d' % 64 then kind else x) else x)
      ≡ (if d == d' then kind else x)
shifted_place d d' kind x h h' =
    let same : (d / 64 - 4 == d' / 64 - 4) ≡ (d / 64 == d' / 64) = ground arith in
    rw same (same_place d d' kind x)

-- set at a depth at most one word past those held, of a kind below 2 on a stack with its four
-- inline words: get reads that kind at that depth and the former kind at every other, inline and
-- spilled.
pub get_kind-set_kind :
    (s : KindStack) (depth kind d : ℕ)
    → length s.shallow ≡ 4
    → depth / 64 ≤ 4 + length s.deep
    → kind < 2
    → get_kind (set_kind s depth kind) d ≡ (if depth == d then kind else get_kind s d)
unfolding get_kind set_kind
get_kind-set_kind s depth kind d four room small =
    let k = depth / 64 in
    let k' = d / 64 in
    elim (Bool-cases (leb 4 k)) [
      | inr low ↦ elim (Bool-cases (ltb k' 4)) [
        | inl low' ↦
            rw (low, low')
              (written s.shallow k (depth % 64) k' (d % 64) kind (ground arith) (omega arith)
                  (omega arith) small
                ∙ same_place depth d kind _)
        | inr high' ↦ let other : (depth == d) ≡ false = ground arith in rw (low, high', other)
      ]
      | inl high ↦
          let past : 4 ≤ k = ground arith in
          elim (Bool-cases (ltb k' 4)) [
            | inl low' ↦ let other : (depth == d) ≡ false = ground arith in rw (high, low', other)
            | inr high' ↦
                let past' : 4 ≤ k' = ground arith in
                let words = spill s.deep (k - 4) in
                let grown = length-spill s.deep (k - 4) (omega arith) in
                rw (high, high')
                  (written words (k - 4) (depth % 64) (k' - 4) (d % 64) kind grown.0 (omega arith)
                      (omega arith) small
                    ∙ shifted_place depth d kind _ past past'
                    ∙ ap (λ w. if depth == d then kind else get_bit w (d % 64))
                        (get_or-spill s.deep (k - 4) (k' - 4)))
          ]
    ]

-- set keeps the four inline words, and makes room for a depth of one more.
pub set_kind-room :
    (s : KindStack) (depth kind : ℕ)
    → length s.shallow ≡ 4
    → depth / 64 ≤ 4 + length s.deep
    → (length (set_kind s depth kind).shallow ≡ 4)
      × (suc depth ≤ 256 + 64 * length (set_kind s depth kind).deep)
      × (length s.deep ≤ length (set_kind s depth kind).deep)
unfolding set_kind
set_kind-room s depth kind four room = elim (Bool-cases (leb 4 (depth / 64))) [
  | inl high ↦
      let k = depth / 64 - 4 in
      let past : 4 ≤ depth / 64 = ground arith in
      let words = spill s.deep k in
      let grown = length-spill s.deep k (omega arith) in
      let same = length-set words k (put_bit (get_or words k 0) (depth % 64) kind) in
      rw high (four, omega (arith, grown.0), omega (arith, grown.1))
  | inr low ↦
      let few : depth / 64 < 4 = ground arith in
      let same =
        length-set s.shallow (depth / 64)
          (put_bit (get_or s.shallow (depth / 64) 0) (depth % 64) kind) in
      rw low (omega arith, omega arith, omega arith)
]
