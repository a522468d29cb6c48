-- ===== src/Names/Lists.antt =====
-- The lists of a name set: its slots and its names.
use go_jsonfast.Base.{
  ℕ, zero, suc, ◌<◌, true, ◌||◌, List, [], ◌∷◌, ◌++◌, ◌≡◌, ◌≢◌, refl, arith, ◌==◌, inl, inr,
  if◌then◌else◌, Bool-cases, length, get_or, set, Bytes,
}
use go_jsonfast.Scan.{bytes_eq}
use go_jsonfast.Scan.Texts.{bytes_eq_iff}
use go_jsonfast.Names.{has_name}

unfoldable pub count_taken : List ℕ → ℕ
count_taken [] = 0
count_taken (x ∷ l) = if x == 0 then count_taken l else suc (count_taken l)

pub all_taken :
    (l : List ℕ) → ((j : ℕ) → j < length l → get_or l j 0 ≢ 0) → count_taken l ≡ length l
unfolding count_taken
all_taken [] h = refl
all_taken (x ∷ l) h =
    let here = h 0 (omega arith) in
    let rest = all_taken l (λ j lt. h (suc j) (omega arith)) in ground arith

pub count_taken-set :
    (l : List ℕ) (k v : ℕ)
    → k < length l
    → get_or l k 0 ≡ 0
    → v ≢ 0
    → count_taken (set l k v) ≡ suc (count_taken l)
unfolding count_taken
count_taken-set [] k v h z f = absurd (omega arith)
count_taken-set (x ∷ l) zero v h z f = ground arith
count_taken-set (x ∷ l) (suc k) v h z f = ground (arith, count_taken-set l k v (omega arith) z f)

pub get_or-append {ℓ} :
    {A : Type ℓ} (l r : List A) (a : ℕ) (d : A) → a < length l → get_or (l ++ r) a d ≡ get_or l a d
get_or-append [] r a d h = absurd (omega arith)
get_or-append (x ∷ l) r zero d h = refl
get_or-append (x ∷ l) r (suc a) d h = get_or-append l r a d (omega arith)

pub get_or-last {ℓ} : {A : Type ℓ} (l : List A) (x d : A) → get_or (l ++ x ∷ []) (length l) d ≡ x
get_or-last [] x d = refl
get_or-last (y ∷ l) x d = get_or-last l x d

pub has_name_at :
    (x : Bytes) (l : List Bytes)
    → has_name x l ≡ true
    → (a : ℕ) × (a < length l) × (get_or l a [] ≡ x)
unfolding has_name
has_name_at x [] h = cc
has_name_at x (y ∷ l) h = elim (Bool-cases (bytes_eq y x)) [
  | inl same ↦ (0, omega arith, (bytes_eq_iff y x).0 same)
  | inr other ↦ let (a, lt, is) = has_name_at x l (rw other at h) in (suc a, omega arith, is)
]

pub has_name_of :
    (x : Bytes) (l : List Bytes) (a : ℕ) → a < length l → get_or l a [] ≡ x → has_name x l ≡ true
unfolding has_name
has_name_of x [] a h e = absurd (omega arith)
has_name_of x (y ∷ l) zero h e = rw ((bytes_eq_iff y x).1 e)
has_name_of x (y ∷ l) (suc a) h e = let rest = has_name_of x l a (omega arith) e in ground arith

pub has_name-append :
    (y : Bytes) (l r : List Bytes) → has_name y (l ++ r) ≡ has_name y l || has_name y r
unfolding has_name
has_name-append y [] r = refl
has_name-append y (x ∷ l) r =
    let rest = has_name-append y l r in
    elim (Bool-cases (bytes_eq x y)) [ inl same ↦ rw same | inr other ↦ rw other rest ]
