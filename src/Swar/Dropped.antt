-- ===== src/Swar/Dropped.antt =====
-- Parts of a text, as the word scans of swar.go cut it.
use Prim.Native.Nat.add
use go_jsonfast.Swar.Lanes.{AreBytes}
use go_jsonfast.Base.{
  ℕ, zero, suc, ◌+◌, ◌≤◌, ◌≡◌, refl, ap, List, [], ◌∷◌, ◌++◌, arith, Bytes, length, take, drop,
}

pub drop-drop {ℓ} : {A : Type ℓ} (i d : ℕ) (xs : List A) → drop d (drop i xs) ≡ drop (i + d) xs
drop-drop zero d xs = ap (λ n. drop n xs) (omega arith)
drop-drop (suc i) zero [] = rw add.suc
drop-drop (suc i) (suc d) [] = rw add.suc
drop-drop (suc i) d (x ∷ xs) = rw add.suc (drop-drop i d xs)

pub AreBytes-drop : (i : ℕ) (s : Bytes) → AreBytes s → AreBytes (drop i s)
AreBytes-drop zero s h = h
AreBytes-drop (suc i) [] h = h
AreBytes-drop (suc i) (c ∷ s) h = AreBytes-drop i s h.1

pub AreBytes-take : (i : ℕ) (s : Bytes) → AreBytes s → AreBytes (take i s)
AreBytes-take zero s h = tt
AreBytes-take (suc i) [] h = h
AreBytes-take (suc i) (c ∷ s) h = (h.0, AreBytes-take i s h.1)

pub AreBytes-append : (s r : Bytes) → AreBytes s → AreBytes r → AreBytes (s ++ r)
AreBytes-append [] r h k = k
AreBytes-append (c ∷ s) r h k = (h.0, AreBytes-append s r h.1 k)

pub length-take_of_le {ℓ} :
    {A : Type ℓ} (n : ℕ) (xs : List A) → n ≤ length xs → length (take n xs) ≡ n
length-take_of_le zero xs h = refl
length-take_of_le (suc n) [] h = absurd (omega arith)
length-take_of_le (suc n) (x ∷ xs) h = ap suc (length-take_of_le n xs (omega arith))
