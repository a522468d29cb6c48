-- ===== src/Scan/Texts.antt =====
-- The comparison of two texts, as `==` of Go strings compares them.
use go_jsonfast.Base.{true, [], ◌∷◌, ◌≡◌, ◌↔◌, refl, ap₂, subst, arith, Bytes}
use go_jsonfast.Scan.{bytes_eq}

pub bytes_eq_sound : (s r : Bytes) → bytes_eq s r ≡ true → s ≡ r
unfolding bytes_eq
bytes_eq_sound [] [] h = refl
bytes_eq_sound [] (y ∷ r) h = cc
bytes_eq_sound (x ∷ s) [] h = cc
bytes_eq_sound (x ∷ s) (y ∷ r) h =
    let heads : x ≡ y = ground arith in
    let tails : bytes_eq s r ≡ true = ground arith in ap₂ ◌∷◌ heads (bytes_eq_sound s r tails)

bytes_eq_same : (s : Bytes) → bytes_eq s s ≡ true
unfolding bytes_eq
bytes_eq_same [] = refl
bytes_eq_same (x ∷ s) = rw (bytes_eq_same s) (ground arith)

pub bytes_eq_iff : (s r : Bytes) → (bytes_eq s r ≡ true) ↔ (s ≡ r)
bytes_eq_iff s r = (bytes_eq_sound s r, λ e. subst (λ t. bytes_eq s t ≡ true) e (bytes_eq_same s))
