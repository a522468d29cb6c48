-- ===== src/Walks/Objects/Exact.antt =====
-- IterateObject and IterateDocument against ValidUTF8.
use go_jsonfast.Base.{
  ℕ, zero, suc, Bool, true, false, ◌&&◌, Option, some, none, [], ◌≡◌, ◌⊎◌, refl, sym, subst, arith,
  ◌==◌, ==_iff, inl, inr, Bool-cases, ℤ, pos, negsuc, length, byte_at, Bytes,
}
use go_jsonfast.Swar.Lanes.{AreBytes}
use go_jsonfast.Scan.{skip_ws}
use go_jsonfast.Cursor.Lookups.{skip_ws-twice}
use go_jsonfast.Decode.{stands}
use go_jsonfast.Names.{no_names, OpenObjects}
use go_jsonfast.Walk.{Walker, new_walker, top, valid_utf8, slot_at, slot_of_byte}
use go_jsonfast.Walk.Valid.{valid_utf8_iff, valid_utf8-negative}
use go_jsonfast.Walk.Tokens.{skip_scalar-slot}
use go_jsonfast.Walk.Grammar.{
  Token, after, Value, string, scalar, no_elements, array, no_members, object, last_member,
  more_members,
}
use go_jsonfast.Iterate.{
  ScanStep, step_item, step_end, step_malformed, Failure, malformed, duplicate_name, failed,
  walk_items, close_err, open_container,
}
use go_jsonfast.Walks.Verdict.{Tells}
use go_jsonfast.Walks.Objects.{object_visit, walk_object, iterate_object, iterate_document}
use go_jsonfast.Walks.Objects.Members.{Ends, Ends-past}
use go_jsonfast.Walks.Objects.Loops.{Says, Says-iff, close_err-Says}
use go_jsonfast.Walks.Objects.Heads.{stands-byte, byte-stands}
use go_jsonfast.Walks.Objects.Verdict.{walk_items-Says}

-- ValidUTF8 accepts the text, and it is an object.
abbrev pub valid_object : Bytes → ℤ → Bool
valid_object text max_depth = valid_utf8 text max_depth && stands text (skip_ws text 0) b'{'

Says-Tells {ℓ} : {E : Type ℓ} (v : Bool) (r : Option (Failure E)) → Says (v ≡ true) r → Tells v r
Says-Tells v none h = h
Says-Tells v (some malformed) h = elim (Bool-cases v) [ inl e ↦ absurd (h e) | inr e ↦ e ]
Says-Tells v (some duplicate_name) h = h
Says-Tells v (some (failed e)) h = tt

left : (p q : Bool) → (p && q) ≡ true → p ≡ true
left true q h = refl
left false q h = cc

-- Two bytes do not stand at one place.
two_bytes : {o : Option ℕ} (c d : ℕ) → (c == d) ≡ false → o ≡ some c → o ≡ some d → ⊥
two_bytes c d differ h h' = let same : c ≡ d = cc in cc ((==_iff c d).1 same)

module _ (text : Bytes) (b : AreBytes text) where
  -- What stands behind the brace that opens the text.
  abbrev Inside : ℕ → Type 0
  Inside n =
      (Token text (after text 0) b'}' × (skip_ws text (after text (after text 0)) ≡ length text))
      ⊎ Ends text b n (after text 0)

  brace_slot : (i : ℕ) → byte_at text i ≡ some b'{' → slot_at text i ≡ 8
  unfolding slot_at slot_of_byte
  brace_slot i h = rw (h, slot_at)

  object_inv :
      (n e : ℕ)
      → Token text 0 b'{'
      → Value text n 0 e
      → skip_ws text e ≡ length text
      → (k : ℕ) × (n ≡ suc k) × Inside k
  object_inv n e t (string (t', _)) all = absurd (two_bytes b'"' b'{' refl t' t)
  object_inv n e t (scalar h) all =
      let (slot, further, within) = skip_scalar-slot text (skip_ws text 0) e b h in
      absurd (omega (arith, brace_slot (skip_ws text 0) t, slot))
  object_inv (suc n) e t (no_elements t' t'') all = absurd (two_bytes b'[' b'{' refl t' t)
  object_inv (suc n) e t (array t' es) all = absurd (two_bytes b'[' b'{' refl t' t)
  object_inv (suc n) e t (no_members t' t'') all = (n, refl, inl (t'', all))
  object_inv (suc n) e t (object t' ms) all = (n, refl, inr (e, ms, all))

  valid_object-Inside :
      (n : ℕ) → Token text 0 b'{' → valid_object text (pos (suc n)) ≡ true → Inside n
  valid_object-Inside n t h =
      let (e, v, all) =
        (valid_utf8_iff text (suc n) b).0 (left (valid_utf8 text (pos (suc n))) _ h) in
      let (k, same, inside) = object_inv (suc n) e t v all in
      let same' : k ≡ n = omega (arith, same) in subst Inside same' inside

  Inside-valid_object :
      (n : ℕ) → Token text 0 b'{' → Inside n → valid_object text (pos (suc n)) ≡ true
  Inside-valid_object n t inside =
      rw (byte-stands text (skip_ws text 0) b'{' t)
        (both ((valid_utf8_iff text (suc n) b).1 (by inside)))
    where
      both : {p : Bool} → p ≡ true → (p && true) ≡ true
      both h = rw h

      by : Inside n → (e : ℕ) × Value text (suc n) 0 e × (skip_ws text e ≡ length text)
      by (inl (t', all)) = (_, no_members t t', all)
      by (inr (e, ms, all)) = (e, object t ms, all)

  no_brace :
      (n : ℕ) → stands text (skip_ws text 0) b'{' ≡ false → valid_object text (pos n) ≡ true → ⊥
  no_brace n h h' = right (valid_utf8 text (pos n)) h h'
    where
      right : {q : Bool} (p : Bool) → q ≡ false → (p && q) ≡ true → ⊥
      right true h h' = cc
      right false h h' = cc

  module _ {ℓ} {S E : Type ℓ} (n : ℕ) (around : OpenObjects) (fn : S → Bytes → Bytes → S × Option E)
      (s : S) where
    abbrev w : Walker
    w = new_walker text (pos n)

    abbrev result : ScanStep → Option (Failure E)
    result step =
        (walk_items (suc (suc (length text))) text b'}' (object_visit text w fn) (close_err text)
          (s, no_names, around) step).1

    abbrev first : ℕ
    first = skip_ws text (after text 0)

    -- An object with no member.
    empty-Says : Token text (after text 0) b'}' → Says (Inside n) (result (step_end first))
    unfolding walk_items
    empty-Says t = Says-iff _ (λ all. inl (t, all)) closed (close_err-Says text E (after text 0))
      where
        closed : Inside n → skip_ws text (after text (after text 0)) ≡ length text
        closed (inl (_, all)) = all
        closed (inr (e, last_member (t', _) _ _ _, all)) = absurd (two_bytes b'"' b'}' refl t' t)
        closed (inr (e, more_members (t', _) _ _ _ _, all)) = absurd (two_bytes b'"' b'}' refl t' t)

    -- An object with members.
    members-Says : stands text first b'}' ≡ false → Says (Inside n) (result (step_item first))
    unfolding new_walker top
    members-Says more =
        let twice = skip_ws-twice text (after text 0) in
        Says-iff _ (λ ends. inr (Ends-past text b n first (after text 0) twice ends)) behind
          (walk_items-Says text b n w refl refl fn (suc (suc (length text))) (s, no_names, around)
            first twice (omega arith))
      where
        behind : Inside n → Ends text b n first
        behind (inl (t, _)) = cc (byte-stands text first b'}' t)
        behind (inr ends) =
            Ends-past text b n (after text 0) first (sym (skip_ws-twice text (after text 0))) ends

    malformed-result : result step_malformed ≡ some malformed
    unfolding walk_items close_err
    malformed-result = refl

    walk_object-Says :
        Says (valid_object text (pos (suc n)) ≡ true) (walk_object text (pos (suc n)) around fn s).1
    unfolding walk_object
    walk_object-Says = elim (Bool-cases (stands text (skip_ws text 0) b'{')) [
      | inr gone ↦
          let out : open_container text 0 b'{' ≡ step_malformed =
            unfold open_container in rw (gone, open_container) in
          subst (λ st. Says (valid_object text (pos (suc n)) ≡ true) (result st)) (sym out)
            (subst (Says (valid_object text (pos (suc n)) ≡ true)) (sym malformed-result)
              (no_brace (suc n) gone))
      | inl brace ↦
          let t = stands-byte text (skip_ws text 0) b'{' brace in
          elim (Bool-cases (stands text first b'}')) [
            | inl closes ↦
                let out : open_container text 0 b'{' ≡ step_end first =
                  unfold open_container in rw (brace, open_container) (rw closes) in
                subst (λ st. Says (valid_object text (pos (suc n)) ≡ true) (result st)) (sym out)
                  (Says-iff _ (Inside-valid_object n t) (valid_object-Inside n t)
                    (empty-Says (stands-byte text first b'}' closes)))
            | inr more ↦
                let out : open_container text 0 b'{' ≡ step_item first =
                  unfold open_container in rw (brace, open_container) (rw more) in
                subst (λ st. Says (valid_object text (pos (suc n)) ≡ true) (result st)) (sym out)
                  (Says-iff _ (Inside-valid_object n t) (valid_object-Inside n t)
                    (members-Says more))
          ]
    ]

-- A bound below one leaves no object.
no_depth : (text : Bytes) → AreBytes text → valid_object text (pos 0) ≡ false
no_depth text b = elim (Bool-cases (valid_object text (pos 0))) [
  | inr e ↦ e
  | inl h ↦ elim (Bool-cases (stands text (skip_ws text 0) b'{')) [
    | inr gone ↦ absurd (no_brace text b 0 gone h)
    | inl brace ↦
        let t = stands-byte text (skip_ws text 0) b'{' brace in
        let (e, v, all) = (valid_utf8_iff text 0 b).0 (left (valid_utf8 text (pos 0)) _ h) in
        let (k, same, inside) = object_inv text b 0 e t v all in absurd (omega (arith, same))
  ]
]

walk_object-Tells {ℓ} :
    {S E : Type ℓ} (text : Bytes) (max_depth : ℤ) (around : OpenObjects)
    (fn : S → Bytes → Bytes → S × Option E) (s : S)
    → AreBytes text
    → Tells (valid_object text max_depth) (walk_object text max_depth around fn s).1
walk_object-Tells text (pos (suc n)) around fn s b =
    Says-Tells (valid_object text (pos (suc n))) _ (walk_object-Says text b n around fn s)
walk_object-Tells text (pos zero) around fn s b = unfold walk_object in no_depth text b
walk_object-Tells text (negsuc n) around fn s b =
    unfold walk_object in rw (valid_utf8-negative text n)

-- IterateObject and IterateDocument give ErrMalformed only for a text of bytes that is no object
-- or that ValidUTF8 refuses under the same bound, and no error or ErrDuplicateName only for an
-- object that it accepts, although they scan the members themselves and let the walker check only
-- the values; an error of the function tells nothing of the text.
pub iterate_object-Tells {ℓ} :
    {S E : Type ℓ} (text : Bytes) (max_depth : ℤ) (fn : S → Bytes → Bytes → S × Option E) (s : S)
    → AreBytes text
    → Tells (valid_object text max_depth) (iterate_object text max_depth fn s).1
      × Tells (valid_object text max_depth) (iterate_document text max_depth fn s).1
unfolding iterate_object iterate_document
iterate_object-Tells text max_depth fn s b = (
  walk_object-Tells text max_depth none fn s b,
  walk_object-Tells text max_depth (some []) fn s b,
)
