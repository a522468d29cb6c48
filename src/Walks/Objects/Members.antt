-- ===== src/Walks/Objects/Members.antt =====
-- The members of an object, one at a time, as the loops of walkObject and restMembers pass them.
use go_jsonfast.Base.{
  ℕ, suc, ◌<◌, some, ◌≡◌, ◌⊎◌, refl, sym, subst, arith, inl, inr, pos, length, byte_at, Bytes,
}
use go_jsonfast.Swar.Lanes.{AreBytes}
use go_jsonfast.Scan.{skip_ws, skip_scalar}
use go_jsonfast.Strings.{strict_end}
use go_jsonfast.Walk.Tokens.{skip_ws-ge, Token-lt, skip_scalar-slot}
use go_jsonfast.Walk.Grammar.{
  Token, after, IsString, Value, Elements, Members, string, scalar, no_elements, array, no_members,
  object, last_element, more_elements, last_member, more_members,
}
use go_jsonfast.Walk.{new_walker, top}
use go_jsonfast.Walk.Valid.{value_end_iff}
use go_jsonfast.Walks.Onward.{strict_end-gt}

module _ (text : Bytes) (b : AreBytes text) where
  Token-forward : (i c : ℕ) → Token text i c → i < after text i
  Token-forward i c t = omega (arith, skip_ws-ge text i)

  IsString-forward : (i j : ℕ) → IsString text i j → i < j
  IsString-forward i j (t, e) =
      omega (arith, skip_ws-ge text i, strict_end-gt text (skip_ws text i) j b e)

  mutual
    pub Value-forward : {n i j : ℕ} → Value text n i j → i < j
    Value-forward {i = i} {j = j} (string s) = IsString-forward i j s
    Value-forward {i = i} {j = j} (scalar e) =
        let (slot, further, within) = skip_scalar-slot text (skip_ws text i) j b e in
        omega (arith, skip_ws-ge text i, further)
    Value-forward {i = i} (no_elements t t') =
        omega (arith, Token-forward i b'[' t, Token-forward (after text i) b']' t')
    Value-forward {i = i} (array t es) = omega (arith, Token-forward i b'[' t, Elements-forward es)
    Value-forward {i = i} (no_members t t') =
        omega (arith, Token-forward i b'{' t, Token-forward (after text i) b'}' t')
    Value-forward {i = i} (object t ms) = omega (arith, Token-forward i b'{' t, Members-forward ms)

    Elements-forward : {n i j : ℕ} → Elements text n i j → i < j
    Elements-forward (last_element {j = j} v t) =
        omega (arith, Value-forward v, Token-forward j b']' t)
    Elements-forward (more_elements {j = j} v t es) =
        omega (arith, Value-forward v, Token-forward j b',' t, Elements-forward es)

    Members-forward : {n i j : ℕ} → Members text n i j → i < j
    Members-forward {i = i} (last_member {a = a} {j = j} s t v t') = omega (
      arith,
      IsString-forward i a s,
      Token-forward a b':' t,
      Value-forward v,
      Token-forward j b'}' t',
    )
    Members-forward {i = i} (more_members {a = a} {j = j} s t v t' ms) = omega (
      arith,
      IsString-forward i a s,
      Token-forward a b':' t,
      Value-forward v,
      Token-forward j b',' t',
      Members-forward ms,
    )

  -- Whitespace before a value or a member is passed or not.
  pub Value-past :
      {n i j : ℕ} (k : ℕ) → skip_ws text i ≡ skip_ws text k → Value text n i j → Value text n k j
  Value-past {j = j} k h (string (t, e)) =
      string
        (subst (λ z. byte_at text z ≡ some b'"') h t, subst (λ z. strict_end text z ≡ some j) h e)
  Value-past {j = j} k h (scalar e) = scalar (subst (λ z. skip_scalar text z ≡ some j) h e)
  Value-past {n = suc n} k h (no_elements t t') =
      subst (λ z. Value text (suc n) k (after text (suc z))) (sym h)
        (no_elements (subst (λ z. byte_at text z ≡ some b'[') h t)
          (subst (λ z. Token text (suc z) b']') h t'))
  Value-past {n = suc n} {j = j} k h (array t es) =
      array (subst (λ z. byte_at text z ≡ some b'[') h t)
        (subst (λ z. Elements text n (suc z) j) h es)
  Value-past {n = suc n} k h (no_members t t') =
      subst (λ z. Value text (suc n) k (after text (suc z))) (sym h)
        (no_members (subst (λ z. byte_at text z ≡ some b'{') h t)
          (subst (λ z. Token text (suc z) b'}') h t'))
  Value-past {n = suc n} {j = j} k h (object t ms) =
      object (subst (λ z. byte_at text z ≡ some b'{') h t)
        (subst (λ z. Members text n (suc z) j) h ms)

  IsString-past :
      (i k j : ℕ) → skip_ws text i ≡ skip_ws text k → IsString text i j → IsString text k j
  IsString-past i k j h (t, e) =
      (subst (λ z. byte_at text z ≡ some b'"') h t, subst (λ z. strict_end text z ≡ some j) h e)

  Members-past :
      {n i j : ℕ} (k : ℕ)
      → skip_ws text i ≡ skip_ws text k
      → Members text n i j
      → Members text n k j
  Members-past {i = i} k h (last_member {a = a} s t v t') =
      last_member (IsString-past i k a h s) t v t'
  Members-past {i = i} k h (more_members {a = a} s t v t' ms) =
      more_members (IsString-past i k a h s) t v t' ms

  module _ (n : ℕ) where
    -- A member from `i` to the end of its value.
    abbrev pub MemberAt : ℕ → ℕ → Type 0
    MemberAt i e = (a : ℕ) × IsString text i a × Token text a b':' × Value text n (after text a) e

    -- Members from `i` to the brace, and whitespace to the end of the text.
    abbrev pub Ends : ℕ → Type 0
    Ends i = (k : ℕ) × Members text n i k × (skip_ws text k ≡ length text)

    -- The same behind a member that ends at `e`.
    abbrev pub Rest : ℕ → Type 0
    Rest e =
        (Token text e b'}' × (skip_ws text (after text e) ≡ length text))
        ⊎ (Token text e b',' × Ends (after text e))

    pub Ends-past : (i k : ℕ) → skip_ws text i ≡ skip_ws text k → Ends i → Ends k
    Ends-past i k h (e, ms, all) = (e, Members-past k h ms, all)

    pub MemberAt-forward : (i e : ℕ) → MemberAt i e → i < e
    MemberAt-forward i e (a, s, t, v) =
        omega (arith, IsString-forward i a s, Token-forward a b':' t, Value-forward v)

    pub MemberAt-inside : (i e : ℕ) → MemberAt i e → i < length text
    MemberAt-inside i e (a, (t, _), _, _) =
        omega (arith, skip_ws-ge text i, Token-lt text (skip_ws text i) b'"' t)

    pub Ends-of_member : (i e : ℕ) → MemberAt i e → Rest e → Ends i
    Ends-of_member i e (a, s, t, v) (inl (t', all)) = (after text e, last_member s t v t', all)
    Ends-of_member i e (a, s, t, v) (inr (t', (k, ms, all))) = (k, more_members s t v t' ms, all)

    pub Ends-member : (i : ℕ) → Ends i → (e : ℕ) × MemberAt i e × Rest e
    Ends-member i (k, last_member {a = a} {j = j} s t v t', all) = (j, (a, s, t, v), inl (t', all))
    Ends-member i (k, more_members {a = a} {j = j} s t v t' ms, all) =
        (j, (a, s, t, v), inr (t', (k, ms, all)))

    Value-same : (i e e' : ℕ) → Value text n i e → Value text n i e' → e ≡ e'
    unfolding new_walker top
    Value-same i e e' v v' =
        let w = new_walker text (pos n) in
        let at = (value_end_iff text w n i e b refl refl).1 v in
        let at' = (value_end_iff text w n i e' b refl refl).1 v' in cc

    pub MemberAt-same : (i e e' : ℕ) → MemberAt i e → MemberAt i e' → e ≡ e'
    MemberAt-same i e e' (a, (q, s), t, v) (a', (q', s'), t', v') =
        let same : a ≡ a' = cc in
        Value-same (after text a) e e' v (subst (λ z. Value text n (after text z) e') (sym same) v')
