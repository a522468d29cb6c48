-- ===== src/Walks/Objects/Heads.antt =====
-- What memberName and skipName read of a member, and the value behind it.
use go_jsonfast.Base.{
  ℕ, true, false, some, none, ◌≡◌, refl, ap, sym, subst, ◌∙◌, ==_iff, inl, inr, Bool-cases,
  Option-cases, byte_at, Bytes,
}
use go_jsonfast.Swar.Lanes.{AreBytes}
use go_jsonfast.Scan.{skip_ws}
use go_jsonfast.Strings.{strict_end, utf8_body}
use go_jsonfast.Decode.{stands, token_at, strict_token}
use go_jsonfast.Decode.Ends.{strict_token-strict_end}
use go_jsonfast.Walk.Grammar.{Token, after, IsString}
use go_jsonfast.Iterate.{colon_after, skip_name, member_name, Member}
use go_jsonfast.Walks.Objects.Members.{MemberAt}

pub stands-byte : (text : Bytes) (i c : ℕ) → stands text i c ≡ true → byte_at text i ≡ some c
stands-byte text i c h = elim (Option-cases (byte_at text i)) [
  | inl e ↦ cc (rw (e, stands) at h)
  | inr (d, e) ↦ e ∙ ap some ((==_iff d c).0 (rw (e, stands) at h))
]

pub byte-stands : (text : Bytes) (i c : ℕ) → byte_at text i ≡ some c → stands text i c ≡ true
byte-stands text i c e = rw (e, stands) ((==_iff c c).1 refl)

module _ (text : Bytes) (a : ℕ) where
  -- The colon behind a name, and the start of the value.
  data Colon : Type 0 where
    no_colon : colon_after text a ≡ none → (Token text a b':' → ⊥) → Colon
    colon :
        (m : Member)
        → colon_after text a ≡ some m
        → m.value_start ≡ skip_ws text (after text a)
        → Token text a b':'
        → Colon

  colon_after-Colon : Colon
  unfolding colon_after
  colon_after-Colon = elim (Bool-cases (stands text (skip_ws text a) b':')) [
    | inl there ↦
        colon (record { name_end = a; value_start = skip_ws text (after text a); value_end = 0 })
          (rw (there, colon_after)) refl (stands-byte text (skip_ws text a) b':' there)
    | inr gone ↦
        no_colon (rw (gone, colon_after)) (λ t. cc (byte-stands text (skip_ws text a) b':' t))
  ]

module _ (text : Bytes) (b : AreBytes text) (n i : ℕ) (fixed : skip_ws text i ≡ i) where
  -- The name and the colon of a member, read by either function.
  pub data Head : Type 0 where
    no_head :
        member_name text i utf8_body ≡ none
        → skip_name text i ≡ none
        → ((e : ℕ) → MemberAt text b n i e → ⊥)
        → Head
    head :
        (a : ℕ) (name : Bytes) (m : Member)
        → member_name text i utf8_body ≡ some (name, m)
        → skip_name text i ≡ some m
        → m.value_start ≡ skip_ws text (after text a)
        → IsString text i a
        → Token text a b':'
        → Head

  no_quote : stands text i b'"' ≡ false → Head
  unfolding member_name skip_name token_at
  no_quote h =
      no_head (rw (h, member_name)) (rw (h, skip_name))
        (λ e m. cc (byte-stands text i b'"' (subst (λ z. byte_at text z ≡ some b'"') fixed m.1.0)))

  no_string :
      stands text i b'"' ≡ true → strict_end text i ≡ none → strict_token text i ≡ none → Head
  unfolding member_name skip_name strict_token
  no_string h h' h'' =
      no_head (rw (h'', member_name)) (rw (h, skip_name) (rw h'))
        (λ e m. cc (subst (λ z. strict_end text z ≡ some m.0) fixed m.1.1))

  string_there :
      (a : ℕ) (v : Bytes)
      → stands text i b'"' ≡ true
      → strict_end text i ≡ some a
      → strict_token text i ≡ some (v, a)
      → Head
  unfolding member_name skip_name strict_token
  string_there a v h h' h'' = elim (colon_after-Colon text a) [
    | no_colon gone not_there ↦
        no_head (rw (h'', member_name) (rw gone)) (rw (h, skip_name) (rw h' gone)) (λ e m.
          let here = subst (λ z. strict_end text z ≡ some m.0) fixed m.1.1 in
          let same : m.0 ≡ a = cc in not_there (subst (λ z. Token text z b':') same m.2))
    | colon m there start t ↦
        head a v m (rw (h'', member_name) (rw there)) (rw (h, skip_name) (rw h' there)) start
          (
            subst (λ z. byte_at text z ≡ some b'"') (sym fixed) (stands-byte text i b'"' h),
            subst (λ z. strict_end text z ≡ some a) (sym fixed) h',
          )
          t
  ]

  pub member-Head : Head
  member-Head = elim (Bool-cases (stands text i b'"')) [
    | inr gone ↦ no_quote gone
    | inl quote ↦ elim (Option-cases (strict_token text i)) [
      | inr ((v, a), e) ↦
          string_there a v quote ((strict_token-strict_end text i a b quote).0 (v, e)) e
      | inl e ↦ elim (Option-cases (strict_end text i)) [
        | inl e' ↦ no_string quote e' e
        | inr (a, e') ↦ let (v, e'') = (strict_token-strict_end text i a b quote).1 e' in cc
      ]
    ]
  ]
