-- ===== src/Walk/Outcome.antt =====
-- A round of the walker by its table and its stack of bits is one step on the open containers.
use go_jsonfast.Base.{
  ℕ, suc, ◌+◌, ◌-◌, ◌<◌, false, some, none, List, [], ◌∷◌, ◌≡◌, ◌≢◌, ◌⊎◌, refl, ap, sym, subst, ◌∙◌,
  arith, leb, inl, inr, Bool-cases, Option-cases, ℤ, length, get_or, Bytes, bit_and,
}
use go_jsonfast.Swar.Lanes.{AreBytes}
use go_jsonfast.Scan.{skip_ws, skip_scalar}
use go_jsonfast.Walk.{
  WalkState, walk_array_first, walk_object_first, walk_colon, walk_member_value, walk_array_value,
  walk_name, state_code, state_of, entry_at, slot_at, slot_quote, slot_scalar, slot_end, slot_bytes,
  Walker, step, closed, at_bound, stops_at, stop_string,
}
use go_jsonfast.Walk.Kinds.{KindStack}
use go_jsonfast.Walk.Grammar.{Token, IsString}
use go_jsonfast.Walk.Moves.{
  Container, in_array, in_object, AllowsValue, after_value, no_element, behind_element, no_member,
  behind_member, around, Fits, Move, take_scalar, take_string, take_name, take_colon, next_element,
  next_member, open_array, open_object, close_array, close_object,
}
use go_jsonfast.Walk.Table.{
  Rule, string_rule, name_rule, colon_rule, element_rule, member_rule, scalar_rule, open_array_rule,
  open_object_rule, close_array_rule, close_object_rule, refused, entry_at-Rule,
}
use go_jsonfast.Walk.Tokens.{slot_at-lt, slot_at-byte, skip_scalar-slot, skip_ws-ge}
use go_jsonfast.Walk.Steps.{step_no_scalar, step_refused}
use go_jsonfast.Walk.Taken.{Taken, went, scanned, closed_by, too_deep, opened}
use go_jsonfast.Walk.Invariant.{kind_bit, Holds}

module _ (text : Bytes) (bound : ℕ) (w : Walker) (o : List Container) where
  -- What a round does that is no fault: it stops at a string, or it is one step.
  pub data Outcome : Walker → ℕ → Type 0 where
    at_string :
        {w' : Walker}
        → Holds bound w' o
        → Token text w.i b'"'
        → w'.i ≡ suc (skip_ws text w.i)
        → ((j : ℕ) → IsString text w.i j → Move text bound o w.state w.i o w'.state j)
        → Outcome w' slot_quote
    moved :
        {w' : Walker} {k : ℕ} (o' : List Container)
        → stops_at stop_string k ≡ false
        → Holds bound w' o'
        → Move text bound o w.state w.i o' w'.state w'.i
        → w.i < w'.i
        → Outcome w' k

  abbrev pub Round : Type 0
  Round =
      (step text w ≡ none)
      ⊎ ((w' : Walker) × (k : ℕ) × (step text w ≡ some (w', skip_ws text w.i, k)) × Outcome w' k)

module _ (text : Bytes) (b : AreBytes text) (bound : ℕ) (m : ℤ) (ks : KindStack) (i d : ℕ) where
  abbrev walker : WalkState → Walker
  walker s = record { max_depth = m; kinds = ks; i = i; depth = d; state = s }

  abbrev here : ℕ
  here = skip_ws text i

  slot_at-Token :
      (k : ℕ)
      → slot_at text here ≡ k
      → k ≢ slot_scalar
      → k ≢ slot_end
      → Token text i (get_or slot_bytes k 0)
  slot_at-Token k e h h' =
      slot_at-byte text here b (λ z. h (sym e ∙ z)) (λ z. h' (sym e ∙ z))
      ∙ ap (λ n. some (get_or slot_bytes n 0)) e

  forward : i < suc here
  forward = omega (arith, skip_ws-ge text i)

  one_step :
      (o o' : List Container) (s s' : WalkState) (j k : ℕ)
      → Taken text bound (walker s) k o' s' j
      → stops_at stop_string k ≡ false
      → Move text bound o s i o' s' j
      → i < j
      → Round text bound (walker s) o
  one_step o o' s s' j k t go one lt =
      let one' = subst (λ st. Move text bound o s i o' st j) (sym t.state_is) one in
      inr (
        t.walker',
        k,
        t.step_is,
        moved o' go t.holds
            (subst (λ n. Move text bound o s i o' t.walker'.state n) (sym t.index_is) one')
            (omega (arith, t.index_is)),
      )

  string_step :
      (o : List Container) (s s' : WalkState)
      → Taken text bound (walker s) slot_quote o s' (suc here)
      → Token text i b'"'
      → ((j : ℕ) → IsString text i j → Move text bound o s i o s' j)
      → Round text bound (walker s) o
  string_step o s s' t token one = inr (
    t.walker',
    slot_quote,
    t.step_is,
    at_string t.holds token t.index_is
        (λ j str. subst (λ st. Move text bound o s i o st j) (sym t.state_is) (one j str)),
  )

  scalar_step :
      (o : List Container) (s : WalkState)
      → Holds bound (walker s) o
      → slot_at text here ≡ slot_scalar
      → entry_at s slot_scalar ≡ go_jsonfast.Walk.take_scalar + state_code (after_value s)
      → AllowsValue s
      → Round text bound (walker s) o
  scalar_step o s h slot entry a = elim (Option-cases (skip_scalar text here)) [
    | inl e ↦ inl (step_no_scalar text (walker s) (after_value s) slot entry e)
    | inr (j, e) ↦
        let (same, further, within) = skip_scalar-slot text here j b e in
        one_step o o s (after_value s) j slot_scalar
          (scanned text bound (walker s) o (after_value s) j h slot entry e) refl (take_scalar a e)
          (omega (arith, skip_ws-ge text i, further))
  ]

  open_step :
      (o : List Container) (s : WalkState) (c : Container) (k e : ℕ) (s' : WalkState)
      → Holds bound (walker s) o
      → slot_at text here ≡ k
      → entry_at s k ≡ e
      → e - bit_and e 15 ≡ 0x20
      → state_of (bit_and e 15) ≡ s'
      → bit_and k 1 ≡ kind_bit c
      → stops_at stop_string k ≡ false
      → (length o < bound → Move text bound o s i (c ∷ o) s' (suc here))
      → Round text bound (walker s) o
  open_step o s c k e s' h slot entry work next bit go one = elim (Bool-cases (leb bound d)) [
    | inl full ↦ inl (too_deep text bound (walker s) o k e h slot entry work full)
    | inr free ↦
        let room : length o < bound = ground (arith, h.depth_is) in
        one_step o (c ∷ o) s s' (suc here) k
          (opened text bound (walker s) o c k e s' h slot entry work next bit free) go (one room)
          forward
  ]

  cases :
      (o : List Container) (s : WalkState) (k e : ℕ)
      → Holds bound (walker s) o
      → Fits o s
      → slot_at text here ≡ k
      → entry_at s k ≡ e
      → Rule s k e
      → Round text bound (walker s) o
  unfolding state_code state_of
  cases o s k e h f slot entry (string_rule a) =
      string_step o s (after_value s) (went text bound (walker s) o (after_value s) k h slot entry)
        (slot_at-Token k slot (omega arith) (omega arith)) (λ j t. take_string a t)
  cases o s k e h f slot entry (name_rule a) =
      string_step o s walk_colon (went text bound (walker s) o walk_colon k h slot entry)
        (slot_at-Token k slot (omega arith) (omega arith)) (λ j t. take_name a t)
  cases o s k e h f slot entry colon_rule =
      one_step o o s walk_member_value (suc here) k
        (went text bound (walker s) o walk_member_value k h slot entry) refl
        (take_colon (slot_at-Token k slot (omega arith) (omega arith))) forward
  cases o s k e h f slot entry element_rule =
      one_step o o s walk_array_value (suc here) k
        (went text bound (walker s) o walk_array_value k h slot entry) refl
        (next_element (slot_at-Token k slot (omega arith) (omega arith))) forward
  cases o s k e h f slot entry member_rule =
      one_step o o s walk_name (suc here) k (went text bound (walker s) o walk_name k h slot entry)
        refl (next_member (slot_at-Token k slot (omega arith) (omega arith))) forward
  cases o s k e h f slot entry (scalar_rule a) = scalar_step o s h slot entry a
  cases o s k e h f slot entry (open_array_rule a) =
      open_step o s in_array k e walk_array_first h slot entry refl refl refl refl
        (λ lt. open_array a lt (slot_at-Token k slot (omega arith) (omega arith)))
  cases o s k e h f slot entry (open_object_rule a) =
      open_step o s in_object k e walk_object_first h slot entry refl refl refl refl
        (λ lt. open_object a lt (slot_at-Token k slot (omega arith) (omega arith)))
  cases [] s k e h f slot entry (close_array_rule no_element) = absurd f
  cases [] s k e h f slot entry (close_array_rule behind_element) = absurd f
  cases (c ∷ o) s k e h f slot entry (close_array_rule a) =
      one_step (c ∷ o) o s (around o) (suc here) k
        (closed_by text bound (walker s) c o k h slot entry) refl
        (close_array a (slot_at-Token k slot (omega arith) (omega arith))) forward
  cases [] s k e h f slot entry (close_object_rule no_member) = absurd f
  cases [] s k e h f slot entry (close_object_rule behind_member) = absurd f
  cases (c ∷ o) s k e h f slot entry (close_object_rule a) =
      one_step (c ∷ o) o s (around o) (suc here) k
        (closed_by text bound (walker s) c o k h slot entry) refl
        (close_object a (slot_at-Token k slot (omega arith) (omega arith))) forward
  cases o s k e h f slot entry refused = inl (step_refused text (walker s) k slot entry)

-- From a walker within its invariant on a text of bytes, a round of advance is a fault, a stop at
-- a string, or one step of the grammar on the open containers, which keeps the invariant: the
-- depth and the stack of bits are those of the open containers.
pub step-Round :
    (text : Bytes) (bound : ℕ) (w : Walker) (o : List Container)
    → AreBytes text
    → Holds bound w o
    → Fits o w.state
    → Round text bound w o
step-Round text bound w o b h f =
    let k = slot_at text (skip_ws text w.i) in
    cases text b bound w.max_depth w.kinds w.i w.depth o w.state k (entry_at w.state k) h f refl
      refl (entry_at-Rule w.state k (slot_at-lt text (skip_ws text w.i) b))
