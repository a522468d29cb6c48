-- ===== src/Walk/Forward.antt =====
-- Every step on the open containers is taken by a round of the walker.
use go_jsonfast.Base.{
  ℕ, suc, ◌+◌, ◌<◌, false, some, List, ◌∷◌, ◌≡◌, refl, arith, leb, inl, inr, List-cases, drop, ℤ,
  length, byte_at, Bytes,
}
use go_jsonfast.Swar.Lanes.{AreBytes}
use go_jsonfast.Scan.{skip_ws}
use go_jsonfast.Walk.{
  WalkState, walk_array_first, walk_object_first, walk_colon, walk_member_value, walk_array_value,
  walk_name, state_code, state_of, entry_at, slot_at, slot_quote, slot_scalar, slot_end, slot_bytes,
  Walker, step, slot_of_byte, walk_array_after, walk_object_after, closed, at_bound, stops_at,
  stop_string,
}
use go_jsonfast.Strings.{strict_end}
use go_jsonfast.Strings.Exact.{strict_end_iff}
use go_jsonfast.Walk.Kinds.{KindStack}
use go_jsonfast.Walk.Grammar.{Token}
use go_jsonfast.Walk.Moves.{
  Container, in_array, in_object, AllowsValue, on_top, first_element, later_element, member_value,
  after_value, AllowsName, first_name, later_name, ClosesArray, no_element, behind_element,
  ClosesObject, no_member, behind_member, Move, take_scalar, take_string, take_name, take_colon,
  next_element, next_member, open_array, open_object, close_array, close_object,
}
use go_jsonfast.Walk.Tokens.{skip_scalar-slot, skip_ws-ge, Token-lt}
use go_jsonfast.Walk.Taken.{Taken, went, scanned, closed_by, opened}
use go_jsonfast.Walk.Invariant.{Holds}

string_entry : {s : WalkState} → AllowsValue s → entry_at s slot_quote ≡ state_code (after_value s)
unfolding entry_at state_code
string_entry on_top = refl
string_entry first_element = refl
string_entry later_element = refl
string_entry member_value = refl

scalar_entry :
    {s : WalkState}
    → AllowsValue s
    → entry_at s slot_scalar ≡ go_jsonfast.Walk.take_scalar + state_code (after_value s)
unfolding entry_at state_code
scalar_entry on_top = refl
scalar_entry first_element = refl
scalar_entry later_element = refl
scalar_entry member_value = refl

array_entry : {s : WalkState} → AllowsValue s → entry_at s 9 ≡ 0x21
unfolding entry_at state_code
array_entry on_top = refl
array_entry first_element = refl
array_entry later_element = refl
array_entry member_value = refl

object_entry : {s : WalkState} → AllowsValue s → entry_at s 8 ≡ 0x24
unfolding entry_at state_code
object_entry on_top = refl
object_entry first_element = refl
object_entry later_element = refl
object_entry member_value = refl

name_entry : {s : WalkState} → AllowsName s → entry_at s slot_quote ≡ state_code walk_colon
unfolding entry_at state_code
name_entry first_name = refl
name_entry later_name = refl

array_end_entry : {s : WalkState} → ClosesArray s → entry_at s 15 ≡ 0x30
unfolding entry_at state_code
array_end_entry no_element = refl
array_end_entry behind_element = refl

object_end_entry : {s : WalkState} → ClosesObject s → entry_at s 14 ≡ 0x30
unfolding entry_at state_code
object_end_entry no_member = refl
object_end_entry behind_member = refl

colon_entry : entry_at walk_colon 11 ≡ state_code walk_member_value
unfolding entry_at state_code
colon_entry = refl

element_entry : entry_at walk_array_after 13 ≡ state_code walk_array_value
unfolding entry_at state_code
element_entry = refl

member_entry : entry_at walk_object_after 13 ≡ state_code walk_name
unfolding entry_at state_code
member_entry = refl

slot_of_token : (text : Bytes) (i c : ℕ) → byte_at text i ≡ some c → slot_at text i ≡ slot_of_byte c
unfolding slot_at
slot_of_token text i c h = elim (List-cases (drop i text)) [
  | inl e ↦ cc (rw (e, byte_at) at h)
  | inr (d, s, e) ↦
      let h' : some d ≡ some c = rw (e, byte_at) at h in
      let same : d ≡ c = cc in rw (e, slot_at) (rw same)
]

module _ (text : Bytes) (b : AreBytes text) (bound : ℕ) (m : ℤ) (ks : KindStack) (i d : ℕ) where
  abbrev walker : WalkState → Walker
  walker s = record { max_depth = m; kinds = ks; i = i; depth = d; state = s }

  abbrev here : ℕ
  here = skip_ws text i

  -- How a round takes a step, and that the step goes forward inside the text.
  pub data Goes (s : WalkState) (o' : List Container) (s' : WalkState) (i' : ℕ) : Type 0 where
    by_step :
        (k : ℕ)
        → Taken text bound (walker s) k o' s' i'
        → stops_at stop_string k ≡ false
        → i < i'
        → i < length text
        → Goes s o' s' i'
    by_string :
        Taken text bound (walker s) slot_quote o' s' (suc here)
        → strict_end text here ≡ some i'
        → i < i'
        → i < length text
        → Goes s o' s' i'

  inside : (c : ℕ) → Token text i c → i < length text
  inside c t = omega (arith, skip_ws-ge text i, Token-lt text here c t)

  forward : i < suc here
  forward = omega (arith, skip_ws-ge text i)

  string_forward : (j : ℕ) → strict_end text here ≡ some j → i < j
  string_forward j h =
      let (u, split, end, body) = (strict_end_iff text b here j).0 h in
      omega (arith, skip_ws-ge text i, end)

  depth_free :
      (o : List Container) (s : WalkState)
      → Holds bound (walker s) o
      → length o < bound
      → leb bound d ≡ false
  depth_free o s h lt = ground (arith, h.depth_is)

  pub Move-Goes :
      (o o' : List Container) (s s' : WalkState) (i' : ℕ)
      → Holds bound (walker s) o
      → Move text bound o s i o' s' i'
      → Goes s o' s' i'
  unfolding slot_of_byte state_of
  Move-Goes o o' s s' i' h (take_scalar a e) =
      let (slot, further, within) = skip_scalar-slot text here i' b e in
      by_step slot_scalar
        (scanned text bound (walker s) o (after_value s) i' h slot (scalar_entry a) e) refl
        (omega (arith, skip_ws-ge text i, further)) (omega (arith, skip_ws-ge text i, within))
  Move-Goes o o' s s' i' h (take_string a (t, e)) =
      by_string
        (went text bound (walker s) o (after_value s) slot_quote h (slot_of_token text here b'"' t)
          (string_entry a))
        e (string_forward i' e) (inside b'"' t)
  Move-Goes o o' s s' i' h (take_name a (t, e)) =
      by_string
        (went text bound (walker s) o walk_colon slot_quote h (slot_of_token text here b'"' t)
          (name_entry a))
        e (string_forward i' e) (inside b'"' t)
  Move-Goes o o' s s' i' h (take_colon t) =
      by_step 11
        (went text bound (walker s) o walk_member_value 11 h (slot_of_token text here b':' t)
          colon_entry)
        refl forward (inside b':' t)
  Move-Goes o o' s s' i' h (next_element t) =
      by_step 13
        (went text bound (walker s) o walk_array_value 13 h (slot_of_token text here b',' t)
          element_entry)
        refl forward (inside b',' t)
  Move-Goes o o' s s' i' h (next_member t) =
      by_step 13
        (went text bound (walker s) o walk_name 13 h (slot_of_token text here b',' t) member_entry)
        refl forward (inside b',' t)
  Move-Goes o o' s s' i' h (open_array a lt t) =
      by_step 9
        (opened text bound (walker s) o in_array 9 0x21 walk_array_first h
          (slot_of_token text here b'[' t) (array_entry a) refl refl refl (depth_free o s h lt))
        refl forward (inside b'[' t)
  Move-Goes o o' s s' i' h (open_object a lt t) =
      by_step 8
        (opened text bound (walker s) o in_object 8 0x24 walk_object_first h
          (slot_of_token text here b'{' t) (object_entry a) refl refl refl (depth_free o s h lt))
        refl forward (inside b'{' t)
  Move-Goes (c ∷ o) o' s s' i' h (close_array a t) =
      by_step 15
        (closed_by text bound (walker s) c o 15 h (slot_of_token text here b']' t)
          (array_end_entry a))
        refl forward (inside b']' t)
  Move-Goes (c ∷ o) o' s s' i' h (close_object a t) =
      by_step 14
        (closed_by text bound (walker s) c o 14 h (slot_of_token text here b'}' t)
          (object_end_entry a))
        refl forward (inside b'}' t)
