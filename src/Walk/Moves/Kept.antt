-- ===== src/Walk/Moves/Kept.antt =====
-- Each step keeps the state one of the innermost container.
use go_jsonfast.Base.{ℕ, List, [], ◌∷◌, ◌≡◌, refl, subst, Bytes}
use go_jsonfast.Walk.{
  WalkState, walk_array_value, walk_array_after, walk_name, walk_colon, walk_member_value,
  walk_object_after,
}
use go_jsonfast.Walk.Moves.{
  Container, in_array, in_object, AllowsValue, on_top, first_element, later_element, member_value,
  after_value, AllowsName, first_name, later_name, around, Move, Fits, take_scalar, take_string,
  take_name, take_colon, next_element, next_member, open_array, open_object, close_array,
  close_object,
}

pub around-after_value :
    (o : List Container) {s : WalkState} → Fits o s → AllowsValue s → around o ≡ after_value s
around-after_value [] f on_top = refl
around-after_value [] f first_element = absurd f
around-after_value [] f later_element = absurd f
around-after_value [] f member_value = absurd f
around-after_value (in_array ∷ o) f on_top = absurd f
around-after_value (in_array ∷ o) f first_element = refl
around-after_value (in_array ∷ o) f later_element = refl
around-after_value (in_array ∷ o) f member_value = absurd f
around-after_value (in_object ∷ o) f on_top = absurd f
around-after_value (in_object ∷ o) f first_element = absurd f
around-after_value (in_object ∷ o) f later_element = absurd f
around-after_value (in_object ∷ o) f member_value = refl

pub around-Fits : (o : List Container) → Fits o (around o)
around-Fits [] = tt
around-Fits (in_array ∷ o) = tt
around-Fits (in_object ∷ o) = tt

pub after_value-Fits :
    (o : List Container) {s : WalkState} → Fits o s → AllowsValue s → Fits o (after_value s)
after_value-Fits o f h = subst (Fits o) (around-after_value o f h) (around-Fits o)

name-Fits : (o : List Container) {s : WalkState} → Fits o s → AllowsName s → Fits o walk_colon
name-Fits [] f first_name = f
name-Fits [] f later_name = f
name-Fits (in_array ∷ o) f first_name = f
name-Fits (in_array ∷ o) f later_name = f
name-Fits (in_object ∷ o) f first_name = tt
name-Fits (in_object ∷ o) f later_name = tt

-- In a container whose state is the first, the second fits as well.
colon-Fits : (o : List Container) → Fits o walk_colon → Fits o walk_member_value
colon-Fits [] f = f
colon-Fits (in_array ∷ o) f = f
colon-Fits (in_object ∷ o) f = tt

comma-Fits : (o : List Container) → Fits o walk_array_after → Fits o walk_array_value
comma-Fits [] f = f
comma-Fits (in_array ∷ o) f = tt
comma-Fits (in_object ∷ o) f = f

member-Fits : (o : List Container) → Fits o walk_object_after → Fits o walk_name
member-Fits [] f = f
member-Fits (in_array ∷ o) f = f
member-Fits (in_object ∷ o) f = tt

pub Move-Fits :
    (text : Bytes) (bound : ℕ) {o o' : List Container} {s s' : WalkState} {i i' : ℕ}
    → Move text bound o s i o' s' i'
    → Fits o s
    → Fits o' s'
Move-Fits text bound {o = o} (take_scalar h t) f = after_value-Fits o f h
Move-Fits text bound {o = o} (take_string h t) f = after_value-Fits o f h
Move-Fits text bound {o = o} (take_name h t) f = name-Fits o f h
Move-Fits text bound {o = o} (take_colon t) f = colon-Fits o f
Move-Fits text bound {o = o} (next_element t) f = comma-Fits o f
Move-Fits text bound {o = o} (next_member t) f = member-Fits o f
Move-Fits text bound (open_array h lt t) f = tt
Move-Fits text bound (open_object h lt t) f = tt
Move-Fits text bound {o' = o'} (close_array h t) f = around-Fits o'
Move-Fits text bound {o' = o'} (close_object h t) f = around-Fits o'
