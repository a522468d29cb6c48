-- ===== src/Walk/Table.antt =====
-- walkTable says what the steps of the walker are: the entries of every state at every slot.
use go_jsonfast.Base.{ℕ, zero, suc, ◌+◌, ◌<◌, ◌≡◌, refl, arith, bit_and}
use go_jsonfast.Walk.{
  WalkState, walk_value, walk_array_first, walk_array_value, walk_array_after, walk_object_first,
  walk_name, walk_colon, walk_member_value, walk_object_after, walk_done, state_code, state_of,
  entry_at, slot_quote, slot_scalar, slot_colon, slot_comma, slot_open_object, take_scalar,
  take_open, take_close, state_mask,
}
use go_jsonfast.Walk.Moves.{
  AllowsValue, on_top, first_element, later_element, member_value, after_value, AllowsName,
  first_name, later_name, ClosesArray, no_element, behind_element, ClosesObject, no_member,
  behind_member,
}

-- What an entry at a slot says in a state.
pub data Rule : WalkState → ℕ → ℕ → Type 0 where
  string_rule : {s : WalkState} → AllowsValue s → Rule s slot_quote (state_code (after_value s))
  name_rule : {s : WalkState} → AllowsName s → Rule s slot_quote (state_code walk_colon)
  colon_rule : Rule walk_colon slot_colon (state_code walk_member_value)
  element_rule : Rule walk_array_after slot_comma (state_code walk_array_value)
  member_rule : Rule walk_object_after slot_comma (state_code walk_name)
  scalar_rule :
      {s : WalkState}
      → AllowsValue s
      → Rule s slot_scalar (take_scalar + state_code (after_value s))
  open_array_rule :
      {s : WalkState} → AllowsValue s → Rule s 9 (take_open + state_code walk_array_first)
  open_object_rule :
      {s : WalkState}
      → AllowsValue s
      → Rule s slot_open_object (take_open + state_code walk_object_first)
  close_array_rule : {s : WalkState} → ClosesArray s → Rule s 15 take_close
  close_object_rule : {s : WalkState} → ClosesObject s → Rule s 14 take_close
  refused : {s : WalkState} {k : ℕ} → Rule s k 0xf0

sixteen :
    (P : ℕ → Type 0)
    → P 0
    → P 1
    → P 2
    → P 3
    → P 4
    → P 5
    → P 6
    → P 7
    → P 8
    → P 9
    → P 10
    → P 11
    → P 12
    → P 13
    → P 14
    → P 15
    → (k : ℕ) → k < 16
    → P k
sixteen P a b c d e f g h i j k l m n o p zero lt = a
sixteen P a b c d e f g h i j k l m n o p (suc zero) lt = b
sixteen P a b c d e f g h i j k l m n o p (suc (suc zero)) lt = c
sixteen P a b c d e f g h i j k l m n o p (suc (suc (suc zero))) lt = d
sixteen P a b c d e f g h i j k l m n o p (suc (suc (suc (suc zero)))) lt = e
sixteen P a b c d e f g h i j k l m n o p (suc (suc (suc (suc (suc zero))))) lt = f
sixteen P a b c d e f g h i j k l m n o p (suc (suc (suc (suc (suc (suc zero)))))) lt = g
sixteen P a b c d e f g h i j k l m n o p (suc (suc (suc (suc (suc (suc (suc zero))))))) lt = h
sixteen P a b c d e f g h i j k l m n o p (suc (suc (suc (suc (suc (suc (suc (suc zero)))))))) lt =
    i
sixteen P a b c d e f g h i j k l m n o p (suc (suc (suc (suc (suc (suc (suc (suc (suc zero)))))))))
      lt =
    j
sixteen P a b c d e f g h i j k l m n o p
      (suc (suc (suc (suc (suc (suc (suc (suc (suc (suc zero)))))))))) lt =
    k
sixteen P a b c d e f g h i j k l m n o p
      (suc (suc (suc (suc (suc (suc (suc (suc (suc (suc (suc zero))))))))))) lt =
    l
sixteen P a b c d e f g h i j k l m n o p
      (suc (suc (suc (suc (suc (suc (suc (suc (suc (suc (suc (suc zero)))))))))))) lt =
    m
sixteen P a b c d e f g h i j k l m n o p
      (suc (suc (suc (suc (suc (suc (suc (suc (suc (suc (suc (suc (suc zero))))))))))))) lt =
    n
sixteen P a b c d e f g h i j k l m n o p
      (suc (suc (suc (suc (suc (suc (suc (suc (suc (suc (suc (suc (suc (suc zero)))))))))))))) lt =
    o
sixteen P a b c d e f g h i j k l m n o p
      (suc (suc (suc (suc (suc (suc (suc (suc (suc (suc (suc (suc (suc (suc (suc zero)))))))))))))))
      lt =
    p
sixteen P a b c d e f g h i j k l m n o p
      (suc
        (suc (suc (suc (suc (suc (suc (suc (suc (suc (suc (suc (suc (suc (suc (suc x))))))))))))))))
      lt =
    absurd (omega arith)

-- Every entry of the table follows a rule.
pub entry_at-Rule : (s : WalkState) (k : ℕ) → k < 16 → Rule s k (entry_at s k)
unfolding entry_at state_code
entry_at-Rule walk_value k h =
    sixteen (λ k. Rule walk_value k (entry_at walk_value k)) (scalar_rule on_top) refused refused
      (string_rule on_top) refused refused refused refused (open_object_rule on_top)
      (open_array_rule on_top) refused refused refused refused refused refused k h
entry_at-Rule walk_array_first k h =
    sixteen (λ k. Rule walk_array_first k (entry_at walk_array_first k)) (scalar_rule first_element)
      refused refused (string_rule first_element) refused refused refused refused
      (open_object_rule first_element) (open_array_rule first_element) refused refused refused
      refused refused (close_array_rule no_element) k h
entry_at-Rule walk_array_value k h =
    sixteen (λ k. Rule walk_array_value k (entry_at walk_array_value k)) (scalar_rule later_element)
      refused refused (string_rule later_element) refused refused refused refused
      (open_object_rule later_element) (open_array_rule later_element) refused refused refused
      refused refused refused k h
entry_at-Rule walk_array_after k h =
    sixteen (λ k. Rule walk_array_after k (entry_at walk_array_after k)) refused refused refused
      refused refused refused refused refused refused refused refused refused refused element_rule
      refused (close_array_rule behind_element) k h
entry_at-Rule walk_object_first k h =
    sixteen (λ k. Rule walk_object_first k (entry_at walk_object_first k)) refused refused refused
      (name_rule first_name) refused refused refused refused refused refused refused refused refused
      refused (close_object_rule no_member) refused k h
entry_at-Rule walk_name k h =
    sixteen (λ k. Rule walk_name k (entry_at walk_name k)) refused refused refused
      (name_rule later_name) refused refused refused refused refused refused refused refused refused
      refused refused refused k h
entry_at-Rule walk_colon k h =
    sixteen (λ k. Rule walk_colon k (entry_at walk_colon k)) refused refused refused refused refused
      refused refused refused refused refused refused colon_rule refused refused refused refused k h
entry_at-Rule walk_member_value k h =
    sixteen (λ k. Rule walk_member_value k (entry_at walk_member_value k))
      (scalar_rule member_value) refused refused (string_rule member_value) refused refused refused
      refused (open_object_rule member_value) (open_array_rule member_value) refused refused refused
      refused refused refused k h
entry_at-Rule walk_object_after k h =
    sixteen (λ k. Rule walk_object_after k (entry_at walk_object_after k)) refused refused refused
      refused refused refused refused refused refused refused refused refused refused member_rule
      (close_object_rule behind_member) refused k h
entry_at-Rule walk_done k h =
    sixteen (λ k. Rule walk_done k (entry_at walk_done k)) refused refused refused refused refused
      refused refused refused refused refused refused refused refused refused refused refused k h

pub code_mask : (s : WalkState) → bit_and (state_code s) state_mask ≡ state_code s
unfolding state_code
code_mask walk_value = refl
code_mask walk_array_first = refl
code_mask walk_array_value = refl
code_mask walk_array_after = refl
code_mask walk_object_first = refl
code_mask walk_name = refl
code_mask walk_colon = refl
code_mask walk_member_value = refl
code_mask walk_object_after = refl
code_mask walk_done = refl

pub scalar_mask : (s : WalkState) → bit_and (take_scalar + state_code s) state_mask ≡ state_code s
unfolding state_code
scalar_mask walk_value = refl
scalar_mask walk_array_first = refl
scalar_mask walk_array_value = refl
scalar_mask walk_array_after = refl
scalar_mask walk_object_first = refl
scalar_mask walk_name = refl
scalar_mask walk_colon = refl
scalar_mask walk_member_value = refl
scalar_mask walk_object_after = refl
scalar_mask walk_done = refl

pub state_of-state_code : (s : WalkState) → state_of (state_code s) ≡ s
unfolding state_code state_of
state_of-state_code walk_value = refl
state_of-state_code walk_array_first = refl
state_of-state_code walk_array_value = refl
state_of-state_code walk_array_after = refl
state_of-state_code walk_object_first = refl
state_of-state_code walk_name = refl
state_of-state_code walk_colon = refl
state_of-state_code walk_member_value = refl
state_of-state_code walk_object_after = refl
state_of-state_code walk_done = refl
