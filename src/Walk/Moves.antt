-- ===== src/Walk/Moves.antt =====
-- The walker as steps on a stack of open containers, a state and an index, one for each token.
pub mod Kept
pub mod Sound
pub mod Complete
use go_jsonfast.Base.{ℕ, suc, ◌<◌, Bool, true, false, List, [], ◌∷◌, some, ◌≡◌, length, Bytes}
use go_jsonfast.Scan.{skip_ws, skip_scalar}
use go_jsonfast.Walk.{
  WalkState, walk_value, walk_array_first, walk_array_value, walk_array_after, walk_object_first,
  walk_name, walk_colon, walk_member_value, walk_object_after, walk_done,
}
use go_jsonfast.Walk.Grammar.{Token, after, IsString}

pub data Container : Type 0 where
  in_array in_object : Container

-- The states that allow a value, and what follows the value there.
pub data AllowsValue : WalkState → Type 0 where
  on_top : AllowsValue walk_value
  first_element : AllowsValue walk_array_first
  later_element : AllowsValue walk_array_value
  member_value : AllowsValue walk_member_value

abbrev pub after_value : WalkState → WalkState
after_value walk_array_first = walk_array_after
after_value walk_array_value = walk_array_after
after_value walk_member_value = walk_object_after
after_value _ = walk_done

pub data AllowsName : WalkState → Type 0 where
  first_name : AllowsName walk_object_first
  later_name : AllowsName walk_name

pub data ClosesArray : WalkState → Type 0 where
  no_element : ClosesArray walk_array_first
  behind_element : ClosesArray walk_array_after

pub data ClosesObject : WalkState → Type 0 where
  no_member : ClosesObject walk_object_first
  behind_member : ClosesObject walk_object_after

-- What follows a container, by the containers around it.
abbrev pub around : List Container → WalkState
around [] = walk_done
around (in_array ∷ _) = walk_array_after
around (in_object ∷ _) = walk_object_after

module _ (text : Bytes) (bound : ℕ) where
  -- One token: the open containers, innermost first, the state and the index before and after it.
  pub data Move : List Container → WalkState → ℕ → List Container → WalkState → ℕ → Type 0 where
    take_scalar :
        {o : List Container} {s : WalkState} {i j : ℕ}
        → AllowsValue s
        → skip_scalar text (skip_ws text i) ≡ some j
        → Move o s i o (after_value s) j
    take_string :
        {o : List Container} {s : WalkState} {i j : ℕ}
        → AllowsValue s
        → IsString text i j
        → Move o s i o (after_value s) j
    take_name :
        {o : List Container} {s : WalkState} {i j : ℕ}
        → AllowsName s
        → IsString text i j
        → Move o s i o walk_colon j
    take_colon :
        {o : List Container} {i : ℕ}
        → Token text i b':'
        → Move o walk_colon i o walk_member_value (after text i)
    next_element :
        {o : List Container} {i : ℕ}
        → Token text i b','
        → Move o walk_array_after i o walk_array_value (after text i)
    next_member :
        {o : List Container} {i : ℕ}
        → Token text i b','
        → Move o walk_object_after i o walk_name (after text i)
    open_array :
        {o : List Container} {s : WalkState} {i : ℕ}
        → AllowsValue s
        → length o < bound
        → Token text i b'['
        → Move o s i (in_array ∷ o) walk_array_first (after text i)
    open_object :
        {o : List Container} {s : WalkState} {i : ℕ}
        → AllowsValue s
        → length o < bound
        → Token text i b'{'
        → Move o s i (in_object ∷ o) walk_object_first (after text i)
    close_array :
        {c : Container} {o : List Container} {s : WalkState} {i : ℕ}
        → ClosesArray s
        → Token text i b']'
        → Move (c ∷ o) s i o (around o) (after text i)
    close_object :
        {c : Container} {o : List Container} {s : WalkState} {i : ℕ}
        → ClosesObject s
        → Token text i b'}'
        → Move (c ∷ o) s i o (around o) (after text i)

  -- Steps to the end of the top value, at `e`.
  pub data Walks : List Container → WalkState → ℕ → ℕ → Type 0 where
    walked : {e : ℕ} → Walks [] walk_done e e
    move :
        {o o' : List Container} {s s' : WalkState} {i i' e : ℕ}
        → Move o s i o' s' i'
        → Walks o' s' i' e
        → Walks o s i e

-- The state belongs to the innermost container.
abbrev pub Fits : List Container → WalkState → Type 0
Fits [] walk_value = Unit {0}
Fits [] walk_done = Unit {0}
Fits (in_array ∷ _) walk_array_first = Unit {0}
Fits (in_array ∷ _) walk_array_value = Unit {0}
Fits (in_array ∷ _) walk_array_after = Unit {0}
Fits (in_object ∷ _) walk_object_first = Unit {0}
Fits (in_object ∷ _) walk_name = Unit {0}
Fits (in_object ∷ _) walk_colon = Unit {0}
Fits (in_object ∷ _) walk_member_value = Unit {0}
Fits (in_object ∷ _) walk_object_after = Unit {0}
Fits _ _ = ⊥
