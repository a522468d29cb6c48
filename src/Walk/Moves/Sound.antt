-- ===== src/Walk/Moves/Sound.antt =====
-- Steps to the end of the top value pass a value of the grammar.
use go_jsonfast.Base.{
  ℕ, suc, ◌-◌, ◌<◌, List, [], ◌∷◌, ◌≡◌, ◌⊎◌, inl, inr, refl, sym, subst, arith, length, Bytes,
}
use go_jsonfast.Walk.{
  WalkState, walk_value, walk_array_first, walk_array_value, walk_array_after, walk_object_first,
  walk_name, walk_colon, walk_member_value, walk_object_after, walk_done,
}
use go_jsonfast.Walk.Grammar.{
  Token, after, IsString, Value, Elements, Members, string, scalar, no_elements, array, no_members,
  object, last_element, more_elements, last_member, more_members,
}
use go_jsonfast.Walk.Moves.Kept.{around-after_value, Move-Fits}
use go_jsonfast.Walk.Moves.{
  Container, AllowsValue, on_top, first_element, later_element, member_value, after_value,
  AllowsName, first_name, later_name, ClosesArray, no_element, behind_element, ClosesObject,
  no_member, behind_member, around, Move, Walks, Fits, take_scalar, take_string, take_name,
  take_colon, next_element, next_member, open_array, open_object, close_array, close_object, walked,
  move,
}

module _ (text : Bytes) where
  abbrev MembersLeft : ℕ → ℕ → ℕ → Type 0
  MembersLeft n i j =
      (Token text i b'}' × (j ≡ after text i))
      ⊎ (Token text i b',' × Members text n (after text i) j)

  abbrev MemberValue : ℕ → ℕ → ℕ → Type 0
  MemberValue n i j = (b : ℕ) × Value text n i b × MembersLeft n b j

  -- What is left of the innermost container, or of the top value, in a state.
  abbrev Part : ℕ → WalkState → ℕ → ℕ → Type 0
  Part n walk_value i j = Value text n i j
  Part n walk_array_first i j = (Token text i b']' × (j ≡ after text i)) ⊎ Elements text n i j
  Part n walk_array_value i j = Elements text n i j
  Part n walk_array_after i j =
      (Token text i b']' × (j ≡ after text i))
      ⊎ (Token text i b',' × Elements text n (after text i) j)
  Part n walk_object_first i j = (Token text i b'}' × (j ≡ after text i)) ⊎ Members text n i j
  Part n walk_name i j = Members text n i j
  Part n walk_colon i j = Token text i b':' × MemberValue n (after text i) j
  Part n walk_member_value i j = MemberValue n i j
  Part n walk_object_after i j = MembersLeft n i j
  Part n walk_done i j = i ≡ j

  elements : {n i j k : ℕ} → Value text n i j → Part n walk_array_after j k → Elements text n i k
  elements {n} {i} v (inl (close, e)) = subst (Elements text n i) (sym e) (last_element v close)
  elements v (inr (comma, more)) = more_elements v comma more

  members : {n i j k : ℕ} → IsString text i j → Part n walk_colon j k → Members text n i k
  members {n} {i} name (colon, (b, v, inl (close, e))) =
      subst (Members text n i) (sym e) (last_member name colon v close)
  members name (colon, (b, v, inr (comma, more))) = more_members name colon v comma more

  Value-first :
      {s : WalkState} (n i j k : ℕ)
      → AllowsValue s
      → Value text n i j
      → Part n (after_value s) j k
      → Part n s i k
  Value-first n i j k on_top v p = subst (Value text n i) p v
  Value-first n i j k first_element v p = inr (elements v p)
  Value-first n i j k later_element v p = elements v p
  Value-first n i j k member_value v p = (j, v, p)

  name_first :
      {s : WalkState} (n i j k : ℕ)
      → AllowsName s
      → IsString text i j
      → Part n walk_colon j k
      → Part n s i k
  name_first n i j k first_name name p = inr (members name p)
  name_first n i j k later_name name p = members name p

  array_end :
      {s : WalkState} (n i : ℕ) → ClosesArray s → Token text i b']' → Part n s i (after text i)
  array_end n i no_element t = inl (t, refl)
  array_end n i behind_element t = inl (t, refl)

  object_end :
      {s : WalkState} (n i : ℕ) → ClosesObject s → Token text i b'}' → Part n s i (after text i)
  object_end n i no_member t = inl (t, refl)
  object_end n i behind_member t = inl (t, refl)

  array-Value :
      (n i j : ℕ)
      → Token text i b'['
      → Part n walk_array_first (after text i) j
      → Value text (suc n) i j
  array-Value n i j t (inl (close, e)) = subst (Value text (suc n) i) (sym e) (no_elements t close)
  array-Value n i j t (inr more) = array t more

  object-Value :
      (n i j : ℕ)
      → Token text i b'{'
      → Part n walk_object_first (after text i) j
      → Value text (suc n) i j
  object-Value n i j t (inl (close, e)) = subst (Value text (suc n) i) (sym e) (no_members t close)
  object-Value n i j t (inr more) = object t more

  module _ (bound : ℕ) where
    -- What is left of all open containers.
    abbrev Rest : List Container → WalkState → ℕ → ℕ → Type 0
    Rest [] s i e = Part bound s i e
    Rest (c ∷ o) s i e = (j : ℕ) × Part (bound - suc (length o)) s i j × Rest o (around o) j e

    Rest-map :
        (o : List Container) (s s' : WalkState) (i i' e : ℕ)
        → ((n j : ℕ) → Part n s' i' j → Part n s i j)
        → Rest o s' i' e
        → Rest o s i e
    Rest-map [] s s' i i' e f r = f bound e r
    Rest-map (c ∷ o) s s' i i' e f (j, p, r) = (j, f (bound - suc (length o)) j p, r)

    Rest-Value :
        (o : List Container) (s : WalkState) (i j e : ℕ)
        → AllowsValue s
        → Value text (bound - length o) i j
        → Rest o (after_value s) j e
        → Rest o s i e
    Rest-Value [] s i j e h v r =
        Value-first bound i j e h (subst (λ n. Value text n i j) (omega arith) v) r
    Rest-Value (c ∷ o) s i j e h v (k, p, r) =
        (k, Value-first (bound - suc (length o)) i j k h v p, r)

    -- A container from its opener, where a value may stand.
    Rest-container :
        (o : List Container) (s : WalkState) (i j e : ℕ)
        → AllowsValue s
        → Fits o s
        → length o < bound
        → Value text (suc (bound - suc (length o))) i j
        → Rest o (around o) j e
        → Rest o s i e
    Rest-container o s i j e h f lt v r =
        let deeper : suc (bound - suc (length o)) ≡ bound - length o = omega arith in
        Rest-Value o s i j e h (subst (λ n. Value text n i j) deeper v)
          (subst (λ st. Rest o st j e) (around-after_value o f h) r)

    Move-Rest :
        (o o' : List Container) (s s' : WalkState) (i i' e : ℕ)
        → Move text bound o s i o' s' i'
        → Fits o s
        → Rest o' s' i' e
        → Rest o s i e
    Move-Rest o o' s s' i i' e (take_scalar h t) f r = Rest-Value o s i i' e h (scalar t) r
    Move-Rest o o' s s' i i' e (take_string h t) f r = Rest-Value o s i i' e h (string t) r
    Move-Rest o o' s s' i i' e (take_name h t) f r =
        Rest-map o s s' i i' e (λ n j. name_first n i i' j h t) r
    Move-Rest o o' s s' i i' e (take_colon t) f r = Rest-map o s s' i i' e (λ n j p. (t, p)) r
    Move-Rest o o' s s' i i' e (next_element t) f r = Rest-map o s s' i i' e (λ n j p. inr (t, p)) r
    Move-Rest o o' s s' i i' e (next_member t) f r = Rest-map o s s' i i' e (λ n j p. inr (t, p)) r
    Move-Rest o o' s s' i i' e (open_array h lt t) f (j, p, r) =
        Rest-container o s i j e h f lt (array-Value (bound - suc (length o)) i j t p) r
    Move-Rest o o' s s' i i' e (open_object h lt t) f (j, p, r) =
        Rest-container o s i j e h f lt (object-Value (bound - suc (length o)) i j t p) r
    Move-Rest (c ∷ o) o' s s' i i' e (close_array h t) f r =
        (after text i, array_end (bound - suc (length o)) i h t, r)
    Move-Rest (c ∷ o) o' s s' i i' e (close_object h t) f r =
        (after text i, object_end (bound - suc (length o)) i h t, r)

    pub Walks-Rest :
        (o : List Container) (s : WalkState) (i e : ℕ)
        → Walks text bound o s i e
        → Fits o s
        → Rest o s i e
    Walks-Rest o s i e walked f = refl
    Walks-Rest o s i e (move {o' = o'} {s' = s'} {i' = i'} m w) f =
        Move-Rest o o' s s' i i' e m f (Walks-Rest o' s' i' e w (Move-Fits text bound m f))
