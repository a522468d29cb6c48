-- ===== src/Walk/Moves/Complete.antt =====
-- Every value of the grammar is passed by steps, and the two say the same.
use go_jsonfast.Base.{ℕ, suc, ◌-◌, List, [], ◌∷◌, ◌≡◌, sym, ◌↔◌, subst, arith, length, Bytes}
use go_jsonfast.Walk.{
  WalkState, walk_value, walk_array_first, walk_array_value, walk_object_first, walk_name,
  walk_member_value,
}
use go_jsonfast.Walk.Grammar.{
  after, Value, Elements, Members, string, scalar, no_elements, array, no_members, object,
  last_element, more_elements, last_member, more_members,
}
use go_jsonfast.Walk.Moves.{
  Container, in_array, in_object, AllowsValue, on_top, first_element, later_element, member_value,
  after_value, AllowsName, first_name, later_name, no_element, behind_element, no_member,
  behind_member, around, Walks, Fits, take_scalar, take_string, take_name, take_colon, next_element,
  next_member, open_array, open_object, close_array, close_object, walked, move,
}
use go_jsonfast.Walk.Moves.Kept.{around-after_value}
use go_jsonfast.Walk.Moves.Sound.{Walks-Rest}

module _ (text : Bytes) (bound : ℕ) where
  mutual
    Value-Walks :
        (o : List Container) (s : WalkState) (n i j e : ℕ)
        → n ≡ bound - length o
        → Fits o s
        → AllowsValue s
        → Value text n i j
        → Walks text bound o (after_value s) j e
        → Walks text bound o s i e
    Value-Walks o s n i j e d f h (string t) w = move (take_string h t) w
    Value-Walks o s n i j e d f h (scalar t) w = move (take_scalar h t) w
    Value-Walks o s n i j e d f h (no_elements t close) w = move (open_array h (omega arith) t) (
        move (close_array no_element close)
          (subst (λ st. Walks text bound o st j e) (sym (around-after_value o f h)) w))
    Value-Walks o s n i j e d f h (no_members t close) w = move (open_object h (omega arith) t) (
        move (close_object no_member close)
          (subst (λ st. Walks text bound o st j e) (sym (around-after_value o f h)) w))
    Value-Walks o s n i j e d f h (array {n = n'} t more) w = move (open_array h (omega arith) t) (
        Elements-Walks o walk_array_first n' (after text i) j e (omega arith) tt first_element more
          (subst (λ st. Walks text bound o st j e) (sym (around-after_value o f h)) w))
    Value-Walks o s n i j e d f h (object {n = n'} t more) w =
        move (open_object h (omega arith) t) (
          Members-Walks o walk_object_first n' (after text i) j e (omega arith) first_name more
            (subst (λ st. Walks text bound o st j e) (sym (around-after_value o f h)) w))

    Elements-Walks :
        (o : List Container) (s : WalkState) (n i j e : ℕ)
        → n ≡ bound - suc (length o)
        → Fits (in_array ∷ o) s
        → AllowsValue s
        → Elements text n i j
        → Walks text bound o (around o) j e
        → Walks text bound (in_array ∷ o) s i e
    Elements-Walks o s n i j e d f h (last_element {j = k} v close) w =
        Value-Walks (in_array ∷ o) s n i k e d f h v (
          subst (λ st. Walks text bound (in_array ∷ o) st k e)
            (around-after_value (in_array ∷ o) f h) (move (close_array behind_element close) w))
    Elements-Walks o s n i j e d f h (more_elements {j = k} v comma more) w =
        Value-Walks (in_array ∷ o) s n i k e d f h v (
          subst (λ st. Walks text bound (in_array ∷ o) st k e)
            (around-after_value (in_array ∷ o) f h)
            (move (next_element comma)
              (Elements-Walks o walk_array_value n (after text k) j e d tt later_element more w)))

    Members-Walks :
        (o : List Container) (s : WalkState) (n i j e : ℕ)
        → n ≡ bound - suc (length o)
        → AllowsName s
        → Members text n i j
        → Walks text bound o (around o) j e
        → Walks text bound (in_object ∷ o) s i e
    Members-Walks o s n i j e d h (last_member {a = a} {j = k} name colon v close) w =
        move (take_name h name) (
          move (take_colon colon) (
            Value-Walks (in_object ∷ o) walk_member_value n (after text a) k e d tt member_value v
              (move (close_object behind_member close) w)))
    Members-Walks o s n i j e d h (more_members {a = a} {j = k} name colon v comma more) w =
        move (take_name h name) (
          move (take_colon colon) (
            Value-Walks (in_object ∷ o) walk_member_value n (after text a) k e d tt member_value v (
              move (next_member comma)
                (Members-Walks o walk_name n (after text k) j e d later_name more w))))

  pub Walks-iff : (i e : ℕ) → Walks text bound [] walk_value i e ↔ Value text bound i e
  Walks-iff i e = (
    λ w. Walks-Rest text bound [] walk_value i e w tt,
    λ v. Value-Walks [] walk_value bound i e e (omega arith) tt on_top v walked,
  )
