-- ===== src/Flatten/Written.antt =====
-- What the methods of FlattenObject write stands behind what the buffer held.
use go_jsonfast.Base.{
  ℕ, Bool, true, false, ◌&&◌, not, [], ◌∷◌, ◌++◌, ◌≡◌, ap, ◌∙◌, append_assoc, ltb, ◌==◌,
  if◌then◌else◌, inl, inr, Bool-cases, length, slice, Bytes,
}
use go_jsonfast.Builder.{Builder, sep, add_raw_bytes_field}
use go_jsonfast.Walk.{Walker}
use go_jsonfast.Names.{inline_names}
use go_jsonfast.Flatten.{
  Flattener, State, put, item, value, open_leaf, close_leaf, add_open, file_name, ensure, enter,
  leave, leaf_name, set_name, object, file_leaf,
}

-- A text that another begins with, and what follows it there.
abbrev pub Extends : Bytes → Bytes → Type 0
Extends base x = (s : Bytes) × (x ≡ base ++ s)

append-Extends : (base x p : Bytes) → Extends base x → Extends base (x ++ p)
append-Extends base x p (s, e) = (s ++ p, ap (λ z. z ++ p) e ∙ append_assoc base s p)

if-Extends :
    (base x y : Bytes) (c : Bool)
    → Extends base x
    → Extends base y
    → Extends base (if c then x else y)
if-Extends base x y true h h' = h
if-Extends base x y false h h' = h'

sep-Extends : (base : Bytes) (b : Builder) → Extends base b.buf → Extends base (sep b).buf
unfolding sep
sep-Extends base b h =
    if-Extends base (b.buf ++ b',' ∷ []) b.buf b.need_sep (append-Extends base b.buf (b',' ∷ []) h)
      h

module _ (base : Bytes) where
  abbrev pub Grown : Flattener → Type 0
  Grown f = Extends base f.b.buf

  put-Grown : (p : Bytes) (f : Flattener) → Grown f → Grown (put p f)
  put-Grown p f h = append-Extends base f.b.buf p h

  if-Grown : (c : Bool) (f f' : Flattener) → Grown f → Grown f' → Grown (if c then f else f')
  if-Grown true f f' h h' = h
  if-Grown false f f' h h' = h'

  key-Grown : (f : Flattener) → Grown f → Extends base (add_raw_bytes_field f.key [] f.b).buf
  unfolding add_raw_bytes_field
  key-Grown f h = append-Extends base _ [] (
      append-Extends base _ _
        (append-Extends base _ f.key (append-Extends base _ _ (sep-Extends base f.b h))))

  item-Grown : (f : Flattener) → Grown f → Grown (item f)
  unfolding item
  item-Grown f h =
      if-Grown (f.leaf == 0) _ _ (key-Grown f h)
        (if-Grown f.comma _ _ (put-Grown (b',' ∷ []) f h) h)

  pub value-Grown :
      (text : Bytes) (at end : ℕ) (f : Flattener) → Grown f → Grown (value text at end f)
  unfolding value
  value-Grown text at end f h = put-Grown (slice text at end) (item f) (item-Grown f h)

  pub open_leaf-Grown : (c : ℕ) (f : Flattener) → Grown f → Grown (open_leaf c f)
  unfolding open_leaf
  open_leaf-Grown c f h = put-Grown (c ∷ []) (item f) (item-Grown f h)

  pub close_leaf-Grown : (c : ℕ) (f : Flattener) → Grown f → Grown (close_leaf c f)
  unfolding close_leaf
  close_leaf-Grown c f h = put-Grown (c ∷ []) f h

  abbrev pub Kept : State → Type 0
  Kept s = Grown s.1

  if-Kept : (c : Bool) (s s' : State) → Kept s → Kept s' → Kept (if c then s else s')
  if-Kept true s s' h h' = h
  if-Kept false s s' h h' = h'

  add_open-Kept : (name : Bytes) (s : State) → Kept s → Kept (add_open name s)
  unfolding add_open
  add_open-Kept name s h = h

  ensure-Kept : (s : State) → Kept s → Kept (ensure s)
  unfolding ensure
  ensure-Kept s h = if-Kept s.1.named _ _ h h

  pub file_name-Kept :
      (text : Bytes) (at end : ℕ) (name : Bytes) (s : State)
      → Kept s
      → Kept (file_name text at end name s)
  unfolding file_name
  file_name-Kept text at end name s h =
      let s' = add_open name s in
      if-Kept (s.1.leaf == 0) _ _ h (
        put-Grown (slice text at end ++ b':' ∷ []) (item s'.1)
          (item-Grown s'.1 (add_open-Kept name s h)))

  enter-Kept : (w : Walker) (s : State) → Kept s → Kept (enter w s)
  unfolding enter
  enter-Kept w s h =
      if-Kept (not (ltb 1 w.depth)) s (add_open s.1.name (ensure s)) h
        (add_open-Kept s.1.name (ensure s) (ensure-Kept s h))

  leave-Kept : (s : State) → Kept s → Kept (leave s)
  unfolding leave
  leave-Kept s h = h

  pub object-Kept : (w : Walker) (c : ℕ) (s : State) → Kept s → Kept (object w c s)
  unfolding object
  object-Kept w c s h =
      if-Kept (s.1.leaf == 0) _ _ (if-Kept (c == b'{') _ _ (enter-Kept w s h) (leave-Kept s h))
        (if-Kept (c == b'{') _ _ (open_leaf-Grown c s.1 h) (close_leaf-Grown c s.1 h))

  leaf_name-Grown : (f : Flattener) → Grown f → Grown (leaf_name f).0
  unfolding leaf_name
  leaf_name-Grown f h = elim (Bool-cases (not f.named && ltb (length f.pending) inline_names)) [
    | inl waits ↦ rw (waits, leaf_name) h
    | inr files ↦ rw (files, leaf_name) h
  ]

  pub file_leaf-Kept : (s : State) → Kept s → Kept (file_leaf s)
  unfolding file_leaf set_name
  file_leaf-Kept s h =
      let f = (leaf_name s.1).0 in
      let h' = leaf_name-Grown s.1 h in
      if-Kept (not (s.1.leaf == 0)) _ _ h (
        if-Kept (leaf_name s.1).1 _ _ h'
          (add_open-Kept f.name (ensure (s.0, f)) (ensure-Kept (s.0, f) h')))
