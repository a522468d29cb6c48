-- ===== src/Walk/Valid.antt =====
-- ValidUTF8 and valueEnd against the grammar.
use go_jsonfast.Base.{
  ℕ, true, false, Option, some, none, [], ◌≡◌, ◌↔◌, refl, sym, subst, ◌∙◌, arith, ◌==◌, ==_iff, inl,
  inr, Option-cases, ℤ, pos, negsuc, length, Bytes, false, ap, drop-length,
}
use go_jsonfast.Swar.Lanes.{AreBytes}
use go_jsonfast.Scan.{skip_ws}
use go_jsonfast.Walk.{
  refused, slot_at, slot_end, entry_at, state_code, step, is_done, finish_rounds, next, token,
  advance, advance_rounds, walk_value, Walker, top, new_walker, finish, value_end, valid_utf8,
}
use go_jsonfast.Walk.Grammar.{Value}
use go_jsonfast.Walk.Invariant.{Holds}
use go_jsonfast.Swar.{run_of}
use go_jsonfast.Walk.Steps.{step_refused}
use go_jsonfast.Walk.Exact.{finish_iff}

pub Holds-top :
    (text : Bytes) (w : Walker) (bound i : ℕ)
    → w.max_depth ≡ pos bound
    → length w.kinds.shallow ≡ 4
    → Holds bound (top text w i) []
unfolding top
Holds-top text w bound i m four = record {
  bound_is = m;
  depth_is = refl;
  inline = four;
  room = omega arith;
  kinds_are = tt;
}

top-at : (text : Bytes) (w : Walker) (bound i : ℕ) → w.max_depth ≡ pos bound → (top text w i).i ≡ i
unfolding top
top-at text w bound i m = rw m

top-walk_value : (text : Bytes) (w : Walker) (i : ℕ) → (top text w i).state ≡ walk_value
unfolding top
top-walk_value text w i = refl

-- valueEnd of a walker with a bound that is not negative and the four inline words, whatever the
-- walker went through before, returns the end of the value of the grammar that stands at the
-- index, and fails where none stands, on a text of bytes.
pub value_end_iff :
    (text : Bytes) (w : Walker) (bound i e : ℕ)
    → AreBytes text
    → w.max_depth ≡ pos bound
    → length w.kinds.shallow ≡ 4
    → (value_end text w i ≡ some e) ↔ Value text bound i e
unfolding value_end
value_end_iff text w bound i e b m four =
    subst (λ n. (finish text (top text w i) ≡ some e) ↔ Value text bound n e)
      (top-at text w bound i m)
      (finish_iff text b bound (top text w i) e (Holds-top text w bound i m four)
        (top-walk_value text w i))

-- finish on the walker that ValidUTF8 makes.
whole_end : Bytes → ℤ → Option ℕ
whole_end text m = finish text (new_walker text m)

valid_utf8-whole_end :
    (text : Bytes) (m : ℤ) {e : ℕ}
    → whole_end text m ≡ some e
    → valid_utf8 text m ≡ (skip_ws text e == length text)
unfolding valid_utf8 whole_end
valid_utf8-whole_end text m h = rw (h, valid_utf8)

valid_utf8-none : (text : Bytes) (m : ℤ) → whole_end text m ≡ none → valid_utf8 text m ≡ false
unfolding valid_utf8 whole_end
valid_utf8-none text m h = rw (h, valid_utf8)

whole_end_iff :
    (text : Bytes) (bound e : ℕ)
    → AreBytes text
    → (whole_end text (pos bound) ≡ some e) ↔ Value text bound 0 e
unfolding whole_end new_walker top
whole_end_iff text bound e b =
    finish_iff text b bound (new_walker text (pos bound)) e
      (record {
        bound_is = refl;
        depth_is = refl;
        inline = refl;
        room = omega arith;
        kinds_are = tt;
      })
      refl

-- ValidUTF8 under a bound that is not negative accepts exactly the texts of bytes that are one
-- value of the JSON grammar, with containers nested at most to the bound, and whitespace before
-- and behind; strings and scalars in that grammar are the tokens that strictEnd and skipScalar
-- pass.
pub valid_utf8_iff :
    (text : Bytes) (bound : ℕ)
    → AreBytes text
    → (valid_utf8 text (pos bound) ≡ true)
      ↔ ((e : ℕ) × Value text bound 0 e × (skip_ws text e ≡ length text))
valid_utf8_iff text bound b = (sound, complete)
  where
    sound :
        valid_utf8 text (pos bound) ≡ true
        → (e : ℕ) × Value text bound 0 e × (skip_ws text e ≡ length text)
    sound h = elim (Option-cases (whole_end text (pos bound))) [
      | inl e ↦ cc (sym (valid_utf8-none text (pos bound) e) ∙ h)
      | inr (e, out) ↦ (
        e,
        (whole_end_iff text bound e b).0 out,
        (==_iff (skip_ws text e) (length text)).0
            (sym (valid_utf8-whole_end text (pos bound) out) ∙ h),
      )
    ]

    complete :
        (e : ℕ) × Value text bound 0 e × (skip_ws text e ≡ length text)
        → valid_utf8 text (pos bound) ≡ true
    complete (e, v, h) =
        valid_utf8-whole_end text (pos bound) ((whole_end_iff text bound e b).1 v)
        ∙ (==_iff (skip_ws text e) (length text)).1 h

end_ws : (text : Bytes) → skip_ws text (length text) ≡ length text
unfolding skip_ws run_of
end_ws text = rw (drop-length text)

end_slot : (text : Bytes) → slot_at text (length text) ≡ slot_end
unfolding slot_at
end_slot text = rw (drop-length text, slot_at)

end_entry : entry_at walk_value slot_end ≡ 0xf0
unfolding entry_at state_code
end_entry = refl

-- No value begins at the end of a text.
step-none :
    (text : Bytes) (w : Walker) → w.i ≡ length text → w.state ≡ walk_value → step text w ≡ none
step-none text w h st =
    step_refused text w slot_end
      (ap (slot_at text) (ap (skip_ws text) h ∙ end_ws text) ∙ end_slot text)
      (ap (λ s. entry_at s slot_end) st ∙ end_entry)

pub next-refused :
    (text : Bytes) (w : Walker) → w.i ≡ length text → w.state ≡ walk_value → next text w ≡ refused
unfolding next advance advance_rounds
next-refused text w h st =
    let going : is_done w.state ≡ false = ap is_done st in rw (going, step-none text w h st) refl

pub token-refused :
    (text : Bytes) (w : Walker) → w.i ≡ length text → w.state ≡ walk_value → token text w ≡ refused
unfolding token advance advance_rounds
token-refused text w h st =
    let going : is_done w.state ≡ false = ap is_done st in rw (going, step-none text w h st) refl

pub finish-none :
    (text : Bytes) (w : Walker) → w.i ≡ length text → w.state ≡ walk_value → finish text w ≡ none
unfolding finish finish_rounds
finish-none text w h st = rw (next-refused text w h st, finish_rounds) refl

-- ValidUTF8 under a negative bound refuses every text.
pub valid_utf8-negative : (text : Bytes) (n : ℕ) → valid_utf8 text (negsuc n) ≡ false
unfolding new_walker top whole_end
valid_utf8-negative text n =
    valid_utf8-none text (negsuc n) (finish-none text (new_walker text (negsuc n)) refl refl)
