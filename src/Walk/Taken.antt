-- ===== src/Walk/Taken.antt =====
-- What a round of the walker does on each token that a step takes, and the stack of bits after it.
use go_jsonfast.Base.{
  ℕ, suc, ◌+◌, ◌-◌, true, false, some, none, List, ◌∷◌, ◌≡◌, refl, ap, ◌∙◌, arith, leb, length,
  Bytes, bit_and,
}
use go_jsonfast.Scan.{skip_ws, skip_scalar}
use go_jsonfast.Walk.{
  WalkState, walk_array_first, walk_object_first, walk_colon, walk_member_value, walk_array_value,
  walk_name, state_code, state_of, entry_at, slot_at, slot_quote, slot_scalar, slot_end, slot_bytes,
  Walker, step, closed, at_bound, stops_at, stop_string,
}
use go_jsonfast.Walk.Kinds.{set_kind}
use go_jsonfast.Walk.Moves.{Container, around}
use go_jsonfast.Walk.Steps.{step_goto, step_scalar, step_open, step_close}
use go_jsonfast.Walk.Invariant.{kind_bit, Holds, Holds-open, closed-around}

-- A round takes the token at slot `k`, and its walker stands for these containers, state and index.
pub record Taken (text : Bytes) (bound : ℕ) (w : Walker) (k : ℕ) (o : List Container)
    (s : WalkState) (i : ℕ) : Type 0 where
  pub walker' : Walker
  pub step_is : step text w ≡ some (walker', skip_ws text w.i, k)
  pub holds : Holds bound walker' o
  pub state_is : walker'.state ≡ s
  pub index_is : walker'.i ≡ i

module _ (text : Bytes) (bound : ℕ) (w : Walker) where
  abbrev here : ℕ
  here = skip_ws text w.i

  same_stack :
      (o : List Container) (j : ℕ) (s : WalkState)
      → Holds bound w o
      → Holds bound (record w { i = j; state = s }) o
  same_stack o j s h = record {
    bound_is = h.bound_is;
    depth_is = h.depth_is;
    inline = h.inline;
    room = h.room;
    kinds_are = h.kinds_are;
  }

  -- A colon, a comma, or a string, which the caller scans.
  pub went :
      (o : List Container) (s : WalkState) (k : ℕ)
      → Holds bound w o
      → slot_at text here ≡ k
      → entry_at w.state k ≡ state_code s
      → Taken text bound w k o s (suc here)
  went o s k h slot entry = record {
    walker' = record w { i = suc here; state = s };
    step_is = step_goto text w k s slot entry;
    holds = same_stack o (suc here) s h;
    state_is = refl;
    index_is = refl;
  }

  pub scanned :
      (o : List Container) (s : WalkState) (j : ℕ)
      → Holds bound w o
      → slot_at text here ≡ slot_scalar
      → entry_at w.state slot_scalar ≡ go_jsonfast.Walk.take_scalar + state_code s
      → skip_scalar text here ≡ some j
      → Taken text bound w slot_scalar o s j
  scanned o s j h slot entry e = record {
    walker' = record w { i = j; state = s };
    step_is = step_scalar text w j s slot entry e;
    holds = same_stack o j s h;
    state_is = refl;
    index_is = refl;
  }

  pub closed_by :
      (c : Container) (o : List Container) (k : ℕ)
      → Holds bound w (c ∷ o)
      → slot_at text here ≡ k
      → entry_at w.state k ≡ 0x30
      → Taken text bound w k o (around o) (suc here)
  closed_by c o k h slot entry =
      let depth : w.depth - 1 ≡ length o = omega (arith, h.depth_is) in
      let state : closed w.kinds (w.depth - 1) ≡ around o =
        ap (closed w.kinds) depth ∙ closed-around w.kinds o h.kinds_are.1 in
      record {
        walker' = record w { i = suc here; depth = w.depth - 1; state = around o };
        step_is =
            step_close text w k slot entry
            ∙ ap (λ t. some (record w { i = suc here; depth = w.depth - 1; state = t }, here, k))
                state;
        holds = record {
          bound_is = h.bound_is;
          depth_is = depth;
          inline = h.inline;
          room = omega (arith, h.room);
          kinds_are = h.kinds_are.1;
        };
        state_is = refl;
        index_is = refl;
      }

  pub too_deep :
      (o : List Container) (k e : ℕ)
      → Holds bound w o
      → slot_at text here ≡ k
      → entry_at w.state k ≡ e
      → e - bit_and e 15 ≡ 0x20
      → leb bound w.depth ≡ true
      → step text w ≡ none
  too_deep o k e h slot entry work full =
      step_open text w k e slot entry work ∙ rw (ap (at_bound w.depth) h.bound_is ∙ full)

  pub opened :
      (o : List Container) (c : Container) (k e : ℕ) (s : WalkState)
      → Holds bound w o
      → slot_at text here ≡ k
      → entry_at w.state k ≡ e
      → e - bit_and e 15 ≡ 0x20
      → state_of (bit_and e 15) ≡ s
      → bit_and k 1 ≡ kind_bit c
      → leb bound w.depth ≡ false
      → Taken text bound w k (c ∷ o) s (suc here)
  opened o c k e s h slot entry work next bit free = record {
    walker' = record w {
      kinds = set_kind w.kinds w.depth (kind_bit c);
      i = suc here;
      depth = suc w.depth;
      state = s;
    };
    step_is =
        step_open text w k e slot entry work
        ∙ rw (ap (at_bound w.depth) h.bound_is ∙ free) (rw (next, bit));
    holds = Holds-open bound w o c (suc here) s h;
    state_is = refl;
    index_is = refl;
  }
