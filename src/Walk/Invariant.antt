-- ===== src/Walk/Invariant.antt =====
-- The walker's depth and stack of bits against the open containers, innermost first.
use go_jsonfast.Base.{
  ℕ, suc, ◌+◌, ◌*◌, ◌/◌, ◌<◌, ◌≤◌, true, false, List, [], ◌∷◌, ◌≡◌, refl, ap, sym, ◌∙◌, arith, ◌==◌,
  ==_iff, pos, length,
}
use go_jsonfast.Walk.{WalkState, Walker, closed}
use go_jsonfast.Walk.Kinds.{KindStack, set_kind, get_kind}
use go_jsonfast.Walk.Kinds.Stack.{get_kind-set_kind, set_kind-room}
use go_jsonfast.Walk.Moves.{Container, in_array, in_object, around}

abbrev pub kind_bit : Container → ℕ
kind_bit in_array = 1
kind_bit in_object = 0

-- The stack of bits holds the kinds of the open containers, the innermost deepest.
abbrev pub KindsHold : KindStack → List Container → Type 0
KindsHold s [] = Unit {0}
KindsHold s (c ∷ o) = (get_kind s (length o) ≡ kind_bit c) × KindsHold s o

-- A walker within its invariant: its bound, its stack and its depth are those of open containers.
pub record Holds (bound : ℕ) (w : Walker) (o : List Container) : Type 0 where
  pub bound_is : w.max_depth ≡ pos bound
  pub depth_is : w.depth ≡ length o
  pub inline : length w.kinds.shallow ≡ 4
  pub room : length o ≤ 256 + 64 * length w.kinds.deep
  pub kinds_are : KindsHold w.kinds o

pub closed-around :
    (s : KindStack) (o : List Container) → KindsHold s o → closed s (length o) ≡ around o
unfolding closed
closed-around s [] h = refl
closed-around s (in_array ∷ o) h = rw h.0
closed-around s (in_object ∷ o) h = rw h.0

-- A deeper write leaves what stands above it.
KindsHold-set_kind :
    (s : KindStack) (depth kind : ℕ) (o : List Container)
    → length s.shallow ≡ 4
    → depth / 64 ≤ 4 + length s.deep
    → kind < 2
    → length o ≤ depth
    → KindsHold s o
    → KindsHold (set_kind s depth kind) o
KindsHold-set_kind s depth kind [] four room small lt h = tt
KindsHold-set_kind s depth kind (c ∷ o) four room small lt (h, h') =
    let other : (depth == length o) ≡ false = ground arith in
    (
      get_kind-set_kind s depth kind (length o) four room small ∙ rw other h,
      KindsHold-set_kind s depth kind o four room small (omega arith) h',
    )

same_number : (n : ℕ) → (n == n) ≡ true
same_number n = (==_iff n n).1 refl

kind_bit-lt : (c : Container) → kind_bit c < 2
kind_bit-lt in_array = omega arith
kind_bit-lt in_object = omega arith

pub Holds-open :
    (bound : ℕ) (w : Walker) (o : List Container) (c : Container) (j : ℕ) (s : WalkState)
    → Holds bound w o
    → Holds bound
        (record w {
          kinds = set_kind w.kinds w.depth (kind_bit c);
          i = j;
          depth = suc w.depth;
          state = s;
        })
        (c ∷ o)
Holds-open bound w o c j s h =
    let space : w.depth / 64 ≤ 4 + length w.kinds.deep = omega (arith, h.room, h.depth_is) in
    let (four, wide, grown) = set_kind-room w.kinds w.depth (kind_bit c) h.inline space in
    let head =
      get_kind-set_kind w.kinds w.depth (kind_bit c) w.depth h.inline space (kind_bit-lt c)
      ∙ rw (same_number w.depth) in
    record {
      bound_is = h.bound_is;
      depth_is = ap suc h.depth_is;
      inline = four;
      room = omega (arith, wide, h.depth_is);
      kinds_are = (
        ap (get_kind (set_kind w.kinds w.depth (kind_bit c))) (sym h.depth_is) ∙ head,
        KindsHold-set_kind w.kinds w.depth (kind_bit c) o h.inline space (kind_bit-lt c)
            (omega (arith, h.depth_is)) h.kinds_are,
      );
    }
