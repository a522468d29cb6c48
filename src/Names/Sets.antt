-- ===== src/Names/Sets.antt =====
-- nameSet.add is the insertion into a set of names, in its table and in its map.
use go_jsonfast.Base.{
  ℕ, zero, suc, ◌-◌, ◌<◌, ◌≤◌, Bool, true, false, ◌||◌, not, List, [], ◌∷◌, ◌++◌, ◌≡◌, ◌≢◌, ◌⊎◌,
  inl, inr, refl, sym, ap, ◌∙◌, arith, ltb, ◌==◌, ==_iff, if◌then◌else◌, Bool-cases, length,
  length-append, get_or, set, get_or-set, get_or-set_other, length-set, replicate, Bytes, subst,
  append-nil,
}
use go_jsonfast.Scan.{bytes_eq}
use go_jsonfast.Scan.Texts.{bytes_eq_iff}
use go_jsonfast.Names.{
  NameSet, name_slots, inline_names, no_names, slot_of, has_name, insert, probe, add, is_empty,
}
use go_jsonfast.Names.Lists.{
  count_taken, count_taken-set, get_or-append, get_or-last, has_name_at, has_name-append,
}
use go_jsonfast.Names.Probes.{
  probed, Stored, IsTable, Passed, Probing, duplicate, fresh, probe-Probing,
}

-- The names of a set, in some order.
abbrev pub names_of : NameSet → List Bytes
names_of s = if is_empty s.spill then s.inline else s.spill

-- A set within its invariant: its names spill, or its table is one.
abbrev pub IsNameSet : NameSet → Type 0
IsNameSet s = (is_empty s.spill ≡ false) ⊎ ((s.spill ≡ []) × IsTable s)

pub no_names-IsTable : IsTable no_names
no_names-IsTable = record {
  sized = refl;
  taken = none_taken;
  few = omega arith;
  inside = free 64;
  stored = λ a lt. absurd (omega arith);
}
  where
    none_taken : count_taken (replicate name_slots 0) ≡ 0
    none_taken = unfold count_taken in refl

    free : (n k : ℕ) → get_or (replicate n 0) k 0 ≤ 0
    free zero k = omega arith
    free (suc n) zero = omega arith
    free (suc n) (suc k) = free n k

pub no_names-IsNameSet : IsNameSet no_names
no_names-IsNameSet = inr (refl, no_names-IsTable)

module _ (s : NameSet) (t : IsTable s) (x : Bytes) where
  -- A probe that meets a free slot has not missed the name.
  absent :
      (d : ℕ) → Passed s t x d → get_or s.slots (probed x d) 0 ≡ 0 → has_name x s.inline ≡ false
  absent d p free = elim (Bool-cases (has_name x s.inline)) [
    | inr none' ↦ none'
    | inl has ↦
        let (a, lt, is) = has_name_at x s.inline has in
        let (e, st) = t.stored a lt in
        let here : get_or s.slots (probed x e) 0 ≡ suc a =
          ap (λ n. get_or s.slots (probed n e) 0) (sym is) ∙ st.here in
        let way : (f : ℕ) → f < e → get_or s.slots (probed x f) 0 ≢ 0 =
          λ f less z. st.way f less (ap (λ n. get_or s.slots (probed n f) 0) is ∙ z) in
        absurd (met a d e is p free here way)
  ]
    where
      met :
          (a d e : ℕ)
          → get_or s.inline a [] ≡ x
          → Passed s t x d
          → get_or s.slots (probed x d) 0 ≡ 0
          → get_or s.slots (probed x e) 0 ≡ suc a
          → ((f : ℕ) → f < e → get_or s.slots (probed x f) 0 ≢ 0)
          → ⊥
      met a d e is p free here way = elim (Bool-cases (ltb e d)) [
        | inl before ↦
            let back : suc a - 1 ≡ a = omega arith in
            p.other e (ground arith)
              (ap (λ n. get_or s.inline (n - 1) []) here ∙ ap (λ n. get_or s.inline n []) back ∙ is)
        | inr after ↦ elim (Bool-cases (d == e)) [
          | inl same ↦
              let same' = ap (λ n. get_or s.slots (probed x n) 0) ((==_iff d e).0 same) in
              omega (arith, same', free, here)
          | inr later ↦ way d (ground arith) free
        ]
      ]

  module _ (d : ℕ) (low : d < name_slots) (p : Passed s t x d)
      (free : get_or s.slots (probed x d) 0 ≡ 0) (room : length s.inline < inline_names) where
    abbrev k : ℕ
    k = probed x d

    abbrev next : NameSet
    next = record s { inline = s.inline ++ x ∷ []; slots = set s.slots k (suc (length s.inline)) }

    in_slots : k < length s.slots
    in_slots = omega (arith, t.sized)

    old_slot : (j : ℕ) → get_or s.slots j 0 ≢ 0 → get_or next.slots j 0 ≡ get_or s.slots j 0
    old_slot j busy =
        get_or-set_other s.slots k j (suc (length s.inline)) 0
          (λ e. busy (ap (λ n. get_or s.slots n 0) (sym e) ∙ free))

    old_name : (a : ℕ) → a < length s.inline → get_or next.inline a [] ≡ get_or s.inline a []
    old_name a lt = get_or-append s.inline (x ∷ []) a [] lt

    new-Stored : Stored next (length s.inline) d
    new-Stored =
        let name : get_or next.inline (length s.inline) [] ≡ x = get_or-last s.inline x [] in
        record {
          round = low;
          here =
              ap (λ n. get_or next.slots (probed n d) 0) name
              ∙ get_or-set s.slots k (suc (length s.inline)) 0 in_slots;
          way = λ e lt z.
              let at : get_or next.slots (probed x e) 0 ≡ 0 =
                ap (λ n. get_or next.slots (probed n e) 0) (sym name) ∙ z in
              p.busy e lt (sym (old_slot (probed x e) (p.busy e lt)) ∙ at);
        }

    old-Stored : (a e : ℕ) → a < length s.inline → Stored s a e → Stored next a e
    old-Stored a e lt st =
        let name = old_name a lt in
        record {
          round = st.round;
          here =
              ap (λ n. get_or next.slots (probed n e) 0) name
              ∙ old_slot (probed (get_or s.inline a []) e) (λ z. ground (arith, st.here))
              ∙ st.here;
          way = λ f less z.
              let y = get_or s.inline a [] in
              let at : get_or next.slots (probed y f) 0 ≡ 0 =
                ap (λ n. get_or next.slots (probed n f) 0) (sym name) ∙ z in
              st.way f less (sym (old_slot (probed y f) (st.way f less)) ∙ at);
        }

    pub next-IsTable : IsTable next
    next-IsTable = record {
      sized = length-set s.slots k (suc (length s.inline)) ∙ t.sized;
      taken =
          count_taken-set s.slots k (suc (length s.inline)) in_slots free (omega arith)
          ∙ omega (arith, t.taken, length-append s.inline (x ∷ []));
      few = omega (arith, length-append s.inline (x ∷ []));
      inside = λ j. elim (Bool-cases (k == j)) [
        | inl same ↦
            let here = get_or-set s.slots k (suc (length s.inline)) 0 in_slots in
            omega (
              arith,
              here,
              length-append s.inline (x ∷ []),
              ap (λ n. get_or next.slots n 0) ((==_iff k j).0 same),
            )
        | inr other ↦
            let there =
              get_or-set_other s.slots k j (suc (length s.inline)) 0 (λ e. cc ((==_iff k j).1 e)) in
            omega (arith, there, t.inside j, length-append s.inline (x ∷ []))
      ];
      stored = λ a lt. elim (Bool-cases (a == length s.inline)) [
        | inl last ↦
            (d, subst (λ n. Stored next n d) (sym ((==_iff a (length s.inline)).0 last)) new-Stored)
        | inr before ↦
            let less : a < length s.inline = ground (arith, length-append s.inline (x ∷ [])) in
            let (e, st) = t.stored a less in (e, old-Stored a e less st)
      ];
    }

pub has_name_cons :
    (y x : Bytes) (l : List Bytes) → has_name y (x ∷ l) ≡ bytes_eq x y || has_name y l
unfolding has_name
has_name_cons y x l = refl

has_name_one : (y x : Bytes) → has_name y (x ∷ []) ≡ bytes_eq x y
unfolding has_name
has_name_one y x = elim (Bool-cases (bytes_eq x y)) [ inl e ↦ rw e | inr e ↦ rw e ]

or_comm : (a b : Bool) → a || b ≡ b || a
or_comm true true = refl
or_comm true false = refl
or_comm false true = refl
or_comm false false = refl

-- What add does: it reports a name that is new, and the set holds it besides those it held.
pub record Added (s : NameSet) (x : Bytes) (r : NameSet × Bool) : Type 0 where
  pub reports : r.1 ≡ not (has_name x (names_of s))
  pub holds : (y : Bytes) → has_name y (names_of r.0) ≡ bytes_eq x y || has_name y (names_of s)
  pub kept : IsNameSet r.0

held :
    (x : Bytes) (l : List Bytes)
    → has_name x l ≡ true
    → (y : Bytes) → has_name y l ≡ bytes_eq x y || has_name y l
held x l has y = elim (Bool-cases (bytes_eq x y)) [
  | inl same ↦ rw (same, ← (bytes_eq_iff x y).0 same) has
  | inr other ↦ rw other
]

add_spilled : (s : NameSet) (x : Bytes) → is_empty s.spill ≡ false → Added s x (add s x)
unfolding add
add_spilled s x spilled = elim (Bool-cases (has_name x s.spill)) [
  | inl has ↦
      rw (spilled, has)
        (record {
          reports = rw (spilled, has);
          holds = rw spilled (held x s.spill has);
          kept = inl spilled;
        })
  | inr new ↦
      rw (spilled, new)
        (record {
          reports = rw (spilled, new);
          holds = λ y. rw spilled (has_name_cons y x s.spill);
          kept = inl refl;
        })
]

add_inserted :
    (s : NameSet) (x : Bytes) (d : ℕ) (t : IsTable s)
    → s.spill ≡ []
    → d < name_slots
    → Passed s t x d
    → get_or s.slots (probed x d) 0 ≡ 0
    → Added s x (insert s x (probed x d), true)
unfolding insert
add_inserted s x d t nil low p free =
    let new = absent s t x d p free in
    elim (Bool-cases (length s.inline == inline_names)) [
      | inl full ↦ rw full (record {
        reports = rw nil (rw new);
        holds = λ y. rw nil (
            has_name_cons y x (s.inline ++ [])
            ∙ ap (λ l. bytes_eq x y || has_name y l) (append-nil s.inline));
        kept = inl refl;
      })
      | inr part ↦
          let room : length s.inline < inline_names = ground (arith, t.few) in
          rw part (record {
            reports = rw nil (rw new);
            holds = λ y. rw nil (
                has_name-append y s.inline (x ∷ [])
                ∙ ap (λ b. has_name y s.inline || b) (has_name_one y x)
                ∙ or_comm (has_name y s.inline) (bytes_eq x y));
            kept = inr (nil, next-IsTable s t x d low p free room);
          })
    ]

first_probe : (x : Bytes) → slot_of x ≡ probed x 0
unfolding slot_of
first_probe x = omega arith

-- The probe of add in a table within its invariant ends within one round for each slot, wherever
-- the hash starts it: the name is among those held and the set stays as it is, or the name is
-- inserted at a free slot, behind slots of other names only.
pub add-Probing : (s : NameSet) (x : Bytes) (t : IsTable s) → Probing s t x name_slots (slot_of x)
add-Probing s x t =
    probe-Probing s t x name_slots 0 (slot_of x) (omega arith) (first_probe x)
      (record { busy = λ e lt. absurd (omega arith); other = λ e lt. absurd (omega arith) })

-- add of a set of names within its invariant reports whether the name is new, and leaves a set
-- within the invariant that holds the name besides the former ones, also where the table is full
-- and the names spill.
pub add-Added : (s : NameSet) (x : Bytes) → IsNameSet s → Added s x (add s x)
add-Added s x (inl spilled) = add_spilled s x spilled
add-Added s x (inr (nil, t)) =
    let inside : add s x ≡ probe name_slots s x (slot_of x) = unfold add in rw nil in
    elim (add-Probing s x t) [
      | duplicate has e ↦ subst (Added s x) (sym (inside ∙ e)) (record {
        reports = rw nil (rw has);
        holds = rw nil (held x s.inline has);
        kept = inr (nil, t);
      })
      | fresh d low p free e ↦
          subst (Added s x) (sym (inside ∙ e)) (add_inserted s x d t nil low p free)
    ]
