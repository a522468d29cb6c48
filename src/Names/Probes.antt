-- ===== src/Names/Probes.antt =====
-- The table of a name set: every name stands on its own way of probes, which is never broken, and
-- half of the slots are free, so each probe ends.
use go_jsonfast.Base.{
  ℕ, zero, suc, ◌+◌, ◌-◌, ◌%◌, ◌<◌, ◌≤◌, true, false, [], ◌≡◌, ◌≢◌, inl, inr, sym, ap, ◌∙◌, arith,
  ◌==◌, ==_iff, Bool-cases, length, get_or, Bytes, subst,
}
use go_jsonfast.Scan.{bytes_eq}
use go_jsonfast.Scan.Texts.{bytes_eq_iff}
use go_jsonfast.Names.{NameSet, name_slots, inline_names, slot_of, has_name, insert, probe}
use go_jsonfast.Names.Lists.{count_taken, all_taken, has_name_of}

-- The slot that the probe for a name looks at in its round `d`.
abbrev pub probed : Bytes → ℕ → ℕ
probed name d = (slot_of name + d) % name_slots

-- The probe for the name at index `a` meets it in round `d`, and no free slot before.
pub record Stored (s : NameSet) (a d : ℕ) : Type 0 where
  pub round : d < name_slots
  pub here : get_or s.slots (probed (get_or s.inline a []) d) 0 ≡ suc a
  pub way : (e : ℕ) → e < d → get_or s.slots (probed (get_or s.inline a []) e) 0 ≢ 0

pub record IsTable (s : NameSet) : Type 0 where
  pub sized : length s.slots ≡ name_slots
  pub taken : count_taken s.slots ≡ length s.inline
  pub few : length s.inline ≤ inline_names
  pub inside : (k : ℕ) → get_or s.slots k 0 ≤ length s.inline
  pub stored : (a : ℕ) → a < length s.inline → (d : ℕ) × Stored s a d

module _ (s : NameSet) (t : IsTable s) (x : Bytes) where
  -- What the rounds before `d` saw: names, and none of them this one.
  pub record Passed (d : ℕ) : Type 0 where
    pub busy : (e : ℕ) → e < d → get_or s.slots (probed x e) 0 ≢ 0
    pub other : (e : ℕ) → e < d → get_or s.inline (get_or s.slots (probed x e) 0 - 1) [] ≢ x

  pub data Probing (rounds k : ℕ) : Type 0 where
    duplicate : has_name x s.inline ≡ true → probe rounds s x k ≡ (s, false) → Probing rounds k
    fresh :
        (d : ℕ)
        → d < name_slots
        → Passed d
        → get_or s.slots (probed x d) 0 ≡ 0
        → probe rounds s x k ≡ (insert s x (probed x d), true)
        → Probing rounds k

  pass :
      (d : ℕ)
      → Passed d
      → get_or s.slots (probed x d) 0 ≢ 0
      → get_or s.inline (get_or s.slots (probed x d) 0 - 1) [] ≢ x
      → Passed (suc d)
  pass d p some_name differs = record {
    busy = λ e lt. elim (Bool-cases (e == d)) [
      | inl last ↦
          λ z. some_name (ap (λ n. get_or s.slots (probed x n) 0) (sym ((==_iff e d).0 last)) ∙ z)
      | inr before ↦ p.busy e (ground arith)
    ];
    other = λ e lt. elim (Bool-cases (e == d)) [
      | inl last ↦ λ z. differs (
          ap (λ n. get_or s.inline (get_or s.slots (probed x n) 0 - 1) [])
            (sym ((==_iff e d).0 last))
          ∙ z)
      | inr before ↦ p.other e (ground arith)
    ];
  }

  -- A table is never full.
  some_free : Passed name_slots → ⊥
  some_free p =
      let full = all_taken s.slots (λ j lt z.
        p.busy ((j + name_slots - slot_of x % name_slots) % name_slots) (omega arith)
          (ap (λ n. get_or s.slots n 0) (omega (arith, t.sized)) ∙ z)) in
      omega (arith, full, t.sized, t.taken, t.few)

  pub probe-Probing :
      (rounds d k : ℕ) → rounds + d ≡ name_slots → k ≡ probed x d → Passed d → Probing rounds k
  unfolding probe
  probe-Probing zero d k sum at p = absurd (some_free (subst Passed (omega (arith, sum)) p))
  probe-Probing (suc rounds) d k sum at p =
      let slot = get_or s.slots k 0 in
      let here : slot ≡ get_or s.slots (probed x d) 0 = ap (λ n. get_or s.slots n 0) at in
      elim (Bool-cases (slot == 0)) [
        | inl free ↦
            fresh d (omega arith) p (sym here ∙ (==_iff slot 0).0 free)
              (rw (free, probe) (ap (λ n. (insert s x n, true)) at))
        | inr busy ↦
            let some_name : slot ≢ 0 = ground arith in
            elim (Bool-cases (bytes_eq (get_or s.inline (slot - 1) []) x)) [
              | inl same ↦
                  duplicate
                    (has_name_of x s.inline (slot - 1) (omega (arith, t.inside k))
                      ((bytes_eq_iff (get_or s.inline (slot - 1) []) x).0 same))
                    (rw (busy, probe) (rw same))
              | inr other ↦
                  let p' =
                    pass d p (λ z. some_name (here ∙ z))
                      (λ z. cc (
                        (bytes_eq_iff (get_or s.inline (slot - 1) []) x).1
                          (ap (λ n. get_or s.inline (n - 1) []) here ∙ z))) in
                  elim (probe-Probing rounds (suc d) (suc k % name_slots) (omega arith)
                    (omega arith) p') [
                      | duplicate has e ↦ duplicate has (rw (busy, probe) (rw other e))
                      | fresh d' lt p″ free e ↦ fresh d' lt p″ free (rw (busy, probe) (rw other e))
                    ]
            ]
      ]
