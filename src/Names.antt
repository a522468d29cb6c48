-- ===== src/Names.antt =====
-- names.go: sets of decoded names. The first names lie in a table with open addressing, of which at
-- most half is taken; more spill to a map, here the list of its keys.
pub mod Lists
pub mod Probes
pub mod Sets
use go_jsonfast.Base.{
  Option, some, none, ℕ, zero, suc, ◌+◌, ◌-◌, ◌*◌, ◌%◌, ◌^◌, Bool, true, false, ◌||◌, not, List, [],
  ◌∷◌, ◌++◌, ◌==◌, if◌then◌else◌, length, get_or, set, replicate, bit_xor, Bytes,
}
use go_jsonfast.Swar.{word_limit}
use go_jsonfast.Scan.{bytes_eq}

abbrev pub inline_names : ℕ
inline_names = 32

abbrev pub name_slots : ℕ
name_slots = 2 * inline_names

abbrev pub fnv_offset : ℕ
fnv_offset = 14695981039346656037

abbrev pub fnv_prime : ℕ
fnv_prime = 1099511628211

-- A slot holds 1 + the index in `inline` of the name hashed there, or 0. `inline` is the part of the
-- array that holds names, n long.
pub record NameSet : Type 0 where
  pub slots : List ℕ
  pub inline : List Bytes
  pub spill : List Bytes

-- nameSet{}
abbrev pub no_names : NameSet
no_names = record { slots = replicate name_slots 0; inline = []; spill = [] }

fnv : ℕ → Bytes → ℕ
fnv h [] = h
fnv h (c ∷ name) = fnv (bit_xor h c * fnv_prime % word_limit) name

unfoldable pub slot_of : Bytes → ℕ
unfolding fnv
slot_of name = fnv fnv_offset name % name_slots

-- A key of the map.
unfoldable pub has_name : Bytes → List Bytes → Bool
unfolding bytes_eq
has_name name [] = false
has_name name (x ∷ xs) = bytes_eq x name || has_name name xs

unfoldable pub insert : NameSet → Bytes → ℕ → NameSet
insert s name k =
    if length s.inline == inline_names
    then record s { spill = name ∷ (s.inline ++ s.spill) }
    else record s { inline = s.inline ++ name ∷ []; slots = set s.slots k (suc (length s.inline)) }

-- The probe of add. At most half of the slots are taken, so a round for each slot is enough.
unfoldable pub probe : ℕ → NameSet → Bytes → ℕ → NameSet × Bool
unfolding insert bytes_eq
probe zero s name k = (s, false)
probe (suc rounds) s name k =
    let at = get_or s.slots k 0 in
    elim (at == 0) [
      | true ↦ (insert s name k, true)
      | false ↦ elim (bytes_eq (get_or s.inline (at - 1) []) name) [
        | true ↦ (s, false)
        | false ↦ probe rounds s name (suc k % name_slots)
      ]
    ]

abbrev pub is_empty : List Bytes → Bool
is_empty [] = true
is_empty (_ ∷ _) = false

-- Whether no earlier name equals it.
unfoldable pub add : NameSet → Bytes → NameSet × Bool
unfolding probe has_name slot_of
add s name =
    if not (is_empty s.spill)
    then (if has_name name s.spill then (s, false) else (record s { spill = name ∷ s.spill }, true))
    else probe name_slots s name (slot_of name)

-- nameSet.reset, which may keep the room of the map.
unfoldable pub reset : NameSet → NameSet
reset s = no_names

-- The sets of the open objects, the innermost first.
unfoldable pub push_set : List NameSet → List NameSet
push_set sets = no_names ∷ sets

-- The sets of the objects open in a walk; `none` where the walk keeps no sets. The marks of the arena
-- only say where decoded names lie.
abbrev pub OpenObjects : Type 0
OpenObjects = Option (List NameSet)

unfoldable pub push : OpenObjects → OpenObjects
unfolding push_set
push none = some (push_set [])
push (some sets) = some (push_set sets)

-- Of objects that push opened.
unfoldable pub pop : OpenObjects → OpenObjects
pop none = none
pop (some []) = some []
pop (some (_ ∷ sets)) = some sets
