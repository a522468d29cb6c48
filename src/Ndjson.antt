-- ===== src/Ndjson.antt =====
-- ndjson.go: records with a newline behind each. The capacity of the buffer, and the pool with its
-- limit on it, are not in the model.
use go_jsonfast.Base.{
  ℕ, suc, ◌+◌, false, List, Option, some, none, [], ◌∷◌, ◌++◌, ◌≡◌, refl, ap, ap₂, sym, ◌∙◌, arith,
  ◌==◌, if◌then◌else◌, length, Bytes, append_assoc, append-nil,
}

pub record BatchWriter : Type 0 where
  pub buf : Bytes
  pub count : ℕ

abbrev pub new_batch_writer : BatchWriter
new_batch_writer = record { buf = []; count = 0 }

unfoldable pub reset : BatchWriter → BatchWriter
reset w = record { buf = []; count = 0 }

-- AcquireBatchWriter, on what the pool gives.
unfoldable pub acquire_batch_writer : Option BatchWriter → BatchWriter
acquire_batch_writer (some w) = reset w
acquire_batch_writer none = new_batch_writer

unfoldable pub append : Bytes → BatchWriter → BatchWriter
append entry w = record { buf = (w.buf ++ entry) ++ b'\n' ∷ []; count = suc w.count }

unfoldable pub append_string : Bytes → BatchWriter → BatchWriter
append_string entry w = append entry w

abbrev pub append_all : List Bytes → BatchWriter → BatchWriter
append_all [] w = w
append_all (entry ∷ entries) w = append_all entries (append entry w)

-- The records of a batch: what stands before each newline.
abbrev pub records_from : Bytes → Bytes → List Bytes
records_from line [] = []
records_from line (c ∷ s) =
    let ended = line ∷ records_from [] s in
    let longer = records_from (line ++ c ∷ []) s in if c == b'\n' then ended else longer

-- What the caller of Append vouches for.
abbrev pub HasNoNewline : Bytes → Type 0
HasNoNewline [] = Unit {0}
HasNoNewline (c ∷ s) = ((c == b'\n') ≡ false) × HasNoNewline s

abbrev pub HaveNoNewline : List Bytes → Type 0
HaveNoNewline [] = Unit {0}
HaveNoNewline (entry ∷ entries) = HasNoNewline entry × HaveNoNewline entries

abbrev pub lines : List Bytes → Bytes
lines [] = []
lines (entry ∷ entries) = entry ++ (b'\n' ∷ lines entries)

append_all-lines :
    (entries : List Bytes) (w : BatchWriter)
    → append_all entries w
      ≡ record { buf = w.buf ++ lines entries; count = w.count + length entries }
unfolding append
append_all-lines [] w =
    let same : w.count ≡ w.count + 0 = omega arith in
    ap₂ (λ b c. record { buf = b; count = c }) (sym (append-nil w.buf)) same
append_all-lines (entry ∷ entries) w =
    let count : suc w.count + length entries ≡ w.count + suc (length entries) = omega arith in
    append_all-lines entries (append entry w)
    ∙ ap₂ (λ b c. record { buf = b; count = c })
        (append_assoc (w.buf ++ entry) (b'\n' ∷ []) (lines entries)
          ∙ append_assoc w.buf entry (b'\n' ∷ lines entries))
        count

records_from-line :
    (line entry s : Bytes)
    → HasNoNewline entry
    → records_from line (entry ++ (b'\n' ∷ s)) ≡ (line ++ entry) ∷ records_from [] s
records_from-line line [] s h = ap (λ l. l ∷ records_from [] s) (sym (append-nil line))
records_from-line line (c ∷ entry) s (h, h') = rw h (
    records_from-line (line ++ c ∷ []) entry s h'
    ∙ ap (λ l. l ∷ records_from [] s) (append_assoc line (c ∷ []) entry))

records_from-lines :
    (entries : List Bytes) → HaveNoNewline entries → records_from [] (lines entries) ≡ entries
records_from-lines [] h = refl
records_from-lines (entry ∷ entries) (h, h') =
    records_from-line [] entry (lines entries) h ∙ ap (◌∷◌ entry) (records_from-lines entries h')

-- A batch written from an acquired writer, whatever the pool gave, splits at its newlines into
-- the records appended, in order, and counts them, where no record holds a newline.
pub records_from-append_all :
    (pooled : Option BatchWriter) (entries : List Bytes)
    → HaveNoNewline entries
    → (records_from [] (append_all entries (acquire_batch_writer pooled)).buf ≡ entries)
      × ((append_all entries (acquire_batch_writer pooled)).count ≡ length entries)
unfolding acquire_batch_writer reset
records_from-append_all none entries h =
    let e = append_all-lines entries new_batch_writer in
    (
      ap (λ w. records_from [] w.buf) e ∙ records_from-lines entries h,
      ap (λ w. w.count) e ∙ omega arith,
    )
records_from-append_all (some w) entries h =
    let e = append_all-lines entries new_batch_writer in
    (
      ap (λ w. records_from [] w.buf) e ∙ records_from-lines entries h,
      ap (λ w. w.count) e ∙ omega arith,
    )
