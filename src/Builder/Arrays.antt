-- ===== src/Builder/Arrays.antt =====
-- An array of strings: its elements in order, a comma between two.
use go_jsonfast.Base.{
  Bool, true, false, List, [], ◌∷◌, ◌++◌, ◌≡◌, ap, sym, ◌∙◌, if◌then◌else◌, Bytes, append_assoc,
  append-nil,
}
use go_jsonfast.Swar.Lanes.{AreBytes}
use go_jsonfast.Escape.{escape_string}
use go_jsonfast.Builder.{
  Builder, sep, append_quoted, add_string_element, add_string_elements, append_string_array,
  begin_array, end_array,
}
use go_jsonfast.Builder.Twins.{append_escaped-escape_string}

abbrev pub quoted : Bytes → Bytes
quoted p = b'"' ∷ (escape_string p ++ b'"' ∷ [])

-- The texts with a comma between two, behind an element or not.
abbrev pub joined : Bool → List Bytes → Bytes
joined behind [] = []
joined behind (v ∷ values) = (if behind then b',' ∷ quoted v else quoted v) ++ joined true values

abbrev pub AreTexts : List Bytes → Type 0
AreTexts [] = Unit {0}
AreTexts (v ∷ values) = AreBytes v × AreTexts values

append_quoted-quoted :
    (p : Bytes) (b : Builder)
    → AreBytes p
    → append_quoted p b ≡ record b { buf = b.buf ++ quoted p }
unfolding append_quoted
append_quoted-quoted p b bytes =
    ap (λ w. record b { buf = w })
      (ap (λ w. w ++ b'"' ∷ []) (append_escaped-escape_string (b.buf ++ b'"' ∷ []) p bytes)
        ∙ append_assoc (b.buf ++ b'"' ∷ []) (escape_string p) (b'"' ∷ [])
        ∙ append_assoc b.buf (b'"' ∷ []) (escape_string p ++ b'"' ∷ []))

after_sep :
    (needs : Bool) (buf v : Bytes) (values : List Bytes)
    → ((if needs then buf ++ b',' ∷ [] else buf) ++ quoted v) ++ joined true values
      ≡ buf ++ joined needs (v ∷ values)
after_sep true buf v values =
    append_assoc (buf ++ b',' ∷ []) (quoted v) (joined true values)
    ∙ append_assoc buf (b',' ∷ []) (quoted v ++ joined true values)
after_sep false buf v values = append_assoc buf (quoted v) (joined true values)

elements_text :
    (values : List Bytes) (b : Builder)
    → AreTexts values
    → (add_string_elements values b).buf ≡ b.buf ++ joined (b.need_sep) values
unfolding add_string_elements add_string_element sep
elements_text [] b h = sym (append-nil (b.buf))
elements_text (v ∷ values) b (bytes, h) =
    elements_text values (append_quoted v (sep b)) h
    ∙ ap (λ c. c.buf ++ joined (c.need_sep) values) (append_quoted-quoted v (sep b) bytes)
    ∙ after_sep (b.need_sep) (b.buf) v values

-- appendStringArray writes behind the buffer a bracket, every text escaped between quotes with
-- one comma between two, and a bracket, and the next value gets a comma, for texts of bytes.
pub append_string_array-joined :
    (values : List Bytes) (b : Builder)
    → AreTexts values
    → append_string_array values b
      ≡ record { buf = b.buf ++ b'[' ∷ (joined false values ++ b']' ∷ []); need_sep = true }
unfolding append_string_array begin_array end_array
append_string_array-joined values b h =
    ap (λ w. record { buf = w; need_sep = true })
      (ap (λ w. w ++ b']' ∷ []) (elements_text values (begin_array b) h)
        ∙ append_assoc (b.buf ++ b'[' ∷ []) (joined false values) (b']' ∷ [])
        ∙ append_assoc b.buf (b'[' ∷ []) (joined false values ++ b']' ∷ []))
