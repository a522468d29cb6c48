-- ===== src/Walk/Grammar.antt =====
-- The JSON grammar over the indices of a text, with a bound on the depth: whitespace may stand
-- before each token, a string is one by the rule of ValidUTF8, and a scalar a number or literal.
use go_jsonfast.Base.{ℕ, suc, some, ◌≡◌, Bytes, byte_at}
use go_jsonfast.Scan.{skip_ws, skip_scalar}
use go_jsonfast.Strings.{strict_end}

module _ (text : Bytes) where
  -- The next token at `i` begins with this byte, and the index past that byte.
  abbrev pub Token : ℕ → ℕ → Type 0
  Token i c = byte_at text (skip_ws text i) ≡ some c

  abbrev pub after : ℕ → ℕ
  after i = suc (skip_ws text i)

  -- The next token at `i` is a string that ends at `j`.
  abbrev pub IsString : ℕ → ℕ → Type 0
  IsString i j = Token i b'"' × (strict_end text (skip_ws text i) ≡ some j)

  mutual
    -- From `i` to `j` stands a value whose containers nest at most `n` deep.
    pub data Value : ℕ → ℕ → ℕ → Type 0 where
      string : {n i j : ℕ} → IsString i j → Value n i j
      scalar : {n i j : ℕ} → skip_scalar text (skip_ws text i) ≡ some j → Value n i j
      no_elements :
          {n i : ℕ} → Token i b'[' → Token (after i) b']' → Value (suc n) i (after (after i))
      array : {n i j : ℕ} → Token i b'[' → Elements n (after i) j → Value (suc n) i j
      no_members :
          {n i : ℕ} → Token i b'{' → Token (after i) b'}' → Value (suc n) i (after (after i))
      object : {n i j : ℕ} → Token i b'{' → Members n (after i) j → Value (suc n) i j

    -- The elements of an array and its bracket.
    pub data Elements : ℕ → ℕ → ℕ → Type 0 where
      last_element : {n i j : ℕ} → Value n i j → Token j b']' → Elements n i (after j)
      more_elements :
          {n i j k : ℕ} → Value n i j → Token j b',' → Elements n (after j) k → Elements n i k

    -- The members of an object and its brace.
    pub data Members : ℕ → ℕ → ℕ → Type 0 where
      last_member :
          {n i a j : ℕ}
          → IsString i a
          → Token a b':'
          → Value n (after a) j
          → Token j b'}'
          → Members n i (after j)
      more_members :
          {n i a j k : ℕ}
          → IsString i a
          → Token a b':'
          → Value n (after a) j
          → Token j b','
          → Members n (after j) k
          → Members n i k
