-- ===== src/Lib.antt =====
-- go-jsonfast: JSON text written into byte buffers, scanned, validated and decoded in place.
--
-- A text is a list of bytes and an index into it a number; a Go result `(v, ok)` is an option,
-- and words of 64 and 32 bits are numbers with their wrap-around and complements written out.
-- The modules, and the files of the repository that they follow:
--   Base        names of the libraries, Boolean tests, lists, and bitwise operations on fields.
--   Swar        swar.go, swar_purego.go, swar_unsafe.go: eight bytes as one word. plainMask and
--               bodyMask are the word tests, plainRun and bodyRun the scans a word at a time,
--               plainBytes and bodyBytes the same a byte at a time. Lanes, Masks, Dropped, Shifted
--               and Runs prove what the words tell of their bytes.
--   Scan        scan.go: whitespace, literals and numbers; IsNumber of scalar.go. Number holds the
--               number grammar.
--   Utf8        what the source uses of unicode/utf8 and unicode/utf16.
--   Strings     the string tokens: cleanRun of swar.go, stringEnd, runeEnd and skipStringAt of
--               scan.go, the escapes of decode.go (runeAt, shortEscape, unicodeEscape, hex4),
--               strictEnd of validate.go. Grammar holds string bodies as grammar, Units and Runs
--               what the runs pass, Reading, Pieces and Loop the loop, Exact what it returns.
--   Decode      decode.go: tokenAt, decodeFrom, DecodeString, matchedPrefix and EqualString. Content
--               holds what a body stands for as a relation; Pieces and Forward lead from a round of
--               the loops to a unit and back, Exact and Tokens give what the decoders return, Equal
--               the comparison; Bodies, Total and Ends lead to the scanners of Strings, Resume to a
--               token that is skipped from the middle, Escaped to what Escape writes.
--   Walk        validate.go: ValidUTF8 and its walker, a table of states with a stack of one bit
--               for each open container (Kinds). Grammar holds JSON as grammar and Moves the same
--               as steps on a stack of open containers. Table reads the entries, Tokens the slots;
--               Steps, Taken, Invariant, Outcome and Forward lead from a round to a step and back,
--               Exact from finish to the grammar, Valid to ValidUTF8.
--   Names       names.go: sets of names, a table with open addressing that spills to a map. Probes
--               follows a probe through the table, Sets holds the set that add refines.
--   Decimal     number.go and scalar.go: appendUint64, appendInt64, DecodeUint64, DecodeInt64.
--   Escape      escape.go: appendEscaped and EscapeString. Rules holds escaping as rules.
--   Builder     builder.go and fieldkey.go: the writers and the separator between values.
--   Ndjson      ndjson.go: batches of records.
--   Values      scan.go and kind.go: skipValueAt, skipBraced, bracedRun and KindOf.
--   Iterate     iterate.go and errors.go: the walks over the members and elements of a
--               container, and the lookups. Items holds what a walk hands out as a list, Elements and Members the
--               walks over it, Matches a name compared in place, Lookups the lookup by name.
--   Cursor      cursor.go: a position at a value of a document.
--   Walks       validate.go and iterate.go: WalkStrings, WalkTokens and what they file. Walk.Rounds,
--               Walk.Resume and Onward give what finish returns behind each token, Verdict what an
--               error tells of the text, Strings and Tokens the walks. Objects holds IterateObject, IterateDocument
--               and restMembers: Members the members of the grammar one at a time, Heads and Ends what
--               the code reads of one, Loops and Verdict its loops, Exact what they return.
--   Flatten     flatten.go: FlattenObject. Moves and Verdict follow its walk, Written and
--               Grown its buffer.
--   Decoder     value.go: DecodeValue. Verdict follows its walk.
--   Tests       the theorems at concrete inputs, and runs.
-- The parts meet where the code's do: Strings reads through the runs of Swar, Escape writes through
-- them, the walker of Walk calls the string and scalar scanners, Builder writes with Escape
-- and Decimal, and Iterate reads names by Decode, compares them by Names and skips values by Values.
-- A function that a caller hands to a walk is a parameter, a step on a state of the caller's own
-- that may fail with an error of the caller's.
--
-- Loops run on a count of rounds: one for each byte of the text and one more where each round
-- passes a byte (runs, strings, escaping, decoding, the walker), two more for the items of a
-- container, one for each of the 64 slots of a table of names, of which at most half is
-- taken, the 64 bits of a word for the number of trailing zeros, and 10 for the digits of a 64-bit
-- number, two in a round. The theorems on what such a loop returns show the count to be enough.
--
-- Not modelled: floats, times and Go values (number.go, time.go, encode.go), since they rest on
-- strconv, time and reflect; capacities of buffers and maps, the arena that decoded strings lie in,
-- and the pools (pool.go). walkObject keeps one walker for the values of the members, and valueEnd
-- walks each anew from its top, so the stack of bits that a value leaves behind is left out, which
-- value_end_iff shows not to matter.
pub mod Base
pub mod Swar
pub mod Scan
pub mod Utf8
pub mod Strings
pub mod Decode
pub mod Walk
pub mod Names
pub mod Decimal
pub mod Escape
pub mod Builder
pub mod Ndjson
pub mod Values
pub mod Iterate
pub mod Cursor
pub mod Walks
pub mod Flatten
pub mod Decoder
pub mod Tests
