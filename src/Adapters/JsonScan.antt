-- ===== src/Adapters/JsonScan.antt =====
-- adapters/internal/jsonscan/jsonscan.go: the structure of untrusted JSON. A json.Decoder is the tokens
-- that it still gives, and whether an error (`broken`) or the end of the input follows them.
pub mod Sound
pub mod Complete
use anime_portable.Prelude.{
  ℕ, zero, suc, ◌+◌, ◌*◌, ◌≤◌, ltb, if◌then◌else◌, length, Str, str_eq, ◌≡◌, Bool, true, false, not,
  ◌||◌, Option, none, some, List, [], ◌∷◌,
}

-- json.Token: the four delimiters, a string, and any other value.
pub data Token : Type 0 where
  open_object close_object open_array close_array : Token
  text : Str → Token
  other : ℕ → Token

-- Where the code is: at the start of scanValue, or in one of its loops; `seen` are the keys so far.
pub data Mode : Type 0 where
  value : Bool → Mode
  members : List Str → Mode
  elements : Mode

abbrev pub has_key : List Str → Str → Bool
has_key [] key = false
has_key (x ∷ xs) key = str_eq x key || has_key xs key

-- `closing, err := decoder.Token()` for an object and for an array.
abbrev pub close_members : Option (List Token) → Option (List Token)
close_members (some (close_object ∷ rest)) = some rest
close_members _ = none

abbrev pub close_elements : Option (List Token) → Option (List Token)
close_elements (some (close_array ∷ rest)) = some rest
close_elements _ = none

-- `if err := scanValue(...); err != nil { return err }` before what comes next.
abbrev pub and_then : Option (List Token) → (List Token → Option (List Token)) → Option (List Token)
and_then none next = none
and_then (some rest) next = next rest

module _ (broken : Bool) (max_depth : ℕ) where
  -- The end of the tokens in a loop: decoder.More is true only if an error is to come.
  abbrev pub at_end : Option (List Token)
  at_end = if broken then none else some []

  -- scanValue and its loops with fuel for their calls; the tokens that are left, or none on an error.
  unfoldable pub scan : ℕ → Mode → ℕ → List Token → Option (List Token)
  scan zero mode depth tokens = none
  scan (suc fuel) (value require_object) depth [] = none
  scan (suc fuel) (value require_object) depth (open_object ∷ tokens) =
      let inside = scan fuel (members []) depth tokens in
      if ltb max_depth depth then none else close_members inside
  scan (suc fuel) (value require_object) depth (open_array ∷ tokens) =
      let inside = scan fuel elements depth tokens in
      if ltb max_depth depth || require_object then none else close_elements inside
  scan (suc fuel) (value require_object) depth (close_object ∷ tokens) = none
  scan (suc fuel) (value require_object) depth (close_array ∷ tokens) = none
  scan (suc fuel) (value require_object) depth (text s ∷ tokens) =
      if ltb max_depth depth || require_object then none else some tokens
  scan (suc fuel) (value require_object) depth (other n ∷ tokens) =
      if ltb max_depth depth || require_object then none else some tokens
  scan (suc fuel) (members seen) depth [] = at_end
  scan (suc fuel) (members seen) depth (close_object ∷ tokens) = some (close_object ∷ tokens)
  scan (suc fuel) (members seen) depth (close_array ∷ tokens) = some (close_array ∷ tokens)
  scan (suc fuel) (members seen) depth (text key ∷ tokens) =
      let scanned = scan fuel (value false) (suc depth) tokens in
      if has_key seen key then none else and_then scanned (scan fuel (members (key ∷ seen)) depth)
  scan (suc fuel) (members seen) depth (token ∷ tokens) = none
  scan (suc fuel) elements depth [] = at_end
  scan (suc fuel) elements depth (close_object ∷ tokens) = some (close_object ∷ tokens)
  scan (suc fuel) elements depth (close_array ∷ tokens) = some (close_array ∷ tokens)
  scan (suc fuel) elements depth (token ∷ tokens) =
      and_then (scan fuel (value false) (suc depth) (token ∷ tokens)) (scan fuel elements depth)

  -- What is left after a value is the end of the input.
  abbrev is_eof : Option (List Token) → Bool
  is_eof (some []) = not broken
  is_eof _ = false

  -- Object; the fuel is enough, since a call for a value reads a token.
  unfoldable pub is_object : List Token → Bool
  is_object tokens = is_eof (scan (2 * length tokens + 2) (value true) 0 tokens)

-- A JSON value, the members of an object or the elements of an array.
pub data Kind : Type 0 where
  a_value some_members some_elements : Kind

pub data Node : Kind → Type 0 where
  string : Str → Node a_value
  scalar : ℕ → Node a_value
  object : Node some_members → Node a_value
  array : Node some_elements → Node a_value
  no_members : Node some_members
  member : Str → Node a_value → Node some_members → Node some_members
  no_elements : Node some_elements
  element : Node a_value → Node some_elements → Node some_elements

-- The tokens of a tree, before those that follow it.
unfoldable pub emit : {k : Kind} → Node k → List Token → List Token
emit (string s) rest = text s ∷ rest
emit (scalar n) rest = other n ∷ rest
emit (object inside) rest = open_object ∷ emit inside (close_object ∷ rest)
emit (array inside) rest = open_array ∷ emit inside (close_array ∷ rest)
emit no_members rest = rest
emit (member key node nodes) rest = text key ∷ emit node (emit nodes rest)
emit no_elements rest = rest
emit (element node nodes) rest = emit node (emit nodes rest)

-- No value of a tree at a depth is deeper than the limit, and no object has a key twice or a key that
-- has been seen.
unfoldable pub IsProper : ℕ → {k : Kind} → Node k → ℕ → List Str → Type 0
IsProper limit (string s) depth seen = depth ≤ limit
IsProper limit (scalar n) depth seen = depth ≤ limit
IsProper limit (object inside) depth seen = (depth ≤ limit) × IsProper limit inside depth []
IsProper limit (array inside) depth seen = (depth ≤ limit) × IsProper limit inside depth []
IsProper limit no_members depth seen = Unit
IsProper limit (member key node nodes) depth seen =
    (has_key seen key ≡ false)
    × IsProper limit node (suc depth) []
    × IsProper limit nodes depth (key ∷ seen)
IsProper limit no_elements depth seen = Unit
IsProper limit (element node nodes) depth seen =
    IsProper limit node (suc depth) [] × IsProper limit nodes depth []
