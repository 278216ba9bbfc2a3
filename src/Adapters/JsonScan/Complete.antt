-- ===== src/Adapters/JsonScan/Complete.antt =====
-- Every proper tree is accepted by Object of adapters/internal/jsonscan/jsonscan.go, within the fuel.
use anime_portable.Adapters.JsonScan.Sound.{object_sound}
use anime_portable.Adapters.JsonScan.{
  emit, Token, Kind, scan, Mode, IsProper, Node, a_value, close_object, some_members, value,
  close_array, string, members, some_elements, scalar, elements, object, array, member, element,
  no_members, no_elements, close_members, close_elements, has_key, is_object, and_then, is_eof,
  open_object,
}
use anime_portable.Prelude.{
  ℕ, zero, suc, ◌+◌, ◌*◌, ◌≤◌, ltb, if◌then◌else◌, length, Str, ◌≡◌, refl, ap, ◌∙◌, ◌↔◌, Bool, true,
  false, not, ◌||◌, Option, none, some, List, [], ◌∷◌, arith,
}

emit_longer : {k : Kind} (node : Node k) (rest : List Token) → length rest ≤ length (emit node rest)
unfolding emit
emit_longer (string s) rest = omega arith
emit_longer (scalar n) rest = omega arith
emit_longer (object inside) rest = omega (arith, emit_longer inside (close_object ∷ rest))
emit_longer (array inside) rest = omega (arith, emit_longer inside (close_array ∷ rest))
emit_longer no_members rest = omega arith
emit_longer (member key node nodes) rest =
    omega (arith, emit_longer node (emit nodes rest), emit_longer nodes rest)
emit_longer no_elements rest = omega arith
emit_longer (element node nodes) rest =
    omega (arith, emit_longer node (emit nodes rest), emit_longer nodes rest)

-- A value has a token of its own.
value_longer :
    (node : Node a_value) (rest : List Token) → suc (length rest) ≤ length (emit node rest)
unfolding emit
value_longer (string s) rest = omega arith
value_longer (scalar n) rest = omega arith
value_longer (object inside) rest = omega (arith, emit_longer inside (close_object ∷ rest))
value_longer (array inside) rest = omega (arith, emit_longer inside (close_array ∷ rest))

-- What stands after a loop: its closing delimiter.
data IsClosed : List Token → Type 0 where
  by_object : {rest : List Token} → IsClosed (close_object ∷ rest)
  by_array : {rest : List Token} → IsClosed (close_array ∷ rest)

mode_of : Kind → List Str → Mode
mode_of a_value seen = value false
mode_of some_members seen = members seen
mode_of some_elements seen = elements

-- The rest that a part of the scan may have.
Follows : Kind → List Token → Type 0
Follows a_value rest = Unit
Follows some_members rest = IsClosed rest
Follows some_elements rest = IsClosed rest

-- How much fuel a part of the scan needs.
needed : Kind → ℕ → ℕ
needed a_value n = 2 * n + 1
needed some_members n = 2 * n + 2
needed some_elements n = 2 * n + 2

allowed : (b : Bool) (o : Option (List Token)) → b ≡ false → (if b then none else o) ≡ o
allowed true o h = cc
allowed false o h = refl

and_then-eq :
    (o : Option (List Token)) (next : List Token → Option (List Token)) (middle rest : List Token)
    → o ≡ some middle
    → next middle ≡ some rest
    → and_then o next ≡ some rest
and_then-eq o next middle rest first later = ap (λ x. and_then x next) first ∙ later

module _ (broken : Bool) (max_depth : ℕ) where
  -- An element is read before the others.
  element_step :
      (node : Node a_value) (fuel depth : ℕ) (rest : List Token)
      → scan broken max_depth (suc fuel) elements depth (emit node rest)
        ≡ and_then
            (scan broken max_depth fuel (value false) (suc depth) (emit node rest))
            (scan broken max_depth fuel elements depth)
  unfolding scan emit
  element_step (string s) fuel depth rest = refl
  element_step (scalar n) fuel depth rest = refl
  element_step (object inside) fuel depth rest = refl
  element_step (array inside) fuel depth rest = refl

  scan_complete :
      {k : Kind} (node : Node k) (fuel depth : ℕ) (seen : List Str) (rest : List Token)
      → IsProper max_depth node depth seen
      → Follows k rest
      → needed k (length (emit node rest)) ≤ fuel
      → scan broken max_depth fuel (mode_of k seen) depth (emit node rest) ≡ some rest
  unfolding scan emit IsProper Follows needed mode_of
  scan_complete (string s) zero depth seen rest proper follows enough = absurd (omega arith)
  scan_complete (string s) (suc fuel) depth seen rest proper follows enough = ground arith
  scan_complete (scalar n) zero depth seen rest proper follows enough = absurd (omega arith)
  scan_complete (scalar n) (suc fuel) depth seen rest proper follows enough = ground arith
  scan_complete (object inside) zero depth seen rest proper follows enough = absurd (omega arith)
  scan_complete (object inside) (suc fuel) depth seen rest proper follows enough =
      let scanned =
        scan_complete inside fuel depth [] (close_object ∷ rest) proper.1 by_object (omega arith) in
      allowed (ltb max_depth depth) _ (ground (arith, proper.0)) ∙ ap close_members scanned
  scan_complete (array inside) zero depth seen rest proper follows enough = absurd (omega arith)
  scan_complete (array inside) (suc fuel) depth seen rest proper follows enough =
      let scanned =
        scan_complete inside fuel depth [] (close_array ∷ rest) proper.1 by_array (omega arith) in
      allowed (ltb max_depth depth || false) _ (ground (arith, proper.0))
      ∙ ap close_elements scanned
  scan_complete no_members zero depth seen rest proper follows enough = absurd (omega arith)
  scan_complete no_members (suc fuel) depth seen _ proper by_object enough = refl
  scan_complete no_members (suc fuel) depth seen _ proper by_array enough = refl
  scan_complete (member key node nodes) zero depth seen rest proper follows enough =
      absurd (omega arith)
  scan_complete (member key node nodes) (suc fuel) depth seen rest proper follows enough =
      let middle = emit nodes rest in
      allowed (has_key seen key) _ proper.0
      ∙ and_then-eq (scan broken max_depth fuel (value false) (suc depth) (emit node middle))
          (scan broken max_depth fuel (members (key ∷ seen)) depth) middle rest
          (scan_complete node fuel (suc depth) [] middle proper.1 tt (omega arith))
          (scan_complete nodes fuel depth (key ∷ seen) rest proper.2 follows
            (omega (arith, value_longer node middle)))
  scan_complete no_elements zero depth seen rest proper follows enough = absurd (omega arith)
  scan_complete no_elements (suc fuel) depth seen _ proper by_object enough = refl
  scan_complete no_elements (suc fuel) depth seen _ proper by_array enough = refl
  scan_complete (element node nodes) zero depth seen rest proper follows enough =
      absurd (omega arith)
  scan_complete (element node nodes) (suc fuel) depth seen rest proper follows enough =
      let middle = emit nodes rest in
      element_step node fuel depth middle
      ∙ and_then-eq (scan broken max_depth fuel (value false) (suc depth) (emit node middle))
          (scan broken max_depth fuel elements depth) middle rest
          (scan_complete node fuel (suc depth) [] middle proper.0 tt (omega arith))
          (scan_complete nodes fuel depth [] rest proper.1 follows
            (omega (arith, value_longer node middle)))

  required_same :
      (fuel : ℕ) (tokens : List Token)
      → scan broken max_depth fuel (value true) 0 (open_object ∷ tokens)
        ≡ scan broken max_depth fuel (value false) 0 (open_object ∷ tokens)
  unfolding scan
  required_same zero tokens = refl
  required_same (suc fuel) tokens = refl

  object_complete :
      (inside : Node some_members)
      → broken ≡ false
      → IsProper max_depth (object inside) 0 []
      → is_object broken max_depth (emit (object inside) []) ≡ true
  unfolding is_object emit needed mode_of Follows
  object_complete inside whole proper =
      let tokens = emit (object inside) [] in
      let fuel = 2 * length tokens + 2 in
      ap (is_eof broken max_depth) (
        required_same fuel (emit inside (close_object ∷ []))
        ∙ scan_complete (object inside) fuel 0 [] [] proper tt (omega arith))
      ∙ ap not whole

  -- Object accepts exactly the tokens of an object, with the end of the input after them, in which no
  -- object has a key twice and no value is nested deeper than the limit; the fuel never runs out.
  pub object_iff :
      (tokens : List Token)
      → (is_object broken max_depth tokens ≡ true) ↔ (
          (broken ≡ false)
          × (inside : Node some_members) × (tokens ≡ emit (object inside) [])
          × IsProper max_depth (object inside) 0 [])
  object_iff tokens = (
    object_sound broken max_depth tokens,
    λ h.
        let (whole, inside, same, proper) = h in
        ap (is_object broken max_depth) same ∙ object_complete inside whole proper,
  )
