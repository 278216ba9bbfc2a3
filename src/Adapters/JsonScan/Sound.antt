-- ===== src/Adapters/JsonScan/Sound.antt =====
-- What Object of adapters/internal/jsonscan/jsonscan.go accepts.
use anime_portable.Adapters.JsonScan.{
  Token, Mode, scan, close_elements, close_members, value, emit, IsProper, close_object,
  close_array, Node, text, members, a_value, other, some_members, object, elements, open_object,
  some_elements, array, open_array, string, scalar, no_members, has_key, member, no_elements,
  is_object, is_eof, element, and_then,
}
use anime_portable.Prelude.{
  ℕ, zero, suc, ◌+◌, ◌*◌, ltb, if◌then◌else◌, length, ◌≡◌, refl, ap, ◌∙◌, Bool, true, false, ◌||◌,
  Option, none, some, List, [], ◌∷◌, arith,
}

module _ (broken : Bool) (max_depth : ℕ) where
  -- The tree of the tokens that a part of the scan has read.
  Parsed : Mode → ℕ → List Token → List Token → Type 0
  Parsed (value require_object) depth tokens rest =
      (node : Node a_value) × (tokens ≡ emit node rest) × IsProper max_depth node depth []
  Parsed (members seen) depth tokens rest =
      (node : Node some_members) × (tokens ≡ emit node rest) × IsProper max_depth node depth seen
  Parsed elements depth tokens rest =
      (node : Node some_elements) × (tokens ≡ emit node rest) × IsProper max_depth node depth []

  some-eq : {a b : List Token} → some a ≡ some b → a ≡ b
  some-eq e = cc

  close_members-eq :
      (scanned : Option (List Token)) (rest : List Token)
      → close_members scanned ≡ some rest
      → scanned ≡ some (close_object ∷ rest)
  close_members-eq none rest e = cc
  close_members-eq (some []) rest e = cc
  close_members-eq (some (open_object ∷ ts)) rest e = cc
  close_members-eq (some (close_object ∷ ts)) rest e = cc
  close_members-eq (some (open_array ∷ ts)) rest e = cc
  close_members-eq (some (close_array ∷ ts)) rest e = cc
  close_members-eq (some (text s ∷ ts)) rest e = cc
  close_members-eq (some (other n ∷ ts)) rest e = cc

  close_elements-eq :
      (scanned : Option (List Token)) (rest : List Token)
      → close_elements scanned ≡ some rest
      → scanned ≡ some (close_array ∷ rest)
  close_elements-eq none rest e = cc
  close_elements-eq (some []) rest e = cc
  close_elements-eq (some (open_object ∷ ts)) rest e = cc
  close_elements-eq (some (close_object ∷ ts)) rest e = cc
  close_elements-eq (some (open_array ∷ ts)) rest e = cc
  close_elements-eq (some (close_array ∷ ts)) rest e = cc
  close_elements-eq (some (text s ∷ ts)) rest e = cc
  close_elements-eq (some (other n ∷ ts)) rest e = cc

  -- A value that one test may refuse.
  guarded :
      (b : Bool) (o : Option (List Token)) (rest : List Token)
      → (if b then none else o) ≡ some rest
      → (b ≡ false) × (o ≡ some rest)
  guarded true o rest e = cc
  guarded false o rest e = (refl, e)

  -- A further element or member.
  then_scan :
      (o : Option (List Token)) (next : List Token → Option (List Token)) (rest : List Token)
      → and_then o next ≡ some rest
      → (middle : List Token) × (o ≡ some middle) × (next middle ≡ some rest)
  then_scan none next rest e = cc
  then_scan (some middle) next rest e = (middle, refl, e)

  nothing_left :
      (o : Option (List Token)) (rest : List Token)
      → (if broken then none else some []) ≡ some rest
      → [] ≡ rest
  nothing_left o rest e = some-eq (guarded broken (some []) rest e).1

  element-Parsed :
      (fuel depth : ℕ) (tokens rest : List Token)
      → ((middle : List Token)
          → scan broken max_depth fuel (value false) (suc depth) tokens ≡ some middle
          → Parsed (value false) (suc depth) tokens middle)
      → ((middle : List Token)
          → scan broken max_depth fuel elements depth middle ≡ some rest
          → Parsed elements depth middle rest)
      → and_then
          (scan broken max_depth fuel (value false) (suc depth) tokens)
          (scan broken max_depth fuel elements depth)
        ≡ some rest
      → Parsed elements depth tokens rest
  unfolding emit IsProper Parsed
  element-Parsed fuel depth tokens rest value_of elements_of e =
      let (middle, first, later) =
        then_scan (scan broken max_depth fuel (value false) (suc depth) tokens)
          (scan broken max_depth fuel elements depth) rest e in
      let (node, same, proper) = value_of middle first in
      let (nodes, same', proper') = elements_of middle later in
      (element node nodes, same ∙ ap (emit node) same', (proper, proper'))

  scan-Parsed :
      (fuel : ℕ) (mode : Mode) (depth : ℕ) (tokens rest : List Token)
      → scan broken max_depth fuel mode depth tokens ≡ some rest
      → Parsed mode depth tokens rest
  unfolding scan emit IsProper Parsed
  scan-Parsed zero mode depth tokens rest e = cc
  scan-Parsed (suc fuel) (value require_object) depth [] rest e = cc
  scan-Parsed (suc fuel) (value require_object) depth (open_object ∷ ts) rest e =
      let (shallow, closed) =
        guarded (ltb max_depth depth)
          (close_members (scan broken max_depth fuel (members []) depth ts)) rest e in
      let (node, same, proper) =
        scan-Parsed fuel (members []) depth ts (close_object ∷ rest)
          (close_members-eq (scan broken max_depth fuel (members []) depth ts) rest closed) in
      (object node, ap (λ l. open_object ∷ l) same, (ground arith, proper))
  scan-Parsed (suc fuel) (value require_object) depth (open_array ∷ ts) rest e =
      let (shallow, closed) =
        guarded (ltb max_depth depth || require_object)
          (close_elements (scan broken max_depth fuel elements depth ts)) rest e in
      let (node, same, proper) =
        scan-Parsed fuel elements depth ts (close_array ∷ rest)
          (close_elements-eq (scan broken max_depth fuel elements depth ts) rest closed) in
      (array node, ap (λ l. open_array ∷ l) same, (ground arith, proper))
  scan-Parsed (suc fuel) (value require_object) depth (close_object ∷ ts) rest e = cc
  scan-Parsed (suc fuel) (value require_object) depth (close_array ∷ ts) rest e = cc
  scan-Parsed (suc fuel) (value require_object) depth (text s ∷ ts) rest e =
      let (shallow, same) = guarded (ltb max_depth depth || require_object) (some ts) rest e in
      (string s, ap (λ l. text s ∷ l) (some-eq same), ground arith)
  scan-Parsed (suc fuel) (value require_object) depth (other n ∷ ts) rest e =
      let (shallow, same) = guarded (ltb max_depth depth || require_object) (some ts) rest e in
      (scalar n, ap (λ l. other n ∷ l) (some-eq same), ground arith)
  scan-Parsed (suc fuel) (members seen) depth [] rest e = (no_members, nothing_left none rest e, tt)
  scan-Parsed (suc fuel) (members seen) depth (close_object ∷ ts) rest e =
      (no_members, some-eq e, tt)
  scan-Parsed (suc fuel) (members seen) depth (close_array ∷ ts) rest e =
      (no_members, some-eq e, tt)
  scan-Parsed (suc fuel) (members seen) depth (text key ∷ ts) rest e =
      let (new, more) = guarded (has_key seen key) _ rest e in
      let (middle, first, later) =
        then_scan (scan broken max_depth fuel (value false) (suc depth) ts)
          (scan broken max_depth fuel (members (key ∷ seen)) depth) rest more in
      let (node, same, proper) = scan-Parsed fuel (value false) (suc depth) ts middle first in
      let (nodes, same', proper') =
        scan-Parsed fuel (members (key ∷ seen)) depth middle rest later in
      (
        member key node nodes,
        ap (λ l. text key ∷ l) (same ∙ ap (emit node) same'),
        (new, proper, proper'),
      )
  scan-Parsed (suc fuel) (members seen) depth (open_object ∷ ts) rest e = cc
  scan-Parsed (suc fuel) (members seen) depth (open_array ∷ ts) rest e = cc
  scan-Parsed (suc fuel) (members seen) depth (other n ∷ ts) rest e = cc
  scan-Parsed (suc fuel) elements depth [] rest e = (no_elements, nothing_left none rest e, tt)
  scan-Parsed (suc fuel) elements depth (close_object ∷ ts) rest e = (no_elements, some-eq e, tt)
  scan-Parsed (suc fuel) elements depth (close_array ∷ ts) rest e = (no_elements, some-eq e, tt)
  scan-Parsed (suc fuel) elements depth (open_object ∷ ts) rest e =
      element-Parsed fuel depth (open_object ∷ ts) rest
        (λ middle k. scan-Parsed fuel (value false) (suc depth) (open_object ∷ ts) middle k)
        (λ middle k. scan-Parsed fuel elements depth middle rest k) e
  scan-Parsed (suc fuel) elements depth (open_array ∷ ts) rest e =
      element-Parsed fuel depth (open_array ∷ ts) rest
        (λ middle k. scan-Parsed fuel (value false) (suc depth) (open_array ∷ ts) middle k)
        (λ middle k. scan-Parsed fuel elements depth middle rest k) e
  scan-Parsed (suc fuel) elements depth (text s ∷ ts) rest e =
      element-Parsed fuel depth (text s ∷ ts) rest
        (λ middle k. scan-Parsed fuel (value false) (suc depth) (text s ∷ ts) middle k)
        (λ middle k. scan-Parsed fuel elements depth middle rest k) e
  scan-Parsed (suc fuel) elements depth (other n ∷ ts) rest e =
      element-Parsed fuel depth (other n ∷ ts) rest
        (λ middle k. scan-Parsed fuel (value false) (suc depth) (other n ∷ ts) middle k)
        (λ middle k. scan-Parsed fuel elements depth middle rest k) e

  is_eof-eq :
      (scanned : Option (List Token))
      → is_eof broken max_depth scanned ≡ true
      → (scanned ≡ some []) × (broken ≡ false)
  is_eof-eq none e = cc
  is_eof-eq (some []) e = (refl, ground arith)
  is_eof-eq (some (t ∷ ts)) e = cc

  -- A value that must be an object is one.
  required_object :
      (fuel : ℕ) (tokens rest : List Token)
      → scan broken max_depth fuel (value true) 0 tokens ≡ some rest
      → (inside : Node some_members) × (tokens ≡ emit (object inside) rest)
        × IsProper max_depth (object inside) 0 []
  unfolding scan emit IsProper Parsed
  required_object zero tokens rest e = cc
  required_object (suc fuel) [] rest e = cc
  required_object (suc fuel) (open_object ∷ ts) rest e =
      let scanned = scan broken max_depth fuel (members []) 0 ts in
      let (shallow, closed) = guarded (ltb max_depth 0) (close_members scanned) rest e in
      let (node, same, proper) =
        scan-Parsed fuel (members []) 0 ts (close_object ∷ rest)
          (close_members-eq scanned rest closed) in
      (node, ap (λ l. open_object ∷ l) same, (ground arith, proper))
  required_object (suc fuel) (close_object ∷ ts) rest e = cc
  required_object (suc fuel) (close_array ∷ ts) rest e = cc
  required_object (suc fuel) (open_array ∷ ts) rest e =
      absurd (ground (arith, (guarded (ltb max_depth 0 || true) _ rest e).0))
  required_object (suc fuel) (text s ∷ ts) rest e =
      absurd (ground (arith, (guarded (ltb max_depth 0 || true) _ rest e).0))
  required_object (suc fuel) (other n ∷ ts) rest e =
      absurd (ground (arith, (guarded (ltb max_depth 0 || true) _ rest e).0))

  -- What Object accepts is the tokens of an object and the end of the input after them.
  pub object_sound :
      (tokens : List Token)
      → is_object broken max_depth tokens ≡ true
      → (broken ≡ false)
        × (inside : Node some_members) × (tokens ≡ emit (object inside) [])
        × IsProper max_depth (object inside) 0 []
  unfolding is_object
  object_sound tokens e =
      let (scanned, whole) =
        is_eof-eq (scan broken max_depth (2 * length tokens + 2) (value true) 0 tokens) e in
      let (inside, same, proper) = required_object (2 * length tokens + 2) tokens [] scanned in
      (whole, inside, same, proper)
