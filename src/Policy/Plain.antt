-- ===== src/Policy/Plain.antt =====
-- The text that NormalizePlainText of internal/metadata/policy.go gives.
use mathlib.Core.Path.{subst}
use anime_portable.Prelude.{
  ℕ, ◌-◌, ◌≤◌, ◌==◌, if◌then◌else◌, Bool-cases, length, All, length-append, All-append, Str, bytes,
  ◌≡◌, refl, sym, inl, inr, Bool, true, false, ◌&&◌, ◌||◌, some, List, [], ◌∷◌, ◌++◌, map, arith,
  fields, spaced_length, trim_space-All, All-of_map, spaced_length-fields, fields-All,
}
use anime_portable.Policy.{
  PlainTextLimits, HtmlToken, strip_html, no_bracket, trim_left, drop_marker, strip_line,
  split_lines, join_words, drop_marks, strip_markdown, plain_text, normalize_plain_text, is_one_of,
  is_escapable,
}

-- A byte that opens or closes no tag.
abbrev pub IsNoBracket : ℕ → Type 0
IsNoBracket x = ((x == 0x3C) || (x == 0x3E)) ≡ false

-- What a replacement of links does: every byte that it gives was there.
abbrev pub KeepsBytes : (Str → Str) → Type 1
KeepsBytes f = (P : ℕ → Type 0) (s : Str) → All P s → All P (f s)

no_bracket-All : (s : Str) → All IsNoBracket (map no_bracket s)
no_bracket-All [] = tt
no_bracket-All (x ∷ s) = (ground arith, no_bracket-All s)

module _ (P : ℕ → Type 0) where
  split_lines-All : (line s : Str) → All P line → All P s → All (All P) (split_lines line s)
  unfolding split_lines
  split_lines-All line [] h k = (h, tt)
  split_lines-All line (x ∷ s) h k = elim (Bool-cases (x == 10)) [
    | inl ends ↦ rw ends (h, split_lines-All [] s tt k.1)
    | inr longer ↦
        rw longer (split_lines-All (line ++ x ∷ []) s (All-append P line (x ∷ []) h (k.0, tt)) k.1)
  ]

  trim_left-All : (cutset s : Str) → All P s → All P (trim_left cutset s)
  unfolding trim_left
  trim_left-All cutset [] h = tt
  trim_left-All cutset (x ∷ s) h = elim (Bool-cases (is_one_of x cutset)) [
    | inl cut ↦ rw cut (trim_left-All cutset s h.1)
    | inr kept ↦ rw kept h
  ]

  drop_marker-All : (s : Str) → All P s → All P (drop_marker s)
  drop_marker-All [] h = tt
  drop_marker-All (x ∷ s) h = elim (Bool-cases (is_one_of x (bytes ">-+*"))) [
    | inl cut ↦ subst (λ b. All P (if b then s else x ∷ s)) (sym cut) h.1
    | inr kept ↦ subst (λ b. All P (if b then s else x ∷ s)) (sym kept) h
  ]

  strip_line-All : (line : Str) → All P line → All P (strip_line line)
  strip_line-All line h =
      let unindented = trim_left (0x20 ∷ 9 ∷ []) line in
      drop_marker-All (trim_left (bytes "#") unindented)
        (trim_left-All (bytes "#") unindented (trim_left-All (0x20 ∷ 9 ∷ []) line h))

  join_words-All : (words : List Str) → P 0x20 → All (All P) words → All P (join_words words)
  unfolding join_words
  join_words-All [] space h = tt
  join_words-All (word ∷ []) space h = h.0
  join_words-All (word ∷ next ∷ words) space h =
      All-append P word (0x20 ∷ join_words (next ∷ words)) h.0
        (space, join_words-All (next ∷ words) space h.1)

  drop_marks-All : (s : Str) → All P s → All P (drop_marks s)
  unfolding drop_marks
  drop_marks-All [] h = tt
  drop_marks-All (x ∷ s) h =
      mark (is_one_of x (bytes "*_~`")) ((x == 0x5C) && is_escapable s) (drop_marks-All s h.1)
    where
      mark :
          (b c : Bool)
          → All P (drop_marks s)
          → All P (if b then drop_marks s else if c then drop_marks s else x ∷ drop_marks s)
      mark true c rest = rest
      mark false true rest = rest
      mark false false rest = (h.0, rest)

length-join_words : (words : List Str) → length (join_words words) ≤ spaced_length words - 1
unfolding join_words
length-join_words [] = omega arith
length-join_words (word ∷ []) = omega arith
length-join_words (word ∷ next ∷ words) =
    omega (
      arith,
      length-append word (0x20 ∷ join_words (next ∷ words)),
      length-join_words (next ∷ words),
    )

module _ (tokenize : Str → List HtmlToken) (unescape : Str → Str) (replace_links : Str → Str)
    (keeps : KeepsBytes replace_links) where
  twice : Str → Str
  twice value =
      strip_html tokenize unescape replace_links
        (strip_html tokenize unescape replace_links (unescape value))

  plain_text-All :
      (value : Str) → All IsNoBracket (plain_text tokenize unescape replace_links value)
  unfolding plain_text strip_markdown twice
  plain_text-All value =
      let html = map no_bracket (twice value) in
      let lines = split_lines [] (replace_links html) in
      trim_space-All IsNoBracket (drop_marks (join_words (map strip_line lines))) (
        drop_marks-All IsNoBracket (join_words (map strip_line lines)) (
          join_words-All IsNoBracket (map strip_line lines) refl (
            All-of_map (All IsNoBracket) (All IsNoBracket) strip_line lines
              (strip_line-All IsNoBracket)
              (split_lines-All IsNoBracket [] (replace_links html) tt
                (keeps IsNoBracket html (no_bracket-All (twice value)))))))

  -- The text that is kept of a provider's is within the limits of bytes, of the input and of the output,
  -- and no byte of it can open or close a tag. A replacement of links gives only bytes that were there.
  pub normalize_sound :
      (value : Str) (limits : PlainTextLimits) (result : Str)
      → normalize_plain_text tokenize unescape replace_links value limits ≡ some result
      → (length value ≤ limits.max_input_bytes)
        × (length result ≤ limits.max_output_bytes)
        × All IsNoBracket result
  unfolding normalize_plain_text
  normalize_sound value limits result e =
      let plain = plain_text tokenize unescape replace_links value in
      let joined : join_words (fields plain) ≡ result = ground arith in
      (
        ground arith,
        subst (λ text. length text ≤ limits.max_output_bytes) joined
            (ground (arith, length-join_words (fields plain), spaced_length-fields plain)),
        subst (All IsNoBracket) joined (
            join_words-All IsNoBracket (fields plain) refl
              (fields-All IsNoBracket plain (plain_text-All value))),
      )
