-- ===== src/Policy.antt =====
-- internal/metadata/policy.go: the plain text that is kept of a provider's HTML and Markdown. The
-- tokenizer of golang.org/x/net/html, html.UnescapeString and the replacement of Markdown links are
-- parameters.
pub mod Plain
use anime_portable.Prelude.{
  ℕ, ◌+◌, ◌-◌, ◌*◌, ltb, leb, ◌==◌, if◌then◌else◌, length, Str, bytes, str_eq, is_empty, trim_space,
  Bool, false, not, ◌&&◌, ◌||◌, Option, none, some, List, [], ◌∷◌, ◌++◌, map, runes, is_valid_utf8,
  rune_count, fields,
}

-- PlainTextLimits; a limit that is not positive is 0.
pub record PlainTextLimits : Type 0 where
  pub max_input_bytes : ℕ
  pub max_output_bytes : ℕ
  pub max_output_runes : ℕ

-- The tokens before html.ErrorToken.
pub data HtmlToken : Type 0 where
  start_tag : Str → HtmlToken
  end_tag : Str → HtmlToken
  text_token : Str → HtmlToken
  other_token : HtmlToken

-- The loop of stripHTML; `skipped` is the element that is skipped, or empty.
unfoldable pub strip_tokens : Str → List HtmlToken → Str
strip_tokens skipped [] = []
strip_tokens skipped (start_tag name ∷ tokens) =
    0x20
    ∷ strip_tokens
        (if is_empty skipped && (str_eq name (bytes "script") || str_eq name (bytes "style"))
          then name
          else skipped)
        tokens
strip_tokens skipped (end_tag name ∷ tokens) =
    0x20 ∷ strip_tokens (if str_eq name skipped then [] else skipped) tokens
strip_tokens skipped (text_token content ∷ tokens) =
    (if is_empty skipped then content else []) ++ strip_tokens skipped tokens
strip_tokens skipped (other_token ∷ tokens) = strip_tokens skipped tokens

-- strings.NewReplacer("<", " ", ">", " ")
abbrev pub no_bracket : ℕ → ℕ
no_bracket x = if (x == 0x3C) || (x == 0x3E) then 0x20 else x

abbrev pub is_one_of : ℕ → Str → Bool
is_one_of x [] = false
is_one_of x (y ∷ s) = (x == y) || is_one_of x s

-- strings.TrimLeft(line, cutset)
unfoldable pub trim_left : Str → Str → Str
trim_left cutset [] = []
trim_left cutset (x ∷ s) =
    let rest = trim_left cutset s in if is_one_of x cutset then rest else x ∷ s

-- One of '>', '-', '+' and '*' at the front.
abbrev pub drop_marker : Str → Str
drop_marker [] = []
drop_marker (x ∷ s) = if is_one_of x (bytes ">-+*") then s else x ∷ s

-- The body of the first loop of stripMarkdown.
abbrev pub strip_line : Str → Str
strip_line line = drop_marker (trim_left (bytes "#") (trim_left (0x20 ∷ 9 ∷ []) line))

-- strings.Split(value, "\n"); `line` is what is read of the first line.
unfoldable pub split_lines : Str → Str → List Str
split_lines line [] = line ∷ []
split_lines line (x ∷ s) =
    let split = split_lines [] s in
    let longer = split_lines (line ++ (x ∷ [])) s in if x == 10 then line ∷ split else longer

-- strings.Join(words, " ")
unfoldable pub join_words : List Str → Str
join_words [] = []
join_words (word ∷ []) = word
join_words (word ∷ next ∷ words) = word ++ 0x20 ∷ join_words (next ∷ words)

abbrev pub is_escapable : Str → Bool
is_escapable [] = false
is_escapable (x ∷ s) = is_one_of x (0x5C ∷ bytes "`*_{}[]()#+-.!~")

-- The second loop of stripMarkdown.
unfoldable pub drop_marks : Str → Str
drop_marks [] = []
drop_marks (x ∷ s) =
    let rest = drop_marks s in
    if is_one_of x (bytes "*_~`")
    then rest
    else if (x == 0x5C) && is_escapable s
    then rest
    else x ∷ rest

-- unicode.IsControl
abbrev pub is_control : ℕ → Bool
is_control r = ltb r 0x20 || (leb 0x7F r && ltb r 0xA0)

abbrev pub has_control : List ℕ → Bool
has_control [] = false
has_control (r ∷ rs) =
    (is_control r && not (r == 10) && not (r == 13) && not (r == 9)) || has_control rs

-- ContainsDisallowedControl
unfoldable pub contains_disallowed_control : Str → Bool
contains_disallowed_control value = has_control (runes value)

module _ (tokenize : Str → List HtmlToken) (unescape : Str → Str) (replace_links : Str → Str) where
  -- stripHTML
  unfoldable pub strip_html : Str → Str
  strip_html value = strip_tokens [] (tokenize value)

  -- stripMarkdown
  unfoldable pub strip_markdown : Str → Str
  strip_markdown value =
      drop_marks (join_words (map strip_line (split_lines [] (replace_links value))))

  -- The text of NormalizePlainText before its length is looked at.
  unfoldable pub plain_text : Str → Str
  plain_text value =
      trim_space (strip_markdown (map no_bracket (strip_html (strip_html (unescape value)))))

  -- NormalizePlainText
  unfoldable pub normalize_plain_text : Str → PlainTextLimits → Option Str
  normalize_plain_text value limits =
      if (limits.max_input_bytes == 0)
        || (limits.max_output_bytes == 0)
        || (limits.max_output_runes == 0)
        || ltb limits.max_input_bytes (length value)
        || not (is_valid_utf8 value)
      then none
      else let plain = plain_text value in
        if ltb limits.max_output_bytes (length plain)
          || ltb limits.max_output_runes (rune_count plain)
          || contains_disallowed_control plain
        then none
        else some (join_words (fields plain))

  -- IsCanonicalPlainText
  unfoldable pub is_canonical_plain_text : Str → PlainTextLimits → Bool
  is_canonical_plain_text value limits = elim (normalize_plain_text value limits) [
    | none ↦ false
    | some normalized ↦ str_eq normalized value
  ]
