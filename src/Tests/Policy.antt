-- ===== src/Tests/Policy.antt =====
-- The plain text of a provider's text at concrete inputs.
use anime_portable.Prelude.{
  ◌≤◌, ◌==◌, if◌then◌else◌, length, drop, All, Str, bytes, str_eq, trim_space, ◌≡◌, refl, Bool,
  true, false, some, List, [], ◌∷◌, ◌++◌, has_prefix, is_valid_utf8, rune_count, fields, runes,
}
use anime_portable.Policy.{
  PlainTextLimits, HtmlToken, text_token, start_tag, end_tag, normalize_plain_text, plain_text,
  strip_markdown, drop_marks, join_words, split_lines, strip_html, strip_tokens, trim_left,
  contains_disallowed_control,
}
use anime_portable.Policy.Plain.{IsNoBracket, KeepsBytes, normalize_sound}

-- A tokenizer of tags without attributes; `read` is what is read of a text or of a tag.
tokens_from : Bool → Str → Str → List HtmlToken
tokens_from in_tag read [] = text_token read ∷ []
tokens_from false read (x ∷ s) =
    let tag = tokens_from true [] s in
    let longer = tokens_from false (read ++ x ∷ []) s in
    if x == 0x3C then text_token read ∷ tag else longer
tokens_from true read (x ∷ s) =
    let after = tokens_from false [] s in
    let longer = tokens_from true (read ++ x ∷ []) s in
    if x == 0x3E
    then (if has_prefix read (bytes "/") then end_tag (drop 1 read) else start_tag read) ∷ after
    else longer

simple_tokens : Str → List HtmlToken
unfolding tokens_from
simple_tokens s = tokens_from false [] s

unchanged : Str → Str
unchanged s = s

unchanged-KeepsBytes : KeepsBytes unchanged
unfolding unchanged
unchanged-KeepsBytes P s h = h

abbrev title_limits : PlainTextLimits
title_limits = record { max_input_bytes = 4096; max_output_bytes = 4096; max_output_runes = 1024 }

abbrev markup : Str
markup = bytes "# A <b>bold</b>  *title*<script>x</script>"

markup_text :
    normalize_plain_text simple_tokens unchanged unchanged markup title_limits
    ≡ some (bytes "A bold title")
unfolding normalize_plain_text is_valid_utf8 plain_text trim_space strip_markdown drop_marks
    join_words split_lines unchanged strip_html strip_tokens simple_tokens has_prefix str_eq
    trim_left rune_count contains_disallowed_control fields runes tokens_from
markup_text = refl

normalize_sound_example :
    (length markup ≤ 4096)
    × (length (bytes "A bold title") ≤ 4096)
    × All IsNoBracket (bytes "A bold title")
normalize_sound_example =
    normalize_sound simple_tokens unchanged unchanged unchanged-KeepsBytes markup title_limits
      (bytes "A bold title") markup_text
