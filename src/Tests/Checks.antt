-- ===== src/Tests/Checks.antt =====
-- The checks of untrusted text on small inputs.
use anime_portable.Adapters.JsonScan.Complete.{object_iff}
use anime_portable.ProxyAddress.Checked.{IsSplit, IsHost, proxy_address_sound}
use anime_portable.Adapters.JsonScan.{
  is_object, Token, Node, scan, open_object, some_members, text, emit, other, open_array, object,
  close_array, close_object, IsProper,
}
use anime_portable.ProxyAddress.{
  is_valid_proxy_address, all_printable, AddrParser, all_digits, split_host_port, split_last,
  split_at_colon, unbracketed, has_byte, is_port, is_valid_host, is_valid_dns_name, all_labels,
  split_dots, is_label, ends_with_hyphen, all_label_bytes, bracketed, inside_brackets, last_label,
}
use anime_portable.Prelude.{
  decimal, ◌≤◌, length, Str, bytes, str_eq, ◌≡◌, refl, ◌↔◌, true, false, none, List, [], ◌∷◌, ◌++◌,
  has_prefix,
}

-- {"a": [1], "b": {}}
abbrev tokens : List Token
tokens =
    open_object
    ∷ text (bytes "a")
    ∷ open_array
    ∷ other 1
    ∷ close_array
    ∷ text (bytes "b")
    ∷ open_object
    ∷ close_object
    ∷ close_object
    ∷ []

object_test : is_object false 2 tokens ≡ true
unfolding is_object scan str_eq
object_test = refl

-- The number is one level deeper than the limit.
deep_test : is_object false 1 tokens ≡ false
unfolding is_object scan str_eq
deep_test = refl

twice_test :
    is_object false 2
      (open_object ∷ text (bytes "a") ∷ other 1 ∷ text (bytes "a") ∷ other 2 ∷ close_object ∷ [])
    ≡ false
unfolding is_object scan str_eq
twice_test = refl

object_iff_example : (is_object false 2 tokens ≡ true) ↔ (
    (false ≡ false)
    × (inside : Node some_members) × (tokens ≡ emit (object inside) [])
    × IsProper 2 (object inside) 0 [])
object_iff_example = object_iff false 2 tokens

no_address : AddrParser
no_address host = none

abbrev address : Str
address = bytes "proxy.example.org:8080"

address_test : is_valid_proxy_address no_address address ≡ true
unfolding is_valid_proxy_address no_address all_printable split_host_port split_last split_at_colon
    unbracketed has_byte is_port all_digits decimal is_valid_host has_prefix is_valid_dns_name
    all_labels split_dots is_label ends_with_hyphen all_label_bytes bracketed inside_brackets
    last_label
address_test = refl

-- The last label is all digits.
numeric_test : is_valid_proxy_address no_address (bytes "300.1.1.1:80") ≡ false
unfolding is_valid_proxy_address no_address all_printable split_host_port split_last split_at_colon
    unbracketed has_byte is_port all_digits decimal is_valid_host has_prefix is_valid_dns_name
    all_labels split_dots is_label ends_with_hyphen all_label_bytes bracketed inside_brackets
    last_label
numeric_test = refl

proxy_address_sound_example :
    (length address ≤ 255)
    × (all_printable address ≡ true)
    × (before : Str) × (host : Str) × (port : Str) × (address ≡ before ++ 0x3a ∷ port)
    × IsSplit (has_prefix address (0x5b ∷ [])) before host
    × IsHost no_address (has_prefix address (0x5b ∷ [])) host
    × (all_digits port ≡ true)
    × (1 ≤ decimal 0 port)
    × (decimal 0 port ≤ 65535)
proxy_address_sound_example = proxy_address_sound no_address address address_test refl
