-- ===== src/ProxyAddress.antt =====
-- core/proxy_address.go: which text may be stored as the manual proxy. net.SplitHostPort and
-- strconv.ParseUint are written out; netip.ParseAddr is a parameter.
pub mod Checked
use anime_portable.Prelude.{
  ℕ, ltb, leb, ◌==◌, if◌then◌else◌, length, Str, is_empty, Bool, true, false, not, ◌&&◌, ◌||◌,
  Option, none, some, List, [], ◌∷◌, has_prefix, decimal,
}

-- What the code asks of a netip.Addr.
pub record Addr : Type 0 where
  pub is_4 : Bool
  pub is_6 : Bool
  pub has_zone : Bool

abbrev pub AddrParser : Type 0
AddrParser = Str → Option Addr

-- maxProxyAddressBytes
abbrev pub max_proxy_address_bytes : ℕ
max_proxy_address_bytes = 255

-- Whether a byte is in a string.
unfoldable pub has_byte : ℕ → Str → Bool
has_byte b [] = false
has_byte b (x ∷ s) = (x == b) || has_byte b s

-- What stands before and after the last byte of a kind.
unfoldable pub split_last : ℕ → Str → Option (Str × Str)
split_last b [] = none
split_last b (x ∷ s) = elim (split_last b s) [
  | some (before, after) ↦ some (x ∷ before, after)
  | none ↦ if x == b then some ([], s) else none
]

-- The bytes before the last one, which must be a bracket that is the first one.
unfoldable pub inside_brackets : Str → Option Str
inside_brackets [] = none
inside_brackets (x ∷ []) = if x == 0x5d then some [] else none
inside_brackets (x ∷ y ∷ s) =
    let rest = inside_brackets (y ∷ s) in
    if x == 0x5d then none else elim rest [ none ↦ none | some inside ↦ some (x ∷ inside) ]

-- net.SplitHostPort's tests of a host in brackets.
unfoldable pub bracketed : Option Str → Str → Option (Str × Str)
bracketed none port = none
bracketed (some host) port =
    if has_byte 0x5b host || has_byte 0x5b port || has_byte 0x5d port
    then none
    else some (host, port)

-- Those of any other host.
unfoldable pub unbracketed : Str → Str → Option (Str × Str)
unbracketed host port =
    if has_byte 0x3a host
      || has_byte 0x5b host
      || has_byte 0x5d host
      || has_byte 0x5b port
      || has_byte 0x5d port
    then none
    else some (host, port)

-- net.SplitHostPort, given what stands before and after the last colon: the host and the port.
unfoldable pub split_at_colon : Str → Str → Option (Str × Str)
split_at_colon [] port = unbracketed [] port
split_at_colon (x ∷ before) port =
    let inside = bracketed (inside_brackets before) port in
    if x == 0x5b then inside else unbracketed (x ∷ before) port

unfoldable pub split_host_port : Str → Option (Str × Str)
split_host_port address = elim (split_last 0x3a address) [
  | none ↦ none
  | some (before, port) ↦ split_at_colon before port
]

abbrev pub is_digit : ℕ → Bool
is_digit x = leb 0x30 x && leb x 0x39

unfoldable pub all_digits : Str → Bool
all_digits [] = true
all_digits (x ∷ s) = is_digit x && all_digits s

-- `strconv.ParseUint(port, 10, 16)` without an error, and not 0.
unfoldable pub is_port : Str → Bool
is_port port =
    not (is_empty port)
    && all_digits port
    && ltb (decimal 0 port) 65536
    && not (decimal 0 port == 0)

-- `strings.Split(name, ".")`
unfoldable pub split_dots : Str → List Str
split_dots [] = [] ∷ []
split_dots (x ∷ s) = elim (split_dots s) [
  | [] ↦ (x ∷ []) ∷ []
  | label ∷ labels ↦ if x == 0x2e then [] ∷ label ∷ labels else (x ∷ label) ∷ labels
]

-- The bytes of a label: letters and digits, and a hyphen.
abbrev pub is_alphanumeric : ℕ → Bool
is_alphanumeric x = (leb 0x61 x && leb x 0x7a) || (leb 0x41 x && leb x 0x5a) || is_digit x

unfoldable pub all_label_bytes : Str → Bool
all_label_bytes [] = true
all_label_bytes (x ∷ s) = (is_alphanumeric x || (x == 0x2d)) && all_label_bytes s

unfoldable pub ends_with_hyphen : Str → Bool
ends_with_hyphen [] = false
ends_with_hyphen (x ∷ []) = x == 0x2d
ends_with_hyphen (x ∷ y ∷ s) = ends_with_hyphen (y ∷ s)

-- The tests of validDNSName on one label.
unfoldable pub is_label : Str → Bool
is_label label =
    not (is_empty label)
    && leb (length label) 63
    && not (has_prefix label (0x2d ∷ []))
    && not (ends_with_hyphen label)
    && all_label_bytes label

unfoldable pub all_labels : List Str → Bool
all_labels [] = true
all_labels (label ∷ labels) = is_label label && all_labels labels

unfoldable pub last_label : List Str → Str
last_label [] = []
last_label (label ∷ []) = label
last_label (label ∷ next ∷ labels) = last_label (next ∷ labels)

-- validDNSName
unfoldable pub is_valid_dns_name : Str → Bool
is_valid_dns_name name =
    not (is_empty name)
    && leb (length name) 253
    && all_labels (split_dots name)
    && not (all_digits (last_label (split_dots name)))

-- The loop over the bytes of the address: no space, control or non-ASCII byte.
unfoldable pub all_printable : Str → Bool
all_printable [] = true
all_printable (x ∷ s) = ltb 0x20 x && ltb x 0x7f && all_printable s

module _ (parse_addr : AddrParser) where
  -- The tests of the host once the port is good.
  unfoldable pub is_valid_host : Str → Str → Bool
  is_valid_host address host =
      if has_prefix address (0x5b ∷ [])
      then elim (parse_addr host) [ none ↦ false | some ip ↦ ip.is_6 && not ip.has_zone ]
      else elim (parse_addr host) [ none ↦ is_valid_dns_name host | some ip ↦ ip.is_4 ]

  -- ValidProxyAddress
  unfoldable pub is_valid_proxy_address : Str → Bool
  is_valid_proxy_address address =
      if is_empty address
      then true
      else if ltb max_proxy_address_bytes (length address) || not (all_printable address)
      then false
      else elim (split_host_port address) [
        | none ↦ false
        | some (host, port) ↦ is_port port && is_valid_host address host
      ]
