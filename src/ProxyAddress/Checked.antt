-- ===== src/ProxyAddress/Checked.antt =====
-- What ValidProxyAddress of core/proxy_address.go accepts.
use mathlib.Core.Path.{subst}
use anime_portable.ProxyAddress.{
  inside_brackets, split_last, split_at_colon, unbracketed, bracketed, all_label_bytes, all_labels,
  is_alphanumeric, AddrParser, has_byte, split_dots, Addr, is_valid_host, is_valid_proxy_address,
  is_label, split_host_port, is_port, all_digits, is_valid_dns_name, all_printable,
}
use anime_portable.Prelude.{
  decimal, ℕ, ◌≤◌, ◌==◌, if◌then◌else◌, ==_iff, Bool-cases, length, All, Str, is_empty, ◌≡◌, refl,
  sym, ap, ◌∙◌, inl, inr, Bool, true, false, not, ◌&&◌, ◌||◌, Option, none, some, List, [], ◌∷◌,
  ◌++◌, arith, has_prefix, some-eq, allowed, not_refused,
}

abbrev Pair : Type 0
Pair = Str × Str

split_last-eq :
    (b : ℕ) (s before after : Str) → split_last b s ≡ some (before, after) → s ≡ before ++ b ∷ after
unfolding split_last
split_last-eq b [] before after e = cc
split_last-eq b (x ∷ s) before after e =
    from (split_last b s) (λ first rest k. split_last-eq b s first rest k) e
  where
    from :
        (o : Option (Str × Str))
        → ((first rest : Str) → o ≡ some (first, rest) → s ≡ first ++ b ∷ rest)
        → (elim o as (λ _. Option (Str × Str)) [
          | some (before, after) ↦ some (x ∷ before, after)
          | none ↦ if x == b then some ([], s) else none
        ])
          ≡ some (before, after)
        → x ∷ s ≡ before ++ b ∷ after
    from none shorter h =
        let none_before : Pair = ([], s) in
        let (same, pair) = allowed (x == b) none_before (before, after) h in
        ap (λ (p : Pair). p.0 ++ x ∷ p.1) pair ∙ ap (λ y. before ++ y ∷ after) ((==_iff x b).0 same)
    from (some (first, rest)) shorter h =
        ap (λ l. x ∷ l) (shorter first rest refl) ∙ ap (λ (p : Pair). p.0 ++ b ∷ p.1) (some-eq h)

-- A host in brackets ends with one.
inside_brackets-eq : (s inside : Str) → inside_brackets s ≡ some inside → s ≡ inside ++ 0x5d ∷ []
unfolding inside_brackets
inside_brackets-eq [] inside e = cc
inside_brackets-eq (x ∷ []) inside e =
    let (same, empty) = allowed (x == 0x5d) [] inside e in
    ap (λ y. y ∷ []) ((==_iff x 0x5d).0 same) ∙ ap (λ l. l ++ 0x5d ∷ []) empty
inside_brackets-eq (x ∷ y ∷ s) inside e =
    from (inside_brackets (y ∷ s)) (λ rest k. inside_brackets-eq (y ∷ s) rest k)
      (not_refused (x == 0x5d) _ inside e).1
  where
    from :
        (o : Option Str)
        → ((rest : Str) → o ≡ some rest → y ∷ s ≡ rest ++ 0x5d ∷ [])
        → (elim o as (λ _. Option Str) [ none ↦ none | some rest ↦ some (x ∷ rest) ]) ≡ some inside
        → x ∷ y ∷ s ≡ inside ++ 0x5d ∷ []
    from none shorter h = cc
    from (some rest) shorter h =
        ap (λ l. x ∷ l) (shorter rest refl) ∙ ap (λ l. l ++ 0x5d ∷ []) (some-eq h)

abbrev pair : Str → Str → Option Pair
pair a b = some (a, b)

-- A refusing test with a pair.
refused_pair :
    (c : Bool) (a b host port : Str)
    → (if c then none else pair a b) ≡ some (host, port)
    → (a ≡ host) × (b ≡ port)
refused_pair c a b host port e =
    let same = some-eq (not_refused c (pair a b) (host, port) e).1 in
    (ap (λ (p : Pair). p.0) same, ap (λ (p : Pair). p.1) same)

bracketed-eq :
    (before : Str) (after host port : Str)
    → bracketed (inside_brackets before) after ≡ some (host, port)
    → (before ≡ host ++ 0x5d ∷ []) × (after ≡ port)
unfolding bracketed
bracketed-eq before after host port e =
    from (inside_brackets before) (λ inside k. inside_brackets-eq before inside k) e
  where
    from :
        (o : Option Str)
        → ((inside : Str) → o ≡ some inside → before ≡ inside ++ 0x5d ∷ [])
        → bracketed o after ≡ some (host, port)
        → (before ≡ host ++ 0x5d ∷ []) × (after ≡ port)
    from none known h = cc
    from (some inside) known h =
        let (same, same') =
          refused_pair (has_byte 0x5b inside || has_byte 0x5b after || has_byte 0x5d after) inside
            after host port h in
        (known inside refl ∙ ap (λ l. l ++ 0x5d ∷ []) same, same')

-- The host of an address that starts with a bracket, or does not.
abbrev pub IsSplit : Bool → Str → Str → Type 0
IsSplit true before host = before ≡ 0x5b ∷ host ++ 0x5d ∷ []
IsSplit false before host = before ≡ host

split_at_colon-eq :
    (before after host port : Str)
    → split_at_colon before after ≡ some (host, port)
    → IsSplit (has_prefix (before ++ 0x3a ∷ after) (0x5b ∷ [])) before host × (after ≡ port)
unfolding split_at_colon has_prefix unbracketed
split_at_colon-eq [] after host port e = refused_pair _ [] after host port e
split_at_colon-eq (x ∷ before) after host port e = elim (Bool-cases (x == 0x5b)) [
  | inl same ↦
      let (inside, rest) = bracketed-eq before after host port (
        subst
          (λ c.
            (if c then bracketed (inside_brackets before) after else unbracketed (x ∷ before) after)
            ≡ some (host, port))
          same e) in
      (
        subst (λ c. IsSplit (c && true) (x ∷ before) host) (sym same)
            (ap (λ y. y ∷ before) ((==_iff x 0x5b).0 same) ∙ ap (λ l. 0x5b ∷ l) inside),
        rest,
      )
  | inr other ↦
      let (whole, rest) = refused_pair _ (x ∷ before) after host port (
        subst
          (λ c.
            (if c then bracketed (inside_brackets before) after else unbracketed (x ∷ before) after)
            ≡ some (host, port))
          other e) in
      (subst (λ c. IsSplit (c && true) (x ∷ before) host) (sym other) whole, rest)
]

-- A byte of a name.
abbrev pub IsNameByte : ℕ → Type 0
IsNameByte x = (is_alphanumeric x || (x == 0x2d) || (x == 0x2e)) ≡ true

all_bytes : List Str → Bool
all_bytes [] = true
all_bytes (label ∷ labels) = all_label_bytes label && all_bytes labels

labels-bytes : (labels : List Str) → all_labels labels ≡ true → all_bytes labels ≡ true
unfolding all_labels all_bytes is_label
labels-bytes [] h = refl
labels-bytes (label ∷ labels) h = ground (arith, labels-bytes labels)

split_dots-bytes : (name : Str) → all_bytes (split_dots name) ≡ true → All IsNameByte name
unfolding split_dots all_bytes all_label_bytes
split_dots-bytes [] h = tt
split_dots-bytes (x ∷ s) h = from (split_dots s) (split_dots-bytes s) h
  where
    from :
        (labels : List Str)
        → (all_bytes labels ≡ true → All IsNameByte s)
        → all_bytes (elim labels as (λ _. List Str) [
          | [] ↦ (x ∷ []) ∷ []
          | label ∷ labels ↦ if x == 0x2e then [] ∷ label ∷ labels else (x ∷ label) ∷ labels
        ])
          ≡ true
        → All IsNameByte (x ∷ s)
    from [] later k = (ground arith, later refl)
    from (label ∷ labels) later k = (ground arith, later (ground arith))

-- What ValidProxyAddress has found of the host.
pub data IsHost (parse_addr : AddrParser) : Bool → Str → Type 0 where
  ipv6 :
      {host : Str} (ip : Addr)
      → parse_addr host ≡ some ip
      → ip.is_6 ≡ true
      → ip.has_zone ≡ false
      → IsHost parse_addr true host
  ipv4 :
      {host : Str} (ip : Addr)
      → parse_addr host ≡ some ip
      → ip.is_4 ≡ true
      → IsHost parse_addr false host
  name :
      {host : Str}
      → parse_addr host ≡ none
      → is_empty host ≡ false
      → length host ≤ 253
      → All IsNameByte host
      → IsHost parse_addr false host

is_valid_host_lem :
    (parse_addr : AddrParser) (address host : Str)
    → is_valid_host parse_addr address host ≡ true
    → IsHost parse_addr (has_prefix address (0x5b ∷ [])) host
unfolding is_valid_host is_valid_dns_name
is_valid_host_lem parse_addr address host h =
    from (has_prefix address (0x5b ∷ [])) (parse_addr host) refl h
  where
    from :
        (b : Bool) (o : Option Addr)
        → parse_addr host ≡ o
        → (if b
            then (elim o as (λ _. Bool) [ none ↦ false | some ip ↦ ip.is_6 && not ip.has_zone ])
            else (elim o as (λ _. Bool) [ none ↦ is_valid_dns_name host | some ip ↦ ip.is_4 ]))
          ≡ true
        → IsHost parse_addr b host
    from true none e k = cc
    from true (some ip) e k = ipv6 ip e (ground arith) (ground arith)
    from false (some ip) e k = ipv4 ip e k
    from false none e k =
        name e (ground arith) (ground arith)
          (split_dots-bytes host (labels-bytes (split_dots host) (ground arith)))

found_pair :
    (o : Option Pair) (test : Str → Str → Bool)
    → (elim o as (λ _. Bool) [ none ↦ false | some (host, port) ↦ test host port ]) ≡ true
    → (host : Str) × (port : Str) × (o ≡ pair host port) × (test host port ≡ true)
found_pair none test h = cc
found_pair (some (host, port)) test h = (host, port, refl, h)

split_pair :
    (o : Option Pair) (host port : Str)
    → (elim o as (λ _. Option Pair) [
      | none ↦ none
      | some (before, after) ↦ split_at_colon before after
    ])
      ≡ pair host port
    → (before : Str) × (after : Str) × (o ≡ pair before after)
      × (split_at_colon before after ≡ pair host port)
split_pair none host port h = cc
split_pair (some (before, after)) host port h = (before, after, refl, h)

port_bounds :
    (port : Str)
    → is_port port ≡ true
    → (all_digits port ≡ true) × (1 ≤ decimal 0 port) × (decimal 0 port ≤ 65535)
unfolding is_port
port_bounds port h = (ground arith, ground arith, ground arith)

-- An address that is accepted is empty, or has at most 255 bytes, each printable, and is a host, a colon
-- and a port from 1 to 65535. A host in brackets is an IPv6 address without a zone. Any other is an IPv4
-- address, or no address and a name of letters, digits, hyphens and dots.
pub proxy_address_sound :
    (parse_addr : AddrParser) (address : Str)
    → is_valid_proxy_address parse_addr address ≡ true
    → is_empty address ≡ false
    → (length address ≤ 255)
      × (all_printable address ≡ true)
      × (before : Str) × (host : Str) × (port : Str) × (address ≡ before ++ 0x3a ∷ port)
      × IsSplit (has_prefix address (0x5b ∷ [])) before host
      × IsHost parse_addr (has_prefix address (0x5b ∷ [])) host
      × (all_digits port ≡ true)
      × (1 ≤ decimal 0 port)
      × (decimal 0 port ≤ 65535)
unfolding is_valid_proxy_address split_host_port
proxy_address_sound parse_addr address h full =
    let (host, port, split, good) =
      found_pair (split_host_port address)
        (λ host port. is_port port && is_valid_host parse_addr address host) (ground arith) in
    let (before, after, last, colon) = split_pair (split_last 0x3a address) host port split in
    let whole = split_last-eq 0x3a address before after last in
    let (written, rest) = split_at_colon-eq before after host port colon in
    let (digits, least, most) = port_bounds port (ground arith) in
    (
      ground arith,
      ground arith,
      before,
      host,
      port,
      whole ∙ ap (λ p. before ++ 0x3a ∷ p) rest,
      subst (λ a. IsSplit (has_prefix a (0x5b ∷ [])) before host) (sym whole) written,
      is_valid_host_lem parse_addr address host (ground arith),
      digits,
      least,
      most,
    )
