-- ===== src/Common/Ip.antt =====
-- net.IP in its form of 16 bytes, net.ParseIP and the tests on addresses.
use Prim.Native.Nat.{ℕ, zero, suc, ◌+◌, ◌-◌, ◌*◌, ◌/◌, ◌%◌}
use mathlib.Core.Path.{◌≡◌, refl}
use mathlib.Core.Bool.{Bool, true, false, ◌&&◌, ◌||◌}
use mathlib.Core.List.{List, [], ◌∷◌, ◌++◌}
use mathlib.Core.Option.{Option, none, some}
use hamsterd.Common.Tests.{ltb, leb, ◌==◌, if◌then◌else◌, is_some}
use hamsterd.Common.Lists.{length, take, drop, replicate, get_or}
use hamsterd.Common.Strings.{Text, text_eq, is_digit, has_byte, split, has_prefix, codes}
use hamsterd.Common.Numbers.{parse_digits}

-- Sixteen bytes; an IPv4 address is mapped.
abbrev pub Ip : Type 0
Ip = List ℕ

abbrev pub mapped_prefix : List ℕ
mapped_prefix = replicate 10 0 ++ 255 ∷ 255 ∷ []

abbrev pub ipv4 : ℕ → ℕ → ℕ → ℕ → Ip
ipv4 a b c d = mapped_prefix ++ a ∷ b ∷ c ∷ d ∷ []

-- ip.To4() != nil, ip.To4()[i], ip[i]
abbrev pub is_ipv4 : Ip → Bool
is_ipv4 ip = text_eq (take 12 ip) mapped_prefix

abbrev pub byte_at : ℕ → Ip → ℕ
byte_at i ip = get_or ip i 0

abbrev pub byte4_at : ℕ → Ip → ℕ
byte4_at i ip = get_or ip (12 + i) 0

-- One field of an IPv4 address: digits without a leading zero, at most 255.
parse_field : Text → Option ℕ
parse_field [] = none
parse_field (c ∷ s) = elim (parse_digits (c ∷ s)) [
  | none ↦ none
  | some n ↦ if ltb 255 n || (c == b'0' && ltb 0 (length s)) then none else some n
]

four_fields : List Text → Option (List ℕ)
four_fields (p ∷ q ∷ r ∷ s ∷ []) = elim (parse_field p) [
  | none ↦ none
  | some a ↦ elim (parse_field q) [
    | none ↦ none
    | some b ↦ elim (parse_field r) [
      | none ↦ none
      | some c ↦ elim (parse_field s) [ none ↦ none | some d ↦ some (a ∷ b ∷ c ∷ d ∷ []) ]
    ]
  ]
]
four_fields _ = none

parse_ipv4 : Text → Option (List ℕ)
parse_ipv4 s = four_fields (split b'.' s)

hex_digit : ℕ → Option ℕ
hex_digit c =
    if is_digit c
    then some (c - 48)
    else if leb b'a' c && leb c b'f'
    then some (c - 87)
    else if leb b'A' c && leb c b'F'
    then some (c - 55)
    else none

-- The hexadecimal digits at the start: their number, their value, the rest.
hex_group : ℕ → ℕ → Text → ℕ × ℕ × Text
hex_group n value [] = (n, value, [])
hex_group n value (c ∷ s) = elim (hex_digit c) [
  | none ↦ (n, value, c ∷ s)
  | some d ↦ hex_group (suc n) (value * 16 + d) s
]

-- The bytes before and after the place of "::", if there is one.
expand : List ℕ → Option ℕ → Option Ip
expand bytes none = if length bytes == 16 then some bytes else none
expand bytes (some at) =
    if ltb (length bytes) 16
    then some (take at bytes ++ (replicate (16 - length bytes) 0 ++ drop at bytes))
    else none

starts_with_dot : Text → Bool
starts_with_dot [] = false
starts_with_dot (c ∷ s) = c == b'.'

-- An IPv4 address at the end of an IPv6 address.
embedded : List ℕ → Option ℕ → Text → Option Ip
embedded bytes at s =
    if ltb 12 (length bytes) || (elim at [ none ↦ ltb (length bytes) 12 | some _ ↦ false ])
    then none
    else elim (parse_ipv4 s) [ none ↦ none | some fields ↦ expand (bytes ++ fields) at ]

-- Behind a group: the place of "::" and the text of the next group, empty at the end.
next_group : Option ℕ → ℕ → Text → Option (Option ℕ × Text)
next_group at here [] = some (at, [])
next_group at here (c ∷ []) = none
next_group at here (c ∷ d ∷ s) =
    if c == b':'
    then (if d == b':'
        then (if is_some at then none else some (some here, s))
        else some (at, d ∷ s))
    else none

-- One round for each group; `at` is the place of "::".
parse_groups : ℕ → List ℕ → Option ℕ → Text → Option Ip
parse_groups zero bytes at [] = expand bytes at
parse_groups zero bytes at (c ∷ s) = none
parse_groups (suc fuel) bytes at [] = expand bytes at
parse_groups (suc fuel) bytes at (c ∷ s) =
    let (n, value, rest) = hex_group 0 0 (c ∷ s) in
    let grown = bytes ++ value / 256 ∷ value % 256 ∷ [] in
    elim (n == 0 || ltb 4 n) [
      | true ↦ none
      | false ↦ elim (starts_with_dot rest) [
        | true ↦ embedded bytes at (c ∷ s)
        | false ↦ elim (next_group at (length grown) rest) [
          | none ↦ none
          | some (at', s') ↦ parse_groups fuel grown at' s'
        ]
      ]
    ]

parse_ipv6 : Text → Option Ip
parse_ipv6 s =
    if has_prefix s (b':' ∷ b':' ∷ [])
    then parse_groups 8 [] (some 0) (drop 2 s)
    else parse_groups 8 [] none s

-- Which of the two forms the first "." or ":" announces.
parse_form : Text → Text → Option Ip
parse_form s [] = none
parse_form s (c ∷ rest) =
    let later = parse_form s rest in
    if c == b'.'
    then elim (parse_ipv4 s) [ none ↦ none | some fields ↦ some (mapped_prefix ++ fields) ]
    else if c == b':'
    then parse_ipv6 s
    else later

-- net.ParseIP, with `nil` as `none`. A zone is refused.
unfoldable pub parse_ip : Text → Option Ip
unfolding parse_field four_fields parse_ipv4 hex_digit hex_group expand starts_with_dot embedded
    next_group parse_groups parse_ipv6 parse_form
parse_ip s = if has_byte b'%' s then none else parse_form s s

unfoldable pub is_loopback_ip : Ip → Bool
is_loopback_ip ip =
    if is_ipv4 ip then byte4_at 0 ip == 127 else text_eq ip (replicate 15 0 ++ 1 ∷ [])

unfoldable pub is_unspecified : Ip → Bool
is_unspecified ip = text_eq ip (ipv4 0 0 0 0) || text_eq ip (replicate 16 0)

unfoldable pub is_link_local_unicast : Ip → Bool
is_link_local_unicast ip =
    if is_ipv4 ip
    then byte4_at 0 ip == 169 && byte4_at 1 ip == 254
    else byte_at 0 ip == 254 && byte_at 1 ip / 64 == 2

unfoldable pub is_multicast : Ip → Bool
is_multicast ip = if is_ipv4 ip then byte4_at 0 ip / 16 == 14 else byte_at 0 ip == 255

unfoldable pub is_link_local_multicast : Ip → Bool
is_link_local_multicast ip =
    if is_ipv4 ip
    then byte4_at 0 ip == 224 && (byte4_at 1 ip == 0 && byte4_at 2 ip == 0)
    else byte_at 0 ip == 255 && byte_at 1 ip % 16 == 2

unfoldable pub is_interface_local_multicast : Ip → Bool
is_interface_local_multicast ip = byte_at 0 ip == 255 && byte_at 1 ip % 16 == 1

ip_program : Unit {0}
unfolding parse_ip parse_digits is_digit has_byte split has_prefix
ip_program = tt

parse_ip-tests :
    (parse_ip (codes "127.0.0.1") ≡ some (ipv4 127 0 0 1))
    × (parse_ip (codes "127.0.0.01") ≡ none)
    × (parse_ip (codes "1.2.3") ≡ none)
    × (parse_ip (codes "::1") ≡ some (replicate 15 0 ++ 1 ∷ []))
    × (parse_ip (codes "::ffff:10.0.0.1") ≡ some (ipv4 10 0 0 1))
    × (parse_ip (codes "fd00:ec2::254")
        ≡ some (253 ∷ 0 ∷ 14 ∷ 194 ∷ (replicate 10 0 ++ 2 ∷ 84 ∷ [])))
    × (parse_ip (codes "1:2:3:4:5:6:7:8:9") ≡ none)
    × (parse_ip (codes "fe80::1%eth0") ≡ none)
    × (parse_ip (codes "::") ≡ some (replicate 16 0))
unfolding ip_program
parse_ip-tests = (refl, refl, refl, refl, refl, refl, refl, refl, refl)
