-- ===== src/Config/Target.antt =====
-- Targets, domains and listen addresses of internal/config/config.go.
use hamsterd.Common.{
  ℕ, Bool, true, false, Option, none, some, [], ◌∷◌, Text, codes, text_eq, not, ◌&&◌, ◌||◌, ltb,
  leb, ◌==◌, all, length, if◌then◌else◌,
}
use hamsterd.Common.Int.{pos, ltb_ℤ}
use hamsterd.Common.Strings.{
  to_lower, trim_space, trim_last, contains_any, cut_scheme, split, is_digit,
}
use hamsterd.Common.Numbers.{parse_int}
use hamsterd.Common.Ip.{parse_ip, is_loopback_ip}
use hamsterd.Common.Net.{split_host_port}

pub record Target : Type 0 where
  pub scheme : Text
  pub address : Text
  pub explicit : Bool

-- strconv.Atoi with the range check 1 to 65535.
unfoldable pub valid_port : Text → Bool
valid_port port = elim (parse_int port) [
  | none ↦ false
  | some n ↦ not (ltb_ℤ n (pos 1) || ltb_ℤ (pos 65535) n)
]

-- The first half of `ParseTarget`: the scheme, if there is one.
unfoldable pub split_target : Text → Option Target
split_target raw = elim (cut_scheme raw) [
  | none ↦ some (record { scheme = []; address = raw; explicit = false })
  | some (before, rest) ↦
      let scheme = to_lower before in
      if not (text_eq scheme (codes "http")) && not (text_eq scheme (codes "https"))
      then none
      else some (record { scheme = scheme; address = trim_last b'/' rest; explicit = true })
]

unfoldable pub default_scheme : Text → Target → Target
default_scheme port target =
    if text_eq target.scheme []
    then record target {
      scheme = if text_eq port (codes "443") then codes "https" else codes "http";
    }
    else target

-- The second half: the address.
unfoldable pub check_address : Target → Option Target
check_address target = elim (split_host_port target.address) [
  | none ↦ none
  | some (host, port) ↦
      if text_eq host [] || (text_eq port [] || contains_any target.address (codes "/?#@"))
      then none
      else if not (valid_port port)
      then none
      else some (default_scheme port target)
]

-- `ParseTarget`, with its errors as `none`.
unfoldable pub parse_target : Text → Option Target
parse_target raw = elim (split_target raw) [ none ↦ none | some target ↦ check_address target ]

-- strings.EqualFold of ASCII texts.
abbrev pub equal_fold : Text → Text → Bool
equal_fold s t = text_eq (to_lower s) (to_lower t)

unfoldable pub is_loopback : Text → Bool
is_loopback host =
    if equal_fold host (codes "localhost")
    then true
    else elim (parse_ip host) [ none ↦ false | some ip ↦ is_loopback_ip ip ]

-- `Loopback` of a target.
unfoldable pub loopback : Target → Bool
loopback target = elim (split_host_port target.address) [
  | none ↦ false
  | some (host, _) ↦ is_loopback host
]

-- Whether `validateListen` accepts the address.
unfoldable pub validate_listen : Text → Bool → Bool
validate_listen address allow_remote = elim (split_host_port address) [
  | none ↦ false
  | some (host, port) ↦
      if not (valid_port port)
      then false
      else if not allow_remote && not (is_loopback host)
      then false
      else true
]

unfoldable pub normalize_domain : Text → Text
normalize_domain domain = trim_last b'.' (to_lower (trim_space domain))

abbrev pub domain_byte : ℕ → Bool
domain_byte c = (leb b'a' c && leb c b'z') || (is_digit c || (c == b'-' || c == b'_'))

abbrev first_byte : Text → ℕ
first_byte [] = 0
first_byte (c ∷ s) = c

abbrev last_byte : Text → ℕ
last_byte [] = 0
last_byte (c ∷ []) = c
last_byte (c ∷ d ∷ s) = last_byte (d ∷ s)

-- The checks on one label of a hostname.
unfoldable pub valid_label : Text → Bool
valid_label label =
    if text_eq label []
      || (ltb 63 (length label) || (first_byte label == b'-' || last_byte label == b'-'))
    then false
    else all domain_byte label

unfoldable pub valid_domain : Text → Bool
valid_domain domain = elim (parse_ip domain) [
  | some _ ↦ true
  | none ↦
      if text_eq domain [] || ltb 253 (length domain)
      then false
      else all valid_label (split b'.' domain)
]
