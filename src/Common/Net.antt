-- ===== src/Common/Net.antt =====
-- net.SplitHostPort, net.JoinHostPort, url.URL.Hostname and url.URL.Port.
pub mod Plain
use mathlib.Core.Bool.{true, false, ◌&&◌, ◌||◌}
use mathlib.Core.List.{[], ◌∷◌, ◌++◌}
use mathlib.Core.Option.{Option, none, some}
use hamsterd.Common.Tests.{◌==◌, if◌then◌else◌}
use hamsterd.Common.Lists.{all}
use hamsterd.Common.Strings.{Text, has_byte, cut_first, cut_last, is_digit}

-- host[:i] and hostport[i+1:] for the last colon of a name without brackets.
split_plain : Text → Option (Text × Text)
split_plain s = elim (cut_last b':' s) [
  | none ↦ none
  | some (host, port) ↦
      if has_byte b':' host || (has_byte b'[' s || has_byte b']' s) then none else some (host, port)
]

-- What follows "]": a colon and a port with no further colon.
port_after : Text → Option Text
port_after [] = none
port_after (c ∷ port) =
    if c == b':' && (if has_byte b':' port then false else true) then some port else none

split_bracketed : Text → Option (Text × Text)
split_bracketed s = elim (cut_first b']' s) [
  | none ↦ none
  | some (host, rest) ↦ elim (port_after rest) [
    | none ↦ none
    | some port ↦ if has_byte b'[' s || has_byte b']' rest then none else some (host, port)
  ]
]

-- net.SplitHostPort, with its errors as `none`.
unfoldable pub split_host_port : Text → Option (Text × Text)
unfolding split_plain split_bracketed port_after
split_host_port [] = none
split_host_port (c ∷ s) = if c == b'[' then split_bracketed s else split_plain (c ∷ s)

-- net.JoinHostPort
unfoldable pub join_host_port : Text → Text → Text
join_host_port host port =
    if has_byte b':' host then b'[' ∷ (host ++ (b']' ∷ b':' ∷ port)) else host ++ b':' ∷ port

strip_brackets : Text → Text
strip_brackets [] = []
strip_brackets (c ∷ s) = elim (cut_last b']' s) [
  | none ↦ c ∷ s
  | some (inner, rest) ↦ elim rest [ [] ↦ if c == b'[' then inner else c ∷ s | _ ∷ _ ↦ c ∷ s ]
]

-- url.Hostname(): the host without a port of digits and without brackets.
unfoldable pub hostname : Text → Text
unfolding strip_brackets
hostname host = elim (cut_last b':' host) [
  | none ↦ strip_brackets host
  | some (name, port) ↦ strip_brackets (if all is_digit port then name else host)
]

-- url.Port(): the port of digits, if there is one.
unfoldable pub url_port : Text → Text
url_port host = elim (cut_last b':' host) [
  | none ↦ []
  | some (name, port) ↦ if all is_digit port then port else []
]
