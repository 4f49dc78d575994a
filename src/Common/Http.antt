-- ===== src/Common/Http.antt =====
-- Package net/http as far as the program reads it: headers, requests, responses and URLs.
use Prim.Native.Nat.{ℕ, ◌-◌, ◌+◌}
use mathlib.Core.Bool.{Bool, true, false, ◌&&◌}
use mathlib.Core.List.{List, [], ◌∷◌}
use mathlib.Core.Option.{Option, none, some}
use hamsterd.Common.Int.{ℤ}
use hamsterd.Common.Strings.{Text}
use hamsterd.Common.Tests.{leb, ◌==◌, if◌then◌else◌}
use hamsterd.Common.Dict.{Dict, lookup, insert, delete}

abbrev pub Header : Type 0
Header = Dict (List Text)

-- Upper case at the start and after a dash, lower case elsewhere; the flag says which comes next.
canonical_from : Bool → Text → Text
canonical_from up [] = []
canonical_from up (c ∷ s) =
    (if up && leb b'a' c && leb c b'z'
      then c - 32
      else if (if up then false else true) && leb b'A' c && leb c b'Z'
      then c + 32
      else c)
    ∷ canonical_from (c == b'-') s

-- textproto.CanonicalMIMEHeaderKey of a valid field name.
unfoldable pub canonical : Text → Text
unfolding canonical_from
canonical s = canonical_from true s

abbrev values_or_none : Option (List Text) → List Text
values_or_none none = []
values_or_none (some vs) = vs

abbrev first_or_empty : List Text → Text
first_or_empty [] = []
first_or_empty (v ∷ vs) = v

-- header.Values(name)
unfoldable pub header_values : Text → Header → List Text
unfolding canonical
header_values name h = values_or_none (lookup (canonical name) h)

-- header.Get(name)
unfoldable pub header_get : Text → Header → Text
unfolding header_values
header_get name h = first_or_empty (header_values name h)

-- header.Set(name, value)
unfoldable pub header_set : Text → Text → Header → Header
unfolding canonical
header_set name value h = insert (canonical name) (value ∷ []) h

-- header.Del(name)
unfoldable pub header_del : Text → Header → Header
unfolding canonical
header_del name h = delete (canonical name) h

pub record Url : Type 0 where
  pub scheme : Text
  -- the user information, if the URL has any
  pub user : Option Text
  -- host or host:port
  pub host : Text
  pub path : Text
  -- the path as it was encoded, where that is not the default encoding
  pub raw_path : Text
  -- a question mark with no query behind it
  pub force_query : Bool
  pub raw_query : Text
  pub fragment : Text

pub record Request : Type 0 where
  pub method : Text
  pub url : Option Url
  pub header : Header
  pub host : Text

pub record Response : Type 0 where
  pub status : Text
  pub status_code : ℕ
  pub proto : Text
  pub proto_major : ℕ
  pub proto_minor : ℕ
  pub header : Header
  pub body : Option Text
  pub content_length : ℤ
