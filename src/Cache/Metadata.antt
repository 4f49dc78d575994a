-- ===== src/Cache/Metadata.antt =====
-- The metadata of an entry and its JSON form; `responseAge` of internal/cache/cache.go.
use hamsterd.Common.{ℕ, Option, none, some, Text, codes, ◌*◌, if◌then◌else◌, text_eq, []}
use hamsterd.Common.Int.{ℤ, pos, ltb_ℤ}
use hamsterd.Common.Clock.{Time}
use hamsterd.Common.Numbers.{parse_int}
use hamsterd.Common.Http.{Header, header_get}

pub record Metadata : Type 0 where
  pub status : Text
  pub status_code : ℕ
  pub proto : Text
  pub proto_major : ℕ
  pub proto_minor : ℕ
  pub header : Header
  pub size : ℕ
  pub stored_at : Time
  pub expires_at : Time
  pub stale_until : Time

abbrev pub max_metadata_bytes : ℕ
max_metadata_bytes = 64 * 1024

abbrev pub status_header : Text
status_header = codes "X-Hamsterd-Cache"

-- Package encoding/json at type `metadata`; `none` is an error.
pub record Codec : Type 0 where
  pub marshal : Metadata → Option Text
  pub unmarshal : Text → Option Metadata

-- `responseAge`, with the error as `none`.
unfoldable pub response_age : Header → Option ℤ
unfolding header_get parse_int text_eq
response_age header =
    let raw = header_get (codes "Age") header in
    if text_eq raw [] then some (pos 0) else elim (parse_int raw) [
      | none ↦ none
      | some age ↦ if ltb_ℤ age (pos 0) then none else some age
    ]
