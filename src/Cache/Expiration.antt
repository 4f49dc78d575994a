-- ===== src/Cache/Expiration.antt =====
-- `responseExpiration` and `supportedVary` of internal/cache/cache.go: whether a response may be
-- stored, and until when it is fresh and may be served stale.
pub mod Laws
use hamsterd.Common.{
  ℕ, Bool, true, false, Option, none, some, List, [], ◌∷◌, Text, codes, text_eq, not, ◌&&◌, ◌||◌,
  ◌==◌, all, if◌then◌else◌,
}
use hamsterd.Common.Int.{ℤ, pos, ◌-ℤ◌, ltb_ℤ, wrap64}
use hamsterd.Common.Clock.{Time, Duration, after, add_time, seconds_duration}
use hamsterd.Common.Dict.{lookup}
use hamsterd.Common.Numbers.{parse_int}
use hamsterd.Common.Strings.{to_lower, trim_space, split}
use hamsterd.Common.Http.{Header, header_get, header_values, Response}
use hamsterd.Cache.Metadata.{response_age}
use hamsterd.Cache.Request.{Directives, has_directive, parse_cache_control}

pub record Expiration : Type 0 where
  pub fresh_until : Time
  pub stale_until : Time

unfoldable pub supported_field : Text → Bool
supported_field field =
    let name = to_lower (trim_space field) in
    text_eq name [] || (text_eq name (codes "accept-encoding") || text_eq name (codes "origin"))

unfoldable pub supported_vary : List Text → Bool
supported_vary values = all (λ value. all supported_field (split b',' value)) values

-- strconv.ParseInt of a directive's value, refused if it is negative.
unfoldable pub directive_seconds : Text → Option ℤ
directive_seconds raw = elim (parse_int raw) [
  | none ↦ none
  | some seconds ↦ if ltb_ℤ seconds (pos 0) then none else some seconds
]

-- now.Add(time.Duration(seconds - age) * time.Second), at 64 bits.
unfoldable pub fresh_from_age : Time → ℤ → ℤ → Time
fresh_from_age now seconds age = add_time now (seconds_duration (wrap64 (seconds -ℤ age)))

unfoldable pub fresh_from_max_age : Time → Header → Text → Option Time
fresh_from_max_age now header raw = elim (directive_seconds raw) [
  | none ↦ none
  | some seconds ↦ elim (response_age header) [
    | none ↦ none
    | some age ↦ some (fresh_from_age now seconds age)
  ]
]

unfoldable pub stale_until : Directives → Time → Option Time
stale_until directives fresh = elim (lookup (codes "stale-while-revalidate") directives) [
  | none ↦ some fresh
  | some raw ↦ elim (directive_seconds raw) [
    | none ↦ none
    | some seconds ↦ some (add_time fresh (seconds_duration seconds))
  ]
]

-- What the status and the headers alone forbid.
unfoldable pub refused_response : Response → Bool
refused_response response =
    not (response.status_code == 200)
    || (not (text_eq (header_get (codes "Set-Cookie") response.header) [])
        || (not (supported_vary (header_values (codes "Vary") response.header))
            || not (text_eq (header_get (codes "Content-Range") response.header) [])))

unfoldable pub refused_directives : Directives → Bool
refused_directives d =
    has_directive (codes "no-store") d
    || (has_directive (codes "no-cache") d || has_directive (codes "private") d)

-- `parse_time` is http.ParseTime.
module _ (parse_time : Text → Option Time) where
  unfoldable pub fresh_from_expires : Time → Text → Option Time
  fresh_from_expires now raw = elim (parse_time raw) [
    | none ↦ none
    | some expires_at ↦ if after expires_at now then some expires_at else none
  ]

  -- The three sources of freshness, in the order of the code.
  unfoldable pub fresh_until : Header → Directives → Time → Duration → Option Time
  fresh_until header directives now default_ttl = elim (lookup (codes "max-age") directives) [
    | some raw ↦ fresh_from_max_age now header raw
    | none ↦
        if not (text_eq (header_get (codes "Expires") header) [])
        then fresh_from_expires now (header_get (codes "Expires") header)
        else if not (text_eq (header_get (codes "ETag") header) [])
            || not (text_eq (header_get (codes "Last-Modified") header) [])
        then some (add_time now default_ttl)
        else none
  ]

  -- `none` is the result with `false`.
  unfoldable pub response_expiration : Response → Time → Duration → Option Expiration
  response_expiration response now default_ttl =
      let directives = parse_cache_control (header_get (codes "Cache-Control") response.header) in
      if refused_response response
      then none
      else if refused_directives directives
      then none
      else elim (fresh_until response.header directives now default_ttl) [
        | none ↦ none
        | some fresh ↦ elim (stale_until directives fresh) [
          | none ↦ none
          | some stale ↦
              if after stale now
              then some (record { fresh_until = fresh; stale_until = stale })
              else none
        ]
      ]
