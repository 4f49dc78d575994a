-- ===== src/Cache/Request.antt =====
-- Which requests internal/cache/cache.go answers from the cache, and the Cache-Control directives.
use hamsterd.Common.{
  Bool, true, false, none, some, List, [], ◌∷◌, ◌++◌, Text, codes, text_eq, not, ◌&&◌, ◌||◌, any,
  if◌then◌else◌, is_some,
}
use hamsterd.Common.Strings.{
  to_lower, trim_space, contains, split, cut_first, trim_byte, trim_last, join,
}
use hamsterd.Common.Dict.{Dict, lookup, insert}
use hamsterd.Common.Http.{Header, header_get, header_values, Url, Request}
use hamsterd.Common.Ip.{Ip, parse_ip, is_link_local_unicast}
use hamsterd.Common.Net.{hostname}

abbrev pub Directives : Type 0
Directives = Dict Text

-- One part of a Cache-Control value.
unfoldable pub add_directive : Text → Directives → Directives
add_directive part result = elim (cut_first b'=' (trim_space part)) [
  | none ↦
      let key = to_lower (trim_space (trim_space part)) in
      if text_eq key [] then result else insert key [] result
  | some (name, raw) ↦
      let key = to_lower (trim_space name) in
      if text_eq key [] then result else insert key (trim_byte b'"' (trim_space raw)) result
]

unfoldable pub add_directives : List Text → Directives → Directives
add_directives [] result = result
add_directives (part ∷ parts) result = add_directives parts (add_directive part result)

unfoldable pub parse_cache_control : Text → Directives
parse_cache_control value = add_directives (split b',' value) []

abbrev pub has_directive : Text → Directives → Bool
has_directive key d = is_some (lookup key d)

abbrev pub credential_headers : List Text
credential_headers =
    codes "authorization"
    ∷ codes "proxy-authorization"
    ∷ codes "cookie"
    ∷ codes "metadata"
    ∷ codes "metadata-flavor"
    ∷ codes "x-jfrog-art-api"
    ∷ []

abbrev pub credential_header_parts : List Text
credential_header_parts =
    codes "auth"
    ∷ codes "token"
    ∷ codes "api-key"
    ∷ codes "apikey"
    ∷ codes "api_key"
    ∷ codes "secret"
    ∷ codes "password"
    ∷ codes "credential"
    ∷ codes "session"
    ∷ codes "signature"
    ∷ []

-- The body of the loop of `hasCredentialHeader`, for one field name.
unfoldable pub is_credential_name : Text → Bool
is_credential_name name =
    let lower = to_lower name in
    any (text_eq lower) credential_headers || any (contains lower) credential_header_parts

unfoldable pub has_credential_header : Header → Bool
has_credential_header [] = false
has_credential_header ((name, _) ∷ header) = is_credential_name name || has_credential_header header

abbrev equals_literal : Ip → Text → Bool
equals_literal ip text = elim (parse_ip text) [ none ↦ false | some other ↦ text_eq ip other ]

unfoldable pub private_destination : Text → Bool
private_destination raw =
    let host = trim_last b'.' (to_lower raw) in
    if text_eq host (codes "metadata.google.internal") || text_eq host (codes "metadata.goog")
    then true
    else elim (parse_ip host) [
      | none ↦ false
      | some ip ↦
          is_link_local_unicast ip
          || (equals_literal ip (codes "fd00:ec2::254")
              || equals_literal ip (codes "100.100.100.200"))
    ]

unfoldable pub cacheable_url : Request → Url → Bool
cacheable_url request url =
    if not (text_eq request.method (codes "GET")) || is_some url.user
    then false
    else if not (text_eq (header_get (codes "Range") request.header) [])
        || (has_credential_header request.header || private_destination (hostname url.host))
    then false
    else let directives = parse_cache_control (header_get (codes "Cache-Control") request.header) in
      not (has_directive (codes "no-store") directives)
      && not (has_directive (codes "no-cache") directives)

unfoldable pub cacheable_request : Request → Bool
cacheable_request request = elim request.url [ none ↦ false | some url ↦ cacheable_url request url ]

-- What `cacheKey` calls outside this repository: url.URL.String and the hexadecimal SHA-256.
pub record KeyFunctions : Type 0 where
  pub url_string : Url → Text
  pub digest : Text → Text

-- The text that is hashed.
unfoldable pub key_text : KeyFunctions → Request → Url → Text
key_text f request url =
    request.method
    ++ (codes "\n"
        ++ (f.url_string url
            ++ (codes "\naccept-encoding:"
                ++ (join (0 ∷ []) (header_values (codes "Accept-Encoding") request.header)
                    ++ (codes "\norigin:"
                        ++ join (0 ∷ []) (header_values (codes "Origin") request.header))))))

unfoldable pub cache_key : KeyFunctions → Request → Url → Text
cache_key f request url = f.digest (key_text f request url)
