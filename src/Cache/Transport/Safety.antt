-- ===== src/Cache/Transport/Safety.antt =====
-- Which responses `RoundTrip` of internal/cache/cache.go lets into the cache.
use hamsterd.Common.{
  ◌≡◌, ◌≢◌, ◌∙◌, refl, Bool, true, false, Option, none, some, List, ◌∷◌, Text, codes, not, ◌||◌,
  any, arith, text_eq, text_eq_ne, Bool-cases, Option-cases, inl, inr, if_cases, [],
}
use hamsterd.Common.Strings.{to_lower, contains}
use hamsterd.Common.Http.{Header, header_get, header_set, Url, Request, Response}
use hamsterd.Common.Dict.{lookup}
use hamsterd.Cache.Store.{Store}
use hamsterd.Cache.Store.Keeps.{IsBounded, Keeps, Keeps-refl, Keeps-trans}
use hamsterd.Cache.Request.{
  Directives, parse_cache_control, cache_key, cacheable_url, is_credential_name,
  has_credential_header,
}
use hamsterd.Cache.Metadata.{status_header}
use hamsterd.Cache.Expiration.{Expiration, response_expiration}
use hamsterd.Cache.Expiration.Laws.{directives_of, response_expiration_sound}
use hamsterd.Cache.Load.{load}
use hamsterd.Cache.Load.Invariant.{load-Keeps}
use hamsterd.Cache.Capture.{CapturingBody}
use hamsterd.Cache.Capture.Safety.{capture-Keeps}
use hamsterd.Cache.Transport.{
  Surroundings, Answer, failed, answered, capturing, not_stored, captured, store_response,
  after_load, with_status, bypass, round_trip,
}

-- The field names that carry credentials: these, and those with one of the words in them.
abbrev pub secret_names : List Text
secret_names =
    codes "authorization"
    ∷ codes "proxy-authorization"
    ∷ codes "cookie"
    ∷ codes "metadata"
    ∷ codes "metadata-flavor"
    ∷ codes "x-jfrog-art-api"
    ∷ []

abbrev pub secret_words : List Text
secret_words =
    codes "auth"
    ∷ codes "token"
    ∷ codes "api-key"
    ∷ codes "apikey"
    ∷ codes "api_key"
    ∷ codes "secret"
    ∷ codes "password"
    ∷ codes "credential"
    ∷ codes "session"
    ∷ codes "signature"
    ∷ []

abbrev pub is_secret : Text → Bool
is_secret name =
    any (text_eq (to_lower name)) secret_names || any (contains (to_lower name)) secret_words

abbrev pub has_secret : Header → Bool
has_secret [] = false
has_secret ((name, values) ∷ header) = is_secret name || has_secret header

-- The directives in the first value of Cache-Control.
abbrev pub request_directives : Request → Directives
request_directives request = parse_cache_control (header_get (codes "Cache-Control") request.header)

-- A request that the cache leaves alone.
pub data IsPrivate (request : Request) (url : Url) : Type 0 where
  other_method : request.method ≢ codes "GET" → IsPrivate request url
  with_user : (user : Text) → url.user ≡ some user → IsPrivate request url
  part_only : header_get (codes "Range") request.header ≢ [] → IsPrivate request url
  with_secret : has_secret request.header ≡ true → IsPrivate request url
  forbids_storing :
      (value : Text)
      → lookup (codes "no-store") (request_directives request) ≡ some value
      → IsPrivate request url
  wants_fresh :
      (value : Text)
      → lookup (codes "no-cache") (request_directives request) ≡ some value
      → IsPrivate request url

is_credential_name_lem : (name : Text) → is_credential_name name ≡ is_secret name
unfolding is_credential_name
is_credential_name_lem name = refl

has_credential_header_lem : (header : Header) → has_credential_header header ≡ has_secret header
unfolding has_credential_header
has_credential_header_lem [] = refl
has_credential_header_lem ((name, values) ∷ header) =
    rw (is_credential_name_lem name, has_credential_header_lem header) refl

IsPrivate-cacheable_url :
    (request : Request) (url : Url) → IsPrivate request url → cacheable_url request url ≡ false
unfolding cacheable_url
IsPrivate-cacheable_url request url (other_method h) =
    ground (arith, text_eq_ne request.method (codes "GET") h)
IsPrivate-cacheable_url request url (with_user user h) = ground (arith, h)
IsPrivate-cacheable_url request url (part_only h) =
    ground (arith, text_eq_ne (header_get (codes "Range") request.header) [] h)
IsPrivate-cacheable_url request url (with_secret h) =
    let found = has_credential_header_lem request.header ∙ h in ground (arith, found)
IsPrivate-cacheable_url request url (forbids_storing value h) = ground (arith, h)
IsPrivate-cacheable_url request url (wants_fresh value h) = ground (arith, h)

-- The base transport alone has answered, with BYPASS in the status header of the response.
abbrev pub Bypasses : Option Response → Answer → Type 0
Bypasses none answer = answer ≡ failed
Bypasses (some response) answer =
    answer
    ≡ answered
        (record response { header = header_set status_header (codes "BYPASS") response.header })

bypass-Bypasses : (r : Option Response) → Bypasses r (bypass r)
unfolding bypass with_status
bypass-Bypasses none = refl
bypass-Bypasses (some response) = refl

-- What makes a response fit for the cache.
pub record IsShared (w : Surroundings) (response : Response) : Type 0 where
  pub ok : response.status_code ≡ 200
  pub no_cookie : header_get (codes "Set-Cookie") response.header ≡ codes ""
  pub whole : header_get (codes "Content-Range") response.header ≡ codes ""
  pub no_store : lookup (codes "no-store") (directives_of response) ≡ none
  pub no_cache : lookup (codes "no-cache") (directives_of response) ≡ none
  pub not_private : lookup (codes "private") (directives_of response) ≡ none

IsShared-of_expiration :
    (w : Surroundings) (response : Response) (e : Expiration)
    → response_expiration w.parse_time response w.expiration_time w.default_ttl ≡ some e
    → IsShared w response
IsShared-of_expiration w response e h =
    let (a, b, c, d, f, g, _) =
      response_expiration_sound w.parse_time response w.expiration_time w.default_ttl e h in
    record { ok = a; no_cookie = b; whole = c; no_store = d; no_cache = f; not_private = g }

-- The answer that a capture is.
abbrev pub is_capture : Answer → Bool
is_capture failed = false
is_capture (answered r) = false
is_capture (capturing r b) = true

store_response-IsShared :
    (w : Surroundings) (key : Text) (response : Response) (s : Store)
    → is_capture (store_response w key response s).1 ≡ true
    → IsShared w response
unfolding store_response
store_response-IsShared w key response s h =
    elim (Option-cases
      (response_expiration w.parse_time response w.expiration_time w.default_ttl)) [
        | inl refused ↦ let clash : false ≡ true = rw (refused, store_response) at h in absurd (cc)
        | inr (e, stored) ↦ IsShared-of_expiration w response e stored
      ]

captured-Keeps :
    (response : Response) (s : Store) (r : Store × Option CapturingBody)
    → Keeps s r.0
    → Keeps s (captured response r).0
unfolding captured
captured-Keeps response s (s', none) k = k
captured-Keeps response s (s', some body) k = k

store_response-Keeps :
    (w : Surroundings) (key : Text) (response : Response) (s : Store)
    → Keeps s (store_response w key response s).0
unfolding store_response
store_response-Keeps w key response s =
    elim (Option-cases
      (response_expiration w.parse_time response w.expiration_time w.default_ttl)) [
        | inl refused ↦ rw (refused, store_response) (Keeps-refl s)
        | inr (e, stored) ↦
            rw (stored, store_response)
              (if_cases (λ (r : Store × Answer). Keeps s r.0) (not_stored response s)
                (λ _. Keeps-refl s)
                λ _.
                  captured-Keeps response s _
                    (capture-Keeps w.capture_faults w.stored_time key _ s).0)
      ]

after_load-Keeps :
    (w : Surroundings) (key : Text) (request : Request) (s : Store)
    (r : Store × Option (Response × Bool))
    → Keeps s r.0
    → Keeps s (after_load w key request r).0
unfolding after_load
after_load-Keeps w key request s (s', some (response, again)) k = k
after_load-Keeps w key request s (s', none) k = elim (Option-cases (w.base request)) [
  | inl down ↦ rw (down, after_load) k
  | inr (response, up) ↦
      rw (up, after_load) (Keeps-trans k (store_response-Keeps w key response s'))
]

after_load-IsShared :
    (w : Surroundings) (key : Text) (request : Request) (r : Store × Option (Response × Bool))
    → is_capture (after_load w key request r).1 ≡ true
    → (response : Response) × (w.base request ≡ some response) × IsShared w response
unfolding after_load
after_load-IsShared w key request (s, some (response, again)) h = absurd (cc)
after_load-IsShared w key request (s, none) h = elim (Option-cases (w.base request)) [
  | inl down ↦ let clash : false ≡ true = rw (down, after_load) at h in absurd (cc)
  | inr (response, up) ↦
      (response, up, store_response-IsShared w key response s (rw (up, after_load) at h))
]

bypass-not_capture : (r : Option Response) → is_capture (bypass r) ≡ false
unfolding bypass
bypass-not_capture none = refl
bypass-not_capture (some response) = refl

module _ (w : Surroundings) (request : Request) (url : Url) (has_url : request.url ≡ some url) where
  round_trip-bypass :
      (s : Store)
      → cacheable_url request url ≡ false
      → round_trip w request s ≡ (s, bypass (w.base request), false)
  unfolding round_trip
  round_trip-bypass s h = ground (arith, has_url, h)

  -- A request with another method than GET, with user information in its URL, with a Range
  -- header whose first value is not empty, with a header that carries credentials, or with
  -- no-store or no-cache in the first value of its Cache-Control neither reads nor changes
  -- the cache and starts no refresh: the base transport alone answers it, and a response is
  -- marked BYPASS.
  pub round_trip-private :
      (s : Store)
      → IsPrivate request url
      → let (s', answer, refresh) = round_trip w request s in
        (s' ≡ s) × Bypasses (w.base request) answer × (refresh ≡ false)
  round_trip-private s h =
      rw (round_trip-bypass s (IsPrivate-cacheable_url request url h))
        (refl, bypass-Bypasses (w.base request), refl)

  -- If the cache answers a cacheable request, the result is the same with every base transport.
  pub round_trip-hit :
      (base : Request → Option Response) (s : Store) (r : Response × Bool)
      → cacheable_url request url ≡ true
      → (load w.codec w.load_faults w.load_time (cache_key w.keys request url) s).1 ≡ some r
      → round_trip (record w { base = base }) request s ≡ round_trip w request s
  unfolding round_trip after_load
  round_trip-hit base s r h e = rw (has_url, round_trip, h, after_load, e)

  -- A response that `RoundTrip` captures for the cache comes from the base transport for a
  -- GET request without user information, credentials, a first value of Range, and no-store
  -- or no-cache in its first value of Cache-Control, and has status 200, an absent or empty
  -- first value of Set-Cookie and of Content-Range, and none of no-store, no-cache and
  -- private in its first value of Cache-Control.
  pub round_trip-IsShared :
      (s : Store)
      → is_capture (round_trip w request s).1 ≡ true
      → (¬ IsPrivate request url)
        × ((response : Response) × (w.base request ≡ some response) × IsShared w response)
  unfolding round_trip
  round_trip-IsShared s h = elim (Bool-cases (cacheable_url request url)) [
    | inr refused ↦
        let clash : is_capture (bypass (w.base request)) ≡ true =
          rw (has_url, round_trip, refused) at h in
        absurd (let none_here = bypass-not_capture (w.base request) in cc)
    | inl cacheable ↦ (
      λ own. absurd (let never = IsPrivate-cacheable_url request url own in cc),
      after_load-IsShared w (cache_key w.keys request url) request _
          (rw (has_url, round_trip, cacheable) at h),
    )
  ]

  -- On every branch of `RoundTrip` the index and the map of the store go on agreeing, `total` is
  -- the sum of the sizes and within `maxBytes`, and `pending` stays.
  pub round_trip-IsBounded :
      (s : Store)
      → IsBounded s
      → IsBounded (round_trip w request s).0 × ((round_trip w request s).0.pending ≡ s.pending)
  unfolding round_trip
  round_trip-IsBounded s b =
      let key = cache_key w.keys request url in
      let k : Keeps s (round_trip w request s).0 =
        rw (has_url, round_trip)
          (if_cases (λ (r : Store × Answer × Bool). Keeps s r.0) (not (cacheable_url request url))
            (λ _. Keeps-refl s)
            λ _.
              after_load-Keeps w key request s _
                (load-Keeps w.codec w.load_faults w.load_time key s)) in
      (k.bounded b, k.frame.pending)
