-- ===== src/Cache/Transport.antt =====
-- `RoundTrip` and `refresh` of internal/cache/cache.go.
pub mod Safety
use hamsterd.Common.{
  ℕ, Bool, true, false, Option, none, some, List, [], ◌∷◌, Text, codes, not, ◌||◌, if◌then◌else◌,
  is_some,
}
use hamsterd.Common.Int.{pos, ltb_ℤ}
use hamsterd.Common.Clock.{Time, Duration}
use hamsterd.Common.Http.{Header, header_set, header_del, Url, Request, Response}
use hamsterd.Cache.Metadata.{Metadata, Codec, status_header}
use hamsterd.Cache.Store.{Store}
use hamsterd.Cache.Request.{KeyFunctions, cache_key, cacheable_url}
use hamsterd.Cache.Expiration.{Expiration, response_expiration}
use hamsterd.Cache.Load.{LoadFaults, load, end_refresh}
use hamsterd.Cache.Capture.{CapturingBody, CaptureFaults, ReadFaults, capture, read, close}

-- What `RoundTrip` returns: an error, a response, or a response whose body is being captured.
pub data Answer : Type 0 where
  failed : Answer
  answered : Response → Answer
  capturing : Response → CapturingBody → Answer

-- What a call calls outside this repository, and what the system answers to it. The base transport
-- answers with a response or with an error, `none`. The three times are those of the three calls of
-- time.Now.
pub record Surroundings : Type 0 where
  pub base : Request → Option Response
  pub keys : KeyFunctions
  pub codec : Codec
  pub parse_time : Text → Option Time
  pub default_ttl : Duration
  pub load_faults : LoadFaults
  pub capture_faults : CaptureFaults
  pub load_time : Time
  pub expiration_time : Time
  pub stored_time : Time

-- response.Header.Set(statusHeader, value)
unfoldable pub with_status : Text → Response → Response
with_status value response = record response {
  header = header_set status_header value response.header;
}

-- The metadata that both functions build.
unfoldable pub metadata_of : Response → Header → Expiration → Time → Metadata
metadata_of response header e now = record {
  status = response.status;
  status_code = response.status_code;
  proto = response.proto;
  proto_major = response.proto_major;
  proto_minor = response.proto_minor;
  header = header;
  size = 0;
  stored_at = now;
  expires_at = e.fresh_until;
  stale_until = e.stale_until;
}

-- Whether both functions give up storing a response that may be stored.
unfoldable pub not_stored : Response → Store → Bool
not_stored response s =
    not (is_some response.body) || ltb_ℤ (pos s.max_object_bytes) response.content_length

-- The answer to a response that is captured.
unfoldable pub captured : Response → Store × Option CapturingBody → Store × Answer
captured response (s, none) = (s, answered (with_status (codes "BYPASS") response))
captured response (s, some body) = (s, capturing (with_status (codes "MISS") response) body)

-- What `RoundTrip` does with a response of the base transport after a miss.
unfoldable pub store_response : Surroundings → Text → Response → Store → Store × Answer
store_response w key response s =
    elim (response_expiration w.parse_time response w.expiration_time w.default_ttl) [
      | none ↦ (s, answered (with_status (codes "BYPASS") response))
      | some e ↦
          if not_stored response s
          then (s, answered (with_status (codes "BYPASS") response))
          else captured response (
              capture w.capture_faults w.stored_time key
                (metadata_of response
                  (header_del status_header (with_status (codes "MISS") response).header) e
                  w.stored_time)
                s)
    ]

unfoldable pub after_load :
    Surroundings → Text → Request → Store × Option (Response × Bool) → Store × Answer × Bool
after_load w key request (s, some (response, refresh)) = (s, answered response, refresh)
after_load w key request (s, none) = elim (w.base request) [
  | none ↦ (s, failed, false)
  | some response ↦ let (s', answer) = store_response w key response s in (s', answer, false)
]

unfoldable pub bypass : Option Response → Answer
bypass none = failed
bypass (some response) = answered (with_status (codes "BYPASS") response)

-- `RoundTrip`; the last result says whether it starts a refresh in the background.
unfoldable pub round_trip : Surroundings → Request → Store → Store × Answer × Bool
round_trip w request s = elim request.url [
  | none ↦ (s, bypass (w.base request), false)
  | some url ↦
      let key = cache_key w.keys request url in
      if not (cacheable_url request url)
      then (s, bypass (w.base request), false)
      else after_load w key request (load w.codec w.load_faults w.load_time key s)
]

-- One `Read` of the body: what the system answers, when, and what the source delivers.
pub record Delivery : Type 0 where
  pub faults : ReadFaults
  pub now : Time
  pub chunk : Text
  pub eof : Bool

-- io.Copy into io.Discard; the list ends where the source answers with io.EOF or with an error.
unfoldable pub drain : Codec → List Delivery → CapturingBody → Store → CapturingBody × Store
drain codec [] b s = (b, s)
drain codec (d ∷ ds) b s =
    let (b', s') = read codec d.faults d.now d.chunk d.eof b s in drain codec ds b' s'

unfoldable pub drained : Surroundings → List Delivery → Store × Option CapturingBody → Store
drained w ds (s, none) = s
drained w ds (s, some body) =
    let (body', s') = drain w.codec ds body s in (close w.capture_faults.removes body' s').1

-- `refresh` without its deferred call.
unfoldable pub refresh_response : Surroundings → List Delivery → Text → Response → Store → Store
refresh_response w ds key response s =
    elim (response_expiration w.parse_time response w.expiration_time w.default_ttl) [
      | none ↦ s
      | some e ↦
          if not_stored response s
          then s
          else drained w ds (
              capture w.capture_faults w.stored_time key
                (metadata_of response response.header e w.stored_time) s)
    ]

unfoldable pub refresh : Surroundings → List Delivery → Text → Request → Store → Store
refresh w ds key request s = elim (w.base request) [
  | none ↦ end_refresh key s
  | some response ↦ end_refresh key (refresh_response w ds key response s)
]
