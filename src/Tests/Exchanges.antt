-- ===== src/Tests/Exchanges.antt =====
-- Runs of `RoundTrip` of internal/cache.
use hamsterd.Common.{◌≡◌, refl, Bool, true, false, none, some, [], ◌∷◌, codes}
use hamsterd.Common.Int.{pos}
use hamsterd.Common.Strings.{has_prefix, contains, trim_last, has_suffix, cut_last, join}
use hamsterd.Common.Ip.{parse_ip, is_link_local_unicast}
use hamsterd.Common.Net.{hostname, split_host_port}
use hamsterd.Common.Http.{Request, Response, Url, header_set, header_del}
use hamsterd.Cache.Request.{
  KeyFunctions, key_text, cache_key, cacheable_url, has_credential_header, is_credential_name,
  private_destination,
}
use hamsterd.Cache.Load.{load}
use hamsterd.Cache.Transport.{
  Surroundings, with_status, metadata_of, not_stored, captured, store_response, after_load, bypass,
  round_trip,
}
use hamsterd.Cache.Transport.Safety.{
  IsPrivate, with_secret, Bypasses, is_capture, IsShared, round_trip-private, round_trip-IsShared,
}
use hamsterd.Tests.Stored.{empty_store, response_with, no_times, headers_program}
use hamsterd.Tests.Downloads.{codec, good_load, good_capture, stored, stored-IsBounded}
use hamsterd.Tests.Downloads

abbrev served : Response
served = record (response_with (codes "max-age=60")) { body = some (codes "hello") }

-- The key of a URL is its path.
abbrev keys : KeyFunctions
keys = record { url_string = λ url. url.path; digest = λ text. text }

abbrev surroundings : Surroundings
surroundings = record {
  base = λ request. some served;
  keys = keys;
  codec = codec;
  parse_time = no_times;
  default_ttl = pos 0;
  load_faults = good_load;
  capture_faults = good_capture;
  load_time = pos 150;
  expiration_time = pos 151;
  stored_time = pos 152;
}

-- Every text has the digest under which the store holds its entry.
abbrev found : Surroundings
found = record surroundings {
  keys = record { url_string = λ url. url.path; digest = λ text. codes "k" };
}

abbrev url : Url
url = record {
  scheme = codes "https";
  user = none;
  host = codes "example.com:443";
  path = codes "/a";
  raw_path = [];
  force_query = false;
  raw_query = [];
  fragment = [];
}

abbrev plain : Request
plain = record { method = codes "GET"; url = some url; header = []; host = [] }

abbrev secret : Request
secret = record plain { header = (codes "X-Auth-Token", codes "s" ∷ []) ∷ [] }

all_programs : Unit {0}
unfolding headers_program Downloads.program round_trip after_load store_response captured not_stored
    with_status metadata_of bypass cacheable_url has_credential_header is_credential_name
    private_destination hostname split_host_port trim_last contains has_prefix has_suffix cut_last
    join key_text cache_key parse_ip is_link_local_unicast header_set header_del
all_programs = tt

plain_cacheable : cacheable_url plain url ≡ true
unfolding all_programs
plain_cacheable = refl

plain_captured : is_capture (round_trip surroundings plain empty_store).1 ≡ true
unfolding all_programs
plain_captured = refl

secret-IsPrivate : IsPrivate secret url
unfolding all_programs
secret-IsPrivate = with_secret refl

round_trip-private_example :
    let (s, answer, refresh) = round_trip surroundings secret stored in
    (s ≡ stored) × Bypasses (some served) answer × (refresh ≡ false)
round_trip-private_example = round_trip-private surroundings secret url refl stored secret-IsPrivate

round_trip-IsShared_example :
    (¬ IsPrivate plain url)
    × ((response : Response) × (some served ≡ some response) × IsShared surroundings response)
round_trip-IsShared_example =
    round_trip-IsShared surroundings plain url refl empty_store plain_captured

-- What `load` answers.
abbrev hit : Response × Bool
hit = elim (load codec good_load (pos 150) (codes "k") stored).1 [
  | none ↦ (served, false)
  | some r ↦ r
]

hit_found : (load codec good_load (pos 150) (cache_key found.keys plain url) stored).1 ≡ some hit
unfolding all_programs
hit_found = refl
