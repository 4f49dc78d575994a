-- ===== src/Tests/Stored.antt =====
-- Runs of the store of internal/cache.
use hamsterd.Common.{◌≡◌, refl, true, Option, none, some, [], ◌∷◌, Text, codes, arith}
use hamsterd.Common.Int.{pos, ◌+ℤ◌, ◌-ℤ◌, ◌*ℤ◌, wrap64}
use hamsterd.Common.Strings.{
  text_eq, lower_byte, is_space, trim_left, trim_right, trim_space, split, cut_first, trim_byte,
  trim_byte_left, is_digit, has_byte, has_prefix,
}
use hamsterd.Common.Clock.{Time, second, seconds_duration}
use hamsterd.Common.Dict.{lookup, insert, delete}
use hamsterd.Common.Numbers.{parse_int, parse_digits}
use hamsterd.Common.Http.{canonical, header_get, header_values, Response}
use hamsterd.Cache.Disk.{path_eq, Disk, remove_file, put_file}
use hamsterd.Cache.Metadata.{response_age}
use hamsterd.Cache.Store.{
  Store, remove_element, has_element, move_to_front, back, remove_files, unindex, remove_locked,
  evict_loop, evict_locked, push_front,
}
use hamsterd.Cache.Store.Index.{longest_fit, sum_sizes, find_key}
use hamsterd.Cache.Store.Invariant.{IsValid, push_front-IsValid, evict_locked-longest_fit}
use hamsterd.Cache.Request.{add_directive, add_directives, parse_cache_control}
use hamsterd.Cache.Expiration.{
  Expiration, supported_field, supported_vary, directive_seconds, fresh_from_age,
  fresh_from_max_age, fresh_from_expires, fresh_until, stale_until, refused_response,
  refused_directives, response_expiration,
}
use hamsterd.Cache.Expiration.Laws.{directives_of, max_age_exact, max_age_wraps}

abbrev pub no_files : Disk
no_files p = none

abbrev pub empty_store : Store
empty_store = record {
  max_bytes = 200;
  max_object_bytes = 100;
  pending = 0;
  refreshing = [];
  index = [];
  entries = [];
  total = 0;
  next_id = 0;
  next_temporary = 0;
  disk = no_files;
}

pub empty-IsValid : IsValid empty_store
unfolding sum_sizes find_key lookup
empty-IsValid = record { distinct = tt; fresh = tt; counted = refl; agree = λ k. refl }

abbrev one_entry : Store
one_entry = push_front (codes "a") 90 empty_store

abbrev two_entries : Store
two_entries = push_front (codes "b") 80 one_entry

abbrev three_entries : Store
three_entries = push_front (codes "c") 100 two_entries

program : Unit {0}
unfolding remove_element has_element move_to_front back remove_files unindex remove_locked
    evict_loop evict_locked push_front path_eq remove_file put_file lookup insert delete text_eq
    longest_fit
program = tt

three-IsValid : IsValid three_entries
unfolding program
three-IsValid =
    push_front-IsValid (codes "c") 100 two_entries
      (push_front-IsValid (codes "b") 80 one_entry
        (push_front-IsValid (codes "a") 90 empty_store empty-IsValid refl) refl)
      refl

-- The oldest of the three entries goes.
evicted : (evict_locked (λ _. true) three_entries).total ≡ 180
unfolding program
evicted = refl

evict_locked-longest_fit_example :
    (evict_locked (λ _. true) three_entries).index ≡ longest_fit 200 three_entries.index
unfolding push_front
evict_locked-longest_fit_example = evict_locked-longest_fit (λ _. true) three_entries three-IsValid

abbrev pub response_with : Text → Response
response_with cache_control = record {
  status = codes "200 OK";
  status_code = 200;
  proto = codes "HTTP/1.1";
  proto_major = 1;
  proto_minor = 1;
  header = (codes "Cache-Control", cache_control ∷ []) ∷ (codes "Age", codes "10" ∷ []) ∷ [];
  body = none;
  content_length = pos 0;
}

abbrev pub no_times : Text → Option Time
no_times text = none

abbrev a_minute : Expiration
a_minute = record { fresh_until = pos 50_000_000_007; stale_until = pos 55_000_000_007 }

unfoldable pub headers_program : Unit {0}
unfolding program add_directive add_directives parse_cache_control supported_field supported_vary
    directive_seconds fresh_from_age fresh_from_max_age fresh_from_expires fresh_until stale_until
    refused_response refused_directives response_expiration response_age canonical header_get
    header_values lower_byte is_space trim_left trim_right trim_space split cut_first trim_byte
    trim_byte_left is_digit has_byte has_prefix parse_int parse_digits seconds_duration ◌+ℤ◌ ◌-ℤ◌
    ◌*ℤ◌ wrap64
headers_program = tt

abbrev minute_response : Response
minute_response = response_with (codes "public, Max-Age=\"60\", stale-while-revalidate=5")

stored_minute : response_expiration no_times minute_response (pos 7) (pos 0) ≡ some a_minute
unfolding headers_program
stored_minute = refl

refused_private :
    response_expiration no_times (response_with (codes "private, max-age=60")) (pos 7) (pos 0)
    ≡ none
unfolding headers_program
refused_private = refl

given_minute : lookup (codes "max-age") (directives_of minute_response) ≡ some (codes "60")
unfolding headers_program
given_minute = refl

parsed_minute : directive_seconds (codes "60") ≡ some (pos 60)
unfolding headers_program
parsed_minute = refl

aged_minute : response_age minute_response.header ≡ some (pos 10)
unfolding headers_program
aged_minute = refl

max_age_exact_example : a_minute.fresh_until ≡ pos 7 +ℤ (pos 60 -ℤ pos 10) *ℤ pos second
max_age_exact_example =
    max_age_exact no_times minute_response (pos 7) (pos 0) (codes "60") 60 10 given_minute
      parsed_minute aged_minute a_minute (omega arith) (omega arith) stored_minute

-- Three hundred years.
abbrev years_response : Response
years_response = response_with (codes "max-age=9467280000")

given_years : lookup (codes "max-age") (directives_of years_response) ≡ some (codes "9467280000")
unfolding headers_program
given_years = refl

parsed_years : directive_seconds (codes "9467280000") ≡ some (pos 9467280000)
unfolding headers_program
parsed_years = refl

aged_years : response_age years_response.header ≡ some (pos 10)
unfolding headers_program
aged_years = refl

plain_years : lookup (codes "stale-while-revalidate") (directives_of years_response) ≡ none
unfolding headers_program
plain_years = refl

max_age_wraps_example : response_expiration no_times years_response (pos 7) (pos 0) ≡ none
max_age_wraps_example =
    max_age_wraps no_times years_response (pos 7) (pos 0) (codes "9467280000") 9467280000 10
      given_years parsed_years aged_years (omega arith) (omega arith) (omega arith) plain_years
