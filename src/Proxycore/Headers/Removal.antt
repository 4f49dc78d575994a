-- ===== src/Proxycore/Headers/Removal.antt =====
-- Which fields internal/proxycore/proxy.go removes from a request.
use hamsterd.Common.{
  ◌≡◌, refl, Bool, none, List, [], ◌∷◌, Text, codes, text_eq, ◌||◌, not, ◌&&◌, any, if◌then◌else◌,
  arith,
}
use hamsterd.Common.Strings.{to_lower, trim_space, split}
use hamsterd.Common.Dict.{lookup, lookup-delete}
use hamsterd.Common.Http.{Header, canonical, header_values, header_del}
use hamsterd.Proxycore.Headers.{is_kept, remove_names, remove_values, remove_connection_headers}

-- The options of Connection that name no field to be removed.
abbrev pub plain_options : List Text
plain_options = [] ∷ codes "close" ∷ codes "keep-alive" ∷ codes "upgrade" ∷ []

abbrev names_one : Text → Text → Bool
names_one field raw =
    not (any (text_eq (to_lower (trim_space raw))) plain_options)
    && text_eq (canonical (trim_space raw)) field

-- Whether one value of Connection names the field, in the way of a field to be removed.
unfoldable pub names_field : Text → Text → Bool
names_field field value = any (names_one field) (split b',' value)

abbrev names_any : Text → List Text → Bool
names_any field = any (names_one field)

is_kept_lem : (name : Text) → is_kept name ≡ any (text_eq (to_lower name)) plain_options
unfolding is_kept
is_kept_lem name = ground arith

lookup-header_del :
    (name field : Text) (h : Header)
    → lookup field (header_del name h)
      ≡ (if text_eq (canonical name) field then none else lookup field h)
unfolding header_del
lookup-header_del name field h = lookup-delete (canonical name) field h

lookup-remove_names :
    (field : Text) (names : List Text) (h : Header)
    → lookup field (remove_names names h) ≡ (if names_any field names then none else lookup field h)
unfolding remove_names
lookup-remove_names field [] h = refl
lookup-remove_names field (raw ∷ names) h = ground (
  arith,
  lookup-remove_names field names h,
  lookup-remove_names field names (header_del (trim_space raw) h),
  lookup-header_del (trim_space raw) field h,
  is_kept_lem (trim_space raw),
)

lookup-remove_values :
    (field : Text) (values : List Text) (h : Header)
    → lookup field (remove_values values h)
      ≡ (if any (names_field field) values then none else lookup field h)
unfolding remove_values names_field
lookup-remove_values field [] h = refl
lookup-remove_values field (value ∷ values) h = ground (
  arith,
  lookup-remove_values field values (remove_names (split b',' value) h),
  lookup-remove_names field (split b',' value) h,
)

-- A field of a request is removed exactly if it is Keep-Alive or if a value of Connection names it
-- between commas, case and surrounding spaces aside, other than as an empty name, close, keep-alive or upgrade;
-- all other fields keep their values.
pub lookup-remove_connection_headers :
    (field : Text) (h : Header)
    → lookup field (remove_connection_headers h) ≡ (
        if text_eq (canonical (codes "Keep-Alive")) field
          || any (names_field field) (header_values (codes "Connection") h)
        then none
        else lookup field h)
unfolding remove_connection_headers
lookup-remove_connection_headers field h = ground (
  arith,
  lookup-header_del (codes "Keep-Alive") field
      (remove_values (header_values (codes "Connection") h) h),
  lookup-remove_values field (header_values (codes "Connection") h) h,
)
