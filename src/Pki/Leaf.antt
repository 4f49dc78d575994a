-- ===== src/Pki/Leaf.antt =====
-- `sign` and `fresh` of internal/pki/leaf.go: one certificate for one host.
use hamsterd.Common.{
  ℕ, ◌*◌, Bool, false, Option, none, some, List, [], ◌∷◌, Text, codes, text_eq, not, ◌||◌,
  if◌then◌else◌,
}
use hamsterd.Common.Int.{pos, ◌-ℤ◌, ◌+ℤ◌}
use hamsterd.Common.Clock.{Time, second, before, after, add_time}
use hamsterd.Common.Ip.{Ip, parse_ip}

abbrev pub hour : ℕ
hour = 3600 * second

abbrev pub leaf_validity : ℕ
leaf_validity = 30 * (24 * hour)

abbrev pub leaf_renewal : ℕ
leaf_renewal = 7 * (24 * hour)

abbrev pub leaf_backdate : ℕ
leaf_backdate = hour

-- The fields of the x509.Certificate that is signed; the key usages are constant.
pub record Template : Type 0 where
  pub serial_number : ℕ
  pub organization : Text
  pub common_name : Text
  pub not_before : Time
  pub not_after : Time
  pub ip_addresses : List Ip
  pub dns_names : List Text

-- Package crypto: random keys and serial numbers, x509.CreateCertificate and x509.ParseCertificate,
-- with their errors as `none`. A key is a number.
pub record Crypto : Type 0 where
  pub create : Template → ℕ → Option Text
  pub parse : Text → Option Template

-- The key and the serial number of one call; `none` is an error.
pub record Drawn : Type 0 where
  pub key : Option ℕ
  pub serial : Option ℕ

-- The `tls.Certificate`: its chain, key and leaf.
pub record Certificate : Type 0 where
  pub chain : List Text
  pub private_key : ℕ
  pub leaf : Template

-- The certificate of the authority, its encoding and its end.
pub record Ca : Type 0 where
  pub der : Text
  pub not_after : Time

unfoldable pub leaf_end : Ca → Time → Time
unfolding ◌+ℤ◌
leaf_end ca now =
    let end = add_time now (pos leaf_validity) in
    if after end ca.not_after then ca.not_after else end

unfoldable pub template_of : Ca → Text → ℕ → Time → Template
unfolding ◌-ℤ◌ leaf_end
template_of ca hostname serial now =
    let template : Template = record {
      serial_number = serial;
      organization = codes "hamsterd local development proxy";
      common_name = [];
      not_before = now -ℤ pos leaf_backdate;
      not_after = leaf_end ca now;
      ip_addresses = [];
      dns_names = [];
    } in
    elim (parse_ip hostname) [
      | some ip ↦ record template { ip_addresses = ip ∷ [] }
      | none ↦ record template { dns_names = hostname ∷ []; common_name = hostname }
    ]

unfoldable pub create_leaf : Crypto → Ca → Template → ℕ → Option Certificate
create_leaf x ca template key = elim (x.create template key) [
  | none ↦ none
  | some der ↦ elim (x.parse der) [
    | none ↦ none
    | some leaf ↦ some (record { chain = der ∷ ca.der ∷ []; private_key = key; leaf = leaf })
  ]
]

-- `sign`, with its errors as `none`.
unfoldable pub sign : Crypto → Ca → Text → Drawn → Time → Option (Certificate × Time)
sign x ca hostname drawn now = if text_eq hostname [] then none else elim drawn.key [
  | none ↦ none
  | some key ↦ elim drawn.serial [
    | none ↦ none
    | some serial ↦ elim (create_leaf x ca (template_of ca hostname serial now) key) [
      | none ↦ none
      | some certificate ↦ some (certificate, leaf_end ca now)
    ]
  ]
]

unfoldable pub fresh : Ca → Time → Time → Bool
unfolding ◌+ℤ◌
fresh ca now not_after =
    if not (before now not_after)
    then false
    else before (add_time now (pos leaf_renewal)) not_after || not (before not_after ca.not_after)
