-- ===== src/Pki/Authority.antt =====
-- internal/pki/pki.go: the files of the certificate authority.
pub mod Safe
pub mod Keeps
use hamsterd.Common.{
  ℕ, ◌*◌, Bool, true, false, Option, none, some, List, [], ◌∷◌, ◌++◌, Text, codes, text_eq, not,
  ◌&&◌, ◌||◌, any, is_some, if◌then◌else◌,
}
use hamsterd.Common.Int.{ℤ, pos, ◌-ℤ◌, ◌+ℤ◌, ltb_ℤ}
use hamsterd.Common.Clock.{Time, second, before, after, add_time, sub_time}
use hamsterd.Pki.Leaf.{Drawn, hour}

abbrev pub compromised_legacy_ca_fingerprints : List (List ℕ)
compromised_legacy_ca_fingerprints =
    (0x69 ∷ 0x18 ∷ 0x35 ∷ 0x60 ∷ 0x2a ∷ 0x47 ∷ 0x04 ∷ 0xba ∷ 0x77 ∷ 0xed ∷ 0x31 ∷ 0xfa ∷ 0x39 ∷ 0x0c
      ∷ 0xb3 ∷ 0x95 ∷ 0x64 ∷ 0xd8 ∷ 0xbb ∷ 0xde ∷ 0x10 ∷ 0x29 ∷ 0x49 ∷ 0x2c ∷ 0xee ∷ 0xc8 ∷ 0xae
      ∷ 0x6d ∷ 0xb5 ∷ 0x24 ∷ 0x22 ∷ 0x07 ∷ [])
    ∷ (0x35 ∷ 0xaa ∷ 0xfc ∷ 0xdb ∷ 0xd8 ∷ 0x3f ∷ 0x64 ∷ 0x26 ∷ 0x46 ∷ 0x78 ∷ 0x3d ∷ 0x49 ∷ 0xc3
        ∷ 0x63 ∷ 0x46 ∷ 0x90 ∷ 0x37 ∷ 0x43 ∷ 0xec ∷ 0x17 ∷ 0x43 ∷ 0x5a ∷ 0x5f ∷ 0x4c ∷ 0x37 ∷ 0x85
        ∷ 0xf0 ∷ 0x2f ∷ 0xc1 ∷ 0x07 ∷ 0xf8 ∷ 0x1f ∷ [])
    ∷ (0xaf ∷ 0x73 ∷ 0x9a ∷ 0x82 ∷ 0x99 ∷ 0xc3 ∷ 0x61 ∷ 0x17 ∷ 0xb9 ∷ 0x10 ∷ 0x5c ∷ 0x28 ∷ 0x41
        ∷ 0xf4 ∷ 0xb7 ∷ 0xf3 ∷ 0x64 ∷ 0x36 ∷ 0x7d ∷ 0x3b ∷ 0xb3 ∷ 0xab ∷ 0xda ∷ 0x72 ∷ 0x15 ∷ 0xfb
        ∷ 0x9e ∷ 0xec ∷ 0x18 ∷ 0x84 ∷ 0x1d ∷ 0x6f ∷ [])
    ∷ []

abbrev pub ca_validity : ℕ
ca_validity = 2 * (365 * (24 * hour))

abbrev pub expiry_warning : ℕ
expiry_warning = 30 * (24 * hour)

-- The fields of the authority's x509.Certificate that differ from call to call.
pub record CaTemplate : Type 0 where
  pub serial_number : ℕ
  pub common_name : Text
  pub not_before : Time
  pub not_after : Time

-- What `load` reads of a parsed certificate; `cert_sign` is a bit of its key usage.
pub record CaLeaf : Type 0 where
  pub is_ca : Bool
  pub cert_sign : Bool
  pub raw : Text
  pub not_before : Time
  pub not_after : Time

-- Packages crypto, encoding/pem and crypto/tls, with their errors as `none`: x509.CreateCertificate
-- for a template that signs itself, x509.MarshalPKCS8PrivateKey, pem.EncodeToMemory,
-- tls.X509KeyPair with the first certificate of the chain, x509.ParseCertificate, sha256.Sum256.
pub record CaCrypto : Type 0 where
  pub create : CaTemplate → ℕ → Option Text
  pub marshal_key : ℕ → Option Text
  pub pem : Text → Text → Text
  pub key_pair : Text → Text → Option Text
  pub parse : Text → Option CaLeaf
  pub sum256 : Text → List ℕ

pub record KeptFile : Type 0 where
  pub content : Text
  pub mode : ℕ

pub record CaFiles : Type 0 where
  pub cert : Option KeptFile
  pub key : Option KeptFile

-- `CA`
pub record Authority : Type 0 where
  pub leaf : CaLeaf
  pub cert_pem : Text

-- What the system answers to an exclusive write; `partial` is what a write that fails leaves.
pub record ExclusiveFaults : Type 0 where
  pub open_file : Bool
  pub write : Bool
  pub close : Bool
  pub remove : Bool
  pub partial : Text

-- What the system answers to `LoadOrCreate`; `directories` is for the four calls on directories.
pub record CaFaults : Type 0 where
  pub stat_cert : Bool
  pub stat_key : Bool
  pub directories : Bool
  pub write_key : ExclusiveFaults
  pub write_cert : ExclusiveFaults
  pub remove_key : Bool
  pub read_cert : Bool
  pub read_key : Bool
  pub chmod_key : Bool

unfoldable pub expires_soon : CaLeaf → Time → Bool
unfolding sub_time
expires_soon leaf now = ltb_ℤ (sub_time leaf.not_after now) (pos expiry_warning)

unfoldable pub is_compromised_legacy_ca : List ℕ → Bool
is_compromised_legacy_ca fingerprint = any (text_eq fingerprint) compromised_legacy_ca_fingerprints

-- `exists`; `none` is an error.
unfoldable pub file_exists : Bool → Option KeptFile → Option Bool
file_exists answer file = if answer then some (is_some file) else none

-- os.Remove of a file that is there.
unfoldable pub remove_kept : Bool → KeptFile → Option KeptFile
remove_kept answer file = if answer then none else some file

-- The file after `writeExclusive`, and whether there was no error.
unfoldable pub write_exclusive :
    ExclusiveFaults → Text → ℕ → Option KeptFile → Option KeptFile × Bool
write_exclusive faults content mode (some old) = (some old, false)
write_exclusive faults content mode none =
    if not faults.open_file
    then (none, false)
    else if not faults.write
    then (remove_kept faults.remove (record { content = faults.partial; mode = mode }), false)
    else if not faults.close
    then (remove_kept faults.remove (record { content = content; mode = mode }), false)
    else (some (record { content = content; mode = mode }), true)

abbrev remove_key_file : Bool → Option KeptFile → Option KeptFile
remove_key_file answer none = none
remove_key_file answer (some file) = remove_kept answer file

-- The end of `writePair`.
unfoldable pub finish_pair : CaFaults → Text → CaFiles → CaFiles × Bool
finish_pair faults cert_pem files =
    let (cert, written) = write_exclusive faults.write_cert cert_pem 0o644 files.cert in
    if written
    then (record files { cert = cert }, true)
    else (record { cert = cert; key = remove_key_file faults.remove_key files.key }, false)

unfoldable pub write_pair : CaFaults → Text → Text → CaFiles → CaFiles × Bool
write_pair faults cert_pem key_pem files =
    if not faults.directories
    then (files, false)
    else let (key, written) = write_exclusive faults.write_key key_pem 0o600 files.key in
      if written
      then finish_pair faults cert_pem (record files { key = key })
      else (record files { key = key }, false)

unfoldable pub ca_template : Text → ℕ → Time → CaTemplate
unfolding ◌-ℤ◌ ◌+ℤ◌
ca_template name serial now = record {
  serial_number = serial;
  common_name = name ++ codes " local CA";
  not_before = now -ℤ pos (300 * second);
  not_after = add_time now (pos ca_validity);
}

unfoldable pub encode_pair : CaCrypto → CaTemplate → ℕ → Option (Text × Text)
encode_pair x template key = elim (x.create template key) [
  | none ↦ none
  | some der ↦ elim (x.marshal_key key) [
    | none ↦ none
    | some key_der ↦ some (x.pem (codes "CERTIFICATE") der, x.pem (codes "PRIVATE KEY") key_der)
  ]
]

unfoldable pub generate : CaCrypto → Drawn → Text → Time → Option (Text × Text)
generate x drawn name now = elim drawn.key [
  | none ↦ none
  | some key ↦ elim drawn.serial [
    | none ↦ none
    | some serial ↦ encode_pair x (ca_template name serial now) key
  ]
]

-- The checks of `load` on the parsed certificate.
unfoldable pub accepts : CaCrypto → Time → CaLeaf → Bool
accepts x now leaf =
    if not leaf.is_ca || not leaf.cert_sign
    then false
    else if is_compromised_legacy_ca (x.sum256 leaf.raw)
    then false
    else not (before now leaf.not_before || after now leaf.not_after)

-- From the key pair on.
unfoldable pub load_pair :
    CaCrypto → CaFaults → Time → KeptFile → KeptFile → CaFiles × Option Authority
load_pair x faults now cert key =
    let files : CaFiles = record { cert = some cert; key = some key } in
    elim (x.key_pair cert.content key.content) [
      | none ↦ (files, none)
      | some der ↦ elim (x.parse der) [
        | none ↦ (files, none)
        | some leaf ↦
            if not (accepts x now leaf)
            then (files, none)
            else if not faults.chmod_key
            then (files, none)
            else (
              record { cert = some cert; key = some (record key { mode = 0o600 }) },
              some (record { leaf = leaf; cert_pem = cert.content }),
            )
      ]
    ]

unfoldable pub load : CaCrypto → CaFaults → Time → CaFiles → CaFiles × Option Authority
load x faults now files = elim files.cert [
  | none ↦ (files, none)
  | some cert ↦ if not faults.read_cert then (files, none) else elim files.key [
    | none ↦ (files, none)
    | some key ↦ if not faults.read_key then (files, none) else load_pair x faults now cert key
  ]
]

abbrev with_created : Bool → CaFiles × Option Authority → CaFiles × Option (Authority × Bool)
with_created created (files, none) = (files, none)
with_created created (files, some ca) = (files, some (ca, created))

-- The creation, with the two readings of the clock.
unfoldable pub create_and_load :
    CaCrypto → CaFaults → Drawn → Text → Time → Time → CaFiles → CaFiles × Option (Authority × Bool)
create_and_load x faults drawn name now loaded files = elim (generate x drawn name now) [
  | none ↦ (files, none)
  | some (cert_pem, key_pem) ↦
      let (files', written) = write_pair faults cert_pem key_pem files in
      if written then with_created true (load x faults loaded files') else (files', none)
]

-- `LoadOrCreate`: the files, and the authority with whether it was created; `none` is an error.
unfoldable pub load_or_create :
    CaCrypto → CaFaults → Drawn → Text → Time → Time → CaFiles → CaFiles × Option (Authority × Bool)
load_or_create x faults drawn name now loaded files =
    elim (file_exists faults.stat_cert files.cert) [
      | none ↦ (files, none)
      | some cert_exists ↦ elim (file_exists faults.stat_key files.key) [
        | none ↦ (files, none)
        | some key_exists ↦
            if cert_exists
            then if key_exists
              then with_created false (load x faults loaded files)
              else (files, none)
            else if key_exists
            then (files, none)
            else create_and_load x faults drawn name now loaded files
      ]
    ]
