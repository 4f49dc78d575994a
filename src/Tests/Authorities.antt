-- ===== src/Tests/Authorities.antt =====
-- Runs of the creation and the loading of the authority of internal/pki/pki.go.
use hamsterd.Common.{◌≡◌, refl, true, false, none, some, [], ◌++◌, codes, text_eq, ◌*◌}
use hamsterd.Common.Int.{pos, ◌+ℤ◌, ◌-ℤ◌}
use hamsterd.Common.Clock.{second}
use hamsterd.Pki.Leaf.{Drawn}
use hamsterd.Pki.Authority.{
  CaLeaf, CaCrypto, CaFiles, Authority, ExclusiveFaults, CaFaults, ca_validity,
  is_compromised_legacy_ca, file_exists, remove_kept, write_exclusive, finish_pair, write_pair,
  ca_template, encode_pair, generate, accepts, load_pair, load, create_and_load, load_or_create,
}
use hamsterd.Pki.Authority.Safe.{IsAuthority, load_or_create-IsAuthority}
use hamsterd.Pki.Authority.Keeps.{Keeps, load_or_create-Keeps}

abbrev pub leaf : CaLeaf
leaf = record {
  is_ca = true;
  cert_sign = true;
  raw = codes "der";
  not_before = pos 0;
  not_after = pos ca_validity;
}

abbrev pub crypto : CaCrypto
crypto = record {
  create = λ template key. some (codes "der");
  marshal_key = λ key. some (codes "key");
  pem = λ label text. label ++ text;
  key_pair = λ cert key. some (codes "der");
  parse = λ der. some leaf;
  sum256 = λ text. text;
}

abbrev pub good_write : ExclusiveFaults
good_write = record { open_file = true; write = true; close = true; remove = true; partial = [] }

abbrev pub good_system : CaFaults
good_system = record {
  stat_cert = true;
  stat_key = true;
  directories = true;
  write_key = good_write;
  write_cert = good_write;
  remove_key = true;
  read_cert = true;
  read_key = true;
  chmod_key = true;
}

abbrev pub drawn : Drawn
drawn = record { key = some 9; serial = some 5 }

abbrev pub no_files : CaFiles
no_files = record { cert = none; key = none }

abbrev pub written : CaFiles
written = record {
  cert = some (record { content = codes "CERTIFICATEder"; mode = 0o644 });
  key = some (record { content = codes "PRIVATE KEYkey"; mode = 0o600 });
}

abbrev pub authority : Authority
authority = record { leaf = leaf; cert_pem = codes "CERTIFICATEder" }

unfoldable pub program : Unit {0}
unfolding load_or_create create_and_load load load_pair accepts generate encode_pair ca_template
    write_pair finish_pair write_exclusive remove_kept file_exists is_compromised_legacy_ca ◌+ℤ◌
    ◌-ℤ◌ text_eq
program = tt

created :
    load_or_create crypto good_system drawn
      (codes "test")
      (pos (400 * second))
      (pos (401 * second))
      no_files
    ≡ (written, some (authority, true))
unfolding program
created = refl

-- The certificate cannot be written: the key goes again.
not_created :
    load_or_create crypto
      (record good_system { write_cert = record good_write { close = false } })
      drawn
      (codes "test")
      (pos (400 * second))
      (pos (401 * second))
      no_files
    ≡ (no_files, none)
unfolding program
not_created = refl

load_or_create-IsAuthority_example : IsAuthority crypto (pos (401 * second)) authority written
load_or_create-IsAuthority_example =
    load_or_create-IsAuthority crypto good_system (pos (401 * second)) drawn (codes "test")
      (pos (400 * second)) no_files written authority true created

-- A certificate without its key.
abbrev half : CaFiles
half = record written { key = none }

load_or_create-Keeps_example :
    Keeps half (load_or_create crypto good_system drawn (codes "test") (pos 0) (pos 0) half).0
load_or_create-Keeps_example =
    load_or_create-Keeps crypto good_system (pos 0) drawn (codes "test") (pos 0) half
