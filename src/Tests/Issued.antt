-- ===== src/Tests/Issued.antt =====
-- Runs of the certificate cache of internal/pki/leaf.go.
use hamsterd.Common.{◌≡◌, refl, some, [], ◌∷◌, Text, codes, text_eq, ◌^◌}
use hamsterd.Common.Int.{pos, ◌+ℤ◌, ◌-ℤ◌}
use hamsterd.Common.Ip.{parse_ip}
use hamsterd.Common.Dict.{lookup, insert, delete}
use hamsterd.Pki.Leaf.{
  Crypto, Ca, Certificate, Drawn, Template, template_of, leaf_end, create_leaf, sign, fresh,
  leaf_validity,
}
use hamsterd.Pki.Issuer.{
  Issuer, new_issuer, remove_name, remove_locked, evict_oldest, add_entry, pending, issued, serves,
  begin_entry, use_entry, begin, outcome_of, settle, begins, settles, Reach, here, next,
}
use hamsterd.Pki.Issuer.Invariant.{IsIndexed, Reach-IsIndexed}
use hamsterd.Pki.Issuer.Valid.{IsServed, begin-IsServed}

abbrev ca : Ca
ca = record { der = codes "authority"; not_after = pos (10 ^ 18) }

abbrev host : Text
host = codes "a.b"

abbrev leaf : Template
leaf = record {
  serial_number = 5;
  organization = [];
  common_name = host;
  not_before = pos 0;
  not_after = pos leaf_validity;
  ip_addresses = [];
  dns_names = host ∷ [];
}

abbrev crypto : Crypto
crypto = record { create = λ template key. some (codes "leaf"); parse = λ der. some leaf }

abbrev certificate : Certificate
certificate = record { chain = codes "leaf" ∷ codes "authority" ∷ []; private_key = 9; leaf = leaf }

abbrev drawn : Drawn
drawn = record { key = some 9; serial = some 5 }

abbrev signing : Issuer
signing = record {
  max = 1;
  entries = (host, 0) ∷ [];
  order = host ∷ [];
  heap = record { hostname = host; outcome = pending } ∷ [];
}

abbrev ready : Issuer
ready = record signing {
  heap = record { hostname = host; outcome = issued certificate (pos leaf_validity) } ∷ [];
}

program : Unit {0}
unfolding begin begin_entry use_entry add_entry evict_oldest remove_locked remove_name new_issuer
    settle outcome_of sign create_leaf template_of leaf_end fresh ◌+ℤ◌ ◌-ℤ◌ lookup insert delete
    parse_ip text_eq
program = tt

ready-Reach : Reach crypto ca (new_issuer 0) ready
unfolding program
ready-Reach =
    next {j = signing} (next here (begins (pos 0) host refl))
      (settles 0 (record { hostname = host; outcome = pending }) drawn (pos 0) refl refl refl)

served : begin ca (pos 1) host ready ≡ (ready, serves certificate)
unfolding program
served = refl

-- A second host takes the place of the first.
replaced : (begin ca (pos 1) (codes "b.c") ready).0.order ≡ codes "b.c" ∷ []
unfolding program
replaced = refl

Reach-IsIndexed_example : IsIndexed ready
Reach-IsIndexed_example = Reach-IsIndexed crypto ca 0 ready-Reach

begin-IsServed_example : IsServed crypto ca (pos 1) host certificate
begin-IsServed_example =
    begin-IsServed crypto ca 0 (pos 1) host ready ready certificate ready-Reach served
