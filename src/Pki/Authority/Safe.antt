-- ===== src/Pki/Authority/Safe.antt =====
-- Which authorities internal/pki/pki.go returns.
use hamsterd.Common.{
  ◌≡◌, ◌≢◌, ℕ, List, [], ◌∷◌, text_eq, text_eq_iff, refl, subst, Bool, true, false, some, Text,
  arith, Option-cases, Bool-cases, inl, inr,
}
use hamsterd.Common.Int.{◌≤ℤ◌}
use hamsterd.Common.Clock.{Time}
use hamsterd.Pki.Leaf.{Drawn}
use hamsterd.Pki.Authority.{
  CaLeaf, CaCrypto, KeptFile, CaFiles, Authority, CaFaults, is_compromised_legacy_ca, file_exists,
  write_pair, generate, accepts, load_pair, load, with_created, create_and_load, load_or_create,
}

-- The SHA-256 sums of the three public authorities, as SECURITY.md lists them.
abbrev pub first_public : List ℕ
first_public =
    0x69 ∷ 0x18 ∷ 0x35 ∷ 0x60 ∷ 0x2a ∷ 0x47 ∷ 0x04 ∷ 0xba ∷ 0x77 ∷ 0xed ∷ 0x31 ∷ 0xfa ∷ 0x39 ∷ 0x0c
    ∷ 0xb3 ∷ 0x95 ∷ 0x64 ∷ 0xd8 ∷ 0xbb ∷ 0xde ∷ 0x10 ∷ 0x29 ∷ 0x49 ∷ 0x2c ∷ 0xee ∷ 0xc8 ∷ 0xae
    ∷ 0x6d ∷ 0xb5 ∷ 0x24 ∷ 0x22 ∷ 0x07 ∷ []

abbrev pub second_public : List ℕ
second_public =
    0x35 ∷ 0xaa ∷ 0xfc ∷ 0xdb ∷ 0xd8 ∷ 0x3f ∷ 0x64 ∷ 0x26 ∷ 0x46 ∷ 0x78 ∷ 0x3d ∷ 0x49 ∷ 0xc3 ∷ 0x63
    ∷ 0x46 ∷ 0x90 ∷ 0x37 ∷ 0x43 ∷ 0xec ∷ 0x17 ∷ 0x43 ∷ 0x5a ∷ 0x5f ∷ 0x4c ∷ 0x37 ∷ 0x85 ∷ 0xf0
    ∷ 0x2f ∷ 0xc1 ∷ 0x07 ∷ 0xf8 ∷ 0x1f ∷ []

abbrev pub third_public : List ℕ
third_public =
    0xaf ∷ 0x73 ∷ 0x9a ∷ 0x82 ∷ 0x99 ∷ 0xc3 ∷ 0x61 ∷ 0x17 ∷ 0xb9 ∷ 0x10 ∷ 0x5c ∷ 0x28 ∷ 0x41 ∷ 0xf4
    ∷ 0xb7 ∷ 0xf3 ∷ 0x64 ∷ 0x36 ∷ 0x7d ∷ 0x3b ∷ 0xb3 ∷ 0xab ∷ 0xda ∷ 0x72 ∷ 0x15 ∷ 0xfb ∷ 0x9e
    ∷ 0xec ∷ 0x18 ∷ 0x84 ∷ 0x1d ∷ 0x6f ∷ []

abbrev pub NotPublic : List ℕ → Type 0
NotPublic sum = (sum ≢ first_public) × (sum ≢ second_public) × (sum ≢ third_public)

text_eq-false : (a b : Text) → text_eq a b ≡ false → a ≢ b
text_eq-false a b h e = absurd (ground (arith, text_eq_iff a b))

is_compromised_legacy_ca-NotPublic :
    (sum : List ℕ) → is_compromised_legacy_ca sum ≡ false → NotPublic sum
unfolding is_compromised_legacy_ca
is_compromised_legacy_ca-NotPublic sum h = (
  text_eq-false sum first_public (ground arith),
  text_eq-false sum second_public (ground arith),
  text_eq-false sum third_public (ground arith),
)

-- An authority that may sign now, loaded from the files.
pub record IsAuthority (x : CaCrypto) (now : Time) (ca : Authority) (files : CaFiles) : Type 0 where
  pub cert : KeptFile
  pub key : KeptFile
  pub cert_there : files.cert ≡ some cert
  pub key_there : files.key ≡ some key
  pub key_private : key.mode ≡ 0o600
  pub cert_content : cert.content ≡ ca.cert_pem
  pub der : Text
  pub paired : x.key_pair cert.content key.content ≡ some der
  pub parsed : x.parse der ≡ some ca.leaf
  pub is_ca : ca.leaf.is_ca ≡ true
  pub cert_sign : ca.leaf.cert_sign ≡ true
  pub unknown : NotPublic (x.sum256 ca.leaf.raw)
  pub begun : ca.leaf.not_before ≤ℤ now
  pub not_over : now ≤ℤ ca.leaf.not_after

-- The five checks of `load`.
abbrev Passes : CaCrypto → Time → CaLeaf → Type 0
Passes x now leaf =
    (leaf.is_ca ≡ true)
    × (leaf.cert_sign ≡ true)
    × NotPublic (x.sum256 leaf.raw)
    × (leaf.not_before ≤ℤ now)
    × (now ≤ℤ leaf.not_after)

accepts-Passes :
    (x : CaCrypto) (now : Time) (leaf : CaLeaf) → accepts x now leaf ≡ true → Passes x now leaf
unfolding accepts
accepts-Passes x now leaf h = (
  ground arith,
  ground arith,
  is_compromised_legacy_ca-NotPublic (x.sum256 leaf.raw) (ground arith),
  ground arith,
  ground arith,
)

module _ (x : CaCrypto) (faults : CaFaults) (now : Time) where
  made_IsAuthority :
      (cert key : KeptFile) (der : Text) (leaf : CaLeaf)
      → x.key_pair cert.content key.content ≡ some der
      → x.parse der ≡ some leaf
      → Passes x now leaf
      → IsAuthority x now
          (record { leaf = leaf; cert_pem = cert.content })
          (record { cert = some cert; key = some (record key { mode = 0o600 }) })
  made_IsAuthority cert key der leaf f g (is_ca, cert_sign, unknown, begun, not_over) = record {
    cert = cert;
    key = record key { mode = 0o600 };
    cert_there = refl;
    key_there = refl;
    key_private = refl;
    cert_content = refl;
    der = der;
    paired = f;
    parsed = g;
    is_ca = is_ca;
    cert_sign = cert_sign;
    unknown = unknown;
    begun = begun;
    not_over = not_over;
  }

  load_pair-IsAuthority :
      (cert key : KeptFile) (files : CaFiles) (ca : Authority)
      → load_pair x faults now cert key ≡ (files, some ca)
      → IsAuthority x now ca files
  unfolding load_pair
  load_pair-IsAuthority cert key files ca run =
      elim (Option-cases (x.key_pair cert.content key.content)) [
        | inl f ↦ absurd (ground (arith, f, run))
        | inr (der, f) ↦ elim (Option-cases (x.parse der)) [
          | inl g ↦ absurd (ground (arith, f, g, run))
          | inr (leaf, g) ↦ elim (Bool-cases (accepts x now leaf)) [
            | inr bad ↦ absurd (ground (arith, f, g, bad, run))
            | inl good ↦
                let made : Authority = record { leaf = leaf; cert_pem = cert.content } in
                let kept : CaFiles = record {
                  cert = some cert;
                  key = some (record key { mode = 0o600 });
                } in
                let q : kept ≡ files = ground (arith, f, g, good, run) in
                let r : made ≡ ca = ground (arith, f, g, good, run) in
                subst (λ c. IsAuthority x now c files) r
                  (subst (IsAuthority x now made) q
                    (made_IsAuthority cert key der leaf f g (accepts-Passes x now leaf good)))
          ]
        ]
      ]

  load-IsAuthority :
      (old files : CaFiles) (ca : Authority)
      → load x faults now old ≡ (files, some ca)
      → IsAuthority x now ca files
  unfolding load
  load-IsAuthority old files ca run = elim (Option-cases old.cert) [
    | inl f ↦ absurd (ground (arith, f, run))
    | inr (cert, f) ↦ elim (Option-cases old.key) [
      | inl g ↦ absurd (ground (arith, f, g, run))
      | inr (key, g) ↦ load_pair-IsAuthority cert key files ca (ground (arith, f, g, run))
    ]
  ]

  with_created-IsAuthority :
      (created made : Bool) (old files : CaFiles) (ca : Authority)
      → with_created made (load x faults now old) ≡ (files, some (ca, created))
      → IsAuthority x now ca files
  with_created-IsAuthority created made old files ca run =
      load-IsAuthority old files ca (ground (arith, run))

  create_and_load-IsAuthority :
      (drawn : Drawn) (name : Text) (begun : Time) (old files : CaFiles) (ca : Authority)
      (created : Bool)
      → create_and_load x faults drawn name begun now old ≡ (files, some (ca, created))
      → IsAuthority x now ca files
  unfolding create_and_load
  create_and_load-IsAuthority drawn name begun old files ca created run =
      elim (Option-cases (generate x drawn name begun)) [
        | inl f ↦ absurd (ground (arith, f, run))
        | inr ((cert_pem, key_pem), f) ↦
            elim (Bool-cases (write_pair faults cert_pem key_pem old).1) [
              | inr bad ↦ absurd (ground (arith, f, bad, run))
              | inl good ↦
                  with_created-IsAuthority created true (write_pair faults cert_pem key_pem old).0
                    files ca (ground (arith, f, good, run))
            ]
      ]

  -- An authority that `LoadOrCreate` returns, loaded or created, at the time of its loading: both files
  -- are there, the key file is private to the user, the certificate of the pair is an authority that
  -- may sign certificates and is valid now, and its SHA-256 sum is none of the three that SECURITY.md lists.
  pub load_or_create-IsAuthority :
      (drawn : Drawn) (name : Text) (begun : Time) (old files : CaFiles) (ca : Authority)
      (created : Bool)
      → load_or_create x faults drawn name begun now old ≡ (files, some (ca, created))
      → IsAuthority x now ca files
  unfolding load_or_create
  load_or_create-IsAuthority drawn name begun old files ca created run =
      elim (Option-cases (file_exists faults.stat_cert old.cert)) [
        | inl f ↦ absurd (ground (arith, f, run))
        | inr (cert_exists, f) ↦ elim (Option-cases (file_exists faults.stat_key old.key)) [
          | inl g ↦ absurd (ground (arith, f, g, run))
          | inr (key_exists, g) ↦ elim (Bool-cases cert_exists) [
            | inl c ↦ elim (Bool-cases key_exists) [
              | inl k ↦
                  with_created-IsAuthority created false old files ca
                    (ground (arith, f, g, c, k, run))
              | inr k ↦ absurd (ground (arith, f, g, c, k, run))
            ]
            | inr c ↦ elim (Bool-cases key_exists) [
              | inl k ↦ absurd (ground (arith, f, g, c, k, run))
              | inr k ↦
                  create_and_load-IsAuthority drawn name begun old files ca created
                    (ground (arith, f, g, c, k, run))
            ]
          ]
        ]
      ]
