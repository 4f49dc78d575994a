-- ===== src/Pki/Authority/Keeps.antt =====
-- That internal/pki/pki.go keeps the files that it finds.
use hamsterd.Common.{
  ◌≡◌, refl, sym, subst, Bool, true, false, Option, none, some, Text, not, if◌then◌else◌, arith,
  Option-cases, inl, inr,
}
use hamsterd.Common.Clock.{Time}
use hamsterd.Pki.Leaf.{Drawn}
use hamsterd.Pki.Authority.{
  CaCrypto, KeptFile, CaFiles, Authority, CaFaults, file_exists, accepts, load_pair, load,
  with_created, create_and_load, load_or_create,
}

-- Files that are there stay, with their content; the mode of the key may change.
pub record Keeps (old new : CaFiles) : Type 0 where
  pub cert : (f : KeptFile) → old.cert ≡ some f → new.cert ≡ some f
  pub key :
      (f : KeptFile)
      → old.key ≡ some f
      → (g : KeptFile) × (new.key ≡ some g) × (g.content ≡ f.content)

Keeps-refl : (old : CaFiles) → Keeps old old
Keeps-refl old = record { cert = λ f e. e; key = λ f e. (f, e, refl) }

module _ (x : CaCrypto) (faults : CaFaults) (now : Time) where
  stays_if :
      (answer : Bool) (old : CaFiles) (r : CaFiles × Option Authority)
      → Keeps old r.0
      → Keeps old (if not answer then (old, none) else r).0
  stays_if true old r k = k
  stays_if false old r k = Keeps-refl old

  load_pair-Keeps :
      (cert key : KeptFile)
      → Keeps (record { cert = some cert; key = some key }) (load_pair x faults now cert key).0
  unfolding load_pair
  load_pair-Keeps cert key = elim (Option-cases (x.key_pair cert.content key.content)) [
    | inl f ↦ rw (f, load_pair) (Keeps-refl (record { cert = some cert; key = some key }))
    | inr (der, f) ↦ elim (Option-cases (x.parse der)) [
      | inl g ↦ rw (f, load_pair, g) (Keeps-refl (record { cert = some cert; key = some key }))
      | inr (leaf, g) ↦
          rw (f, load_pair, g)
            (stays_if (accepts x now leaf) (record { cert = some cert; key = some key }) _
              (stays_if faults.chmod_key (record { cert = some cert; key = some key }) _
                (record {
                  cert = λ h e. e;
                  key = λ h e. (record key { mode = 0o600 }, refl, ground (arith, e));
                })))
    ]
  ]

  load_parts-Keeps :
      (cert key : Option KeptFile)
      → Keeps
          (record { cert = cert; key = key })
          (load x faults now (record { cert = cert; key = key })).0
  unfolding load
  load_parts-Keeps none key = Keeps-refl (record { cert = none; key = key })
  load_parts-Keeps (some cert) none =
      stays_if faults.read_cert (record { cert = some cert; key = none }) _ (Keeps-refl _)
  load_parts-Keeps (some cert) (some key) =
      stays_if faults.read_cert (record { cert = some cert; key = some key }) _
        (stays_if faults.read_key (record { cert = some cert; key = some key }) _
          (load_pair-Keeps cert key))

  load-Keeps : (old : CaFiles) → Keeps old (load x faults now old).0
  load-Keeps old = load_parts-Keeps old.cert old.key

  with_created-files :
      (created : Bool) (r : CaFiles × Option Authority) → (with_created created r).0 ≡ r.0
  with_created-files created (files, none) = refl
  with_created-files created (files, some ca) = refl

  with_created-Keeps :
      (created : Bool) (old : CaFiles) → Keeps old (with_created created (load x faults now old)).0
  with_created-Keeps created old =
      subst (Keeps old) (sym (with_created-files created (load x faults now old))) (load-Keeps old)

  -- Without a file there is nothing to keep.
  absent-Keeps : (old new : CaFiles) → old.cert ≡ none → old.key ≡ none → Keeps old new
  absent-Keeps old new f g = record {
    cert = λ h e. absurd (ground (arith, f, e));
    key = λ h e. absurd (ground (arith, g, e));
  }

  absent_file :
      (answer : Bool) (file : Option KeptFile) → file_exists answer file ≡ some false → file ≡ none
  unfolding file_exists
  absent_file answer none e = refl
  absent_file answer (some f) e = absurd (ground (arith, e))

  by_answers :
      (cert_exists key_exists : Bool) (drawn : Drawn) (name : Text) (begun : Time) (old : CaFiles)
      → file_exists faults.stat_cert old.cert ≡ some cert_exists
      → file_exists faults.stat_key old.key ≡ some key_exists
      → Keeps old
          (if cert_exists
            then if key_exists then with_created false (load x faults now old) else (old, none)
            else if key_exists
            then (old, none)
            else create_and_load x faults drawn name begun now old).0
  by_answers true true drawn name begun old f g = with_created-Keeps false old
  by_answers true false drawn name begun old f g = Keeps-refl old
  by_answers false true drawn name begun old f g = Keeps-refl old
  by_answers false false drawn name begun old f g =
      absent-Keeps old (create_and_load x faults drawn name begun now old).0
        (absent_file faults.stat_cert old.cert f) (absent_file faults.stat_key old.key g)

  -- On every branch of `LoadOrCreate`, errors included, a certificate file that was there stays as it
  -- was, and a key file that was there stays with its content.
  pub load_or_create-Keeps :
      (drawn : Drawn) (name : Text) (begun : Time) (old : CaFiles)
      → Keeps old (load_or_create x faults drawn name begun now old).0
  unfolding load_or_create
  load_or_create-Keeps drawn name begun old =
      elim (Option-cases (file_exists faults.stat_cert old.cert)) [
        | inl f ↦ rw (f, load_or_create) (Keeps-refl old)
        | inr (cert_exists, f) ↦ elim (Option-cases (file_exists faults.stat_key old.key)) [
          | inl g ↦ rw (f, load_or_create, g) (Keeps-refl old)
          | inr (key_exists, g) ↦
              rw (f, load_or_create, g) (by_answers cert_exists key_exists drawn name begun old f g)
        ]
      ]
