-- ===== src/Control/Lifetime.antt =====
-- A client, a server and the endpoint file between them, of internal/control/control.go.
use hamsterd.Common.{
  ℕ, ◌≡◌, ◌≢◌, inl, inr, refl, sym, subst, Bool, true, Option, none, some, [], ◌∷◌, ◌++◌, Text,
  text_eq_refl, text_eq_ne, take, Option-cases, arith,
}
use hamsterd.Common.Int.{ℤ}
use hamsterd.Config.Files.{WriteFaults}
use hamsterd.Control.Endpoint.{
  Endpoint, EndpointCodec, OwnedFile, OpenFaults, endpoint, check_owner, decode_endpoint,
  read_endpoint, write_endpoint, max_request_bytes,
}
use hamsterd.Control.Server.{
  Server, hex_text, StartFaults, started_endpoint, publish, start, remove_endpoint, close,
}

abbrev pub readable : OpenFaults
readable = record { open_file = true; stat = true; read_all = true }

abbrev written_file : ℕ → Text → OwnedFile
written_file uid text = record {
  content = text ++ 10 ∷ [];
  mode = 0o600;
  regular = true;
  owner = some uid;
}

-- That the JSON package reads back what it wrote for an endpoint, with the newline behind it.
abbrev pub ReadsBack : EndpointCodec → Endpoint → Type 0
ReadsBack codec e =
    (text : Text)
    → codec.marshal e ≡ some text
    → codec.unmarshal (take max_request_bytes (text ++ 10 ∷ [])) ≡ some e

module _ (codec : EndpointCodec) (uid : ℕ) where
  write_endpoint-file :
      (faults : WriteFaults) (e : Endpoint) (old file : Option OwnedFile)
      → write_endpoint codec faults uid e old ≡ (file, true)
      → (text : Text) × (codec.marshal e ≡ some text) × (file ≡ some (written_file uid text))
  unfolding write_endpoint
  write_endpoint-file faults e old file run = elim (Option-cases (codec.marshal e)) [
    | inl f ↦ absurd (ground (arith, f, run))
    | inr (text, f) ↦ (text, f, ground (arith, f, run))
  ]

  publish-file :
      (faults : WriteFaults) (service : Text) (pid : ℤ) (s s' : Server)
      (old file : Option OwnedFile)
      → publish codec faults uid service pid s old ≡ (file, some s')
      → (write_endpoint codec faults uid (started_endpoint service pid s) old ≡ (file, true))
        × (s ≡ s')
  unfolding publish
  publish-file faults service pid s s' old file run = ground arith

  check_owner_self : check_owner uid 0o077 0o600 (some uid) ≡ true
  unfolding check_owner
  check_owner_self = ground arith

  start-publish :
      (faults : StartFaults) (service : Text) (pid : ℤ) (s : Server) (old file : Option OwnedFile)
      → start codec faults uid service pid old ≡ (file, some s)
      → (opened : Server) × (publish codec faults.write uid service pid opened old ≡ (file, some s))
  unfolding start
  start-publish faults service pid s old file run = elim (Option-cases faults.directory) [
    | inl f ↦ absurd (ground (arith, f, run))
    | inr ((mode, owner), f) ↦ elim (Option-cases faults.secret) [
      | inl g ↦ absurd (ground (arith, f, g, run))
      | inr (secret, g) ↦ elim (Option-cases faults.listen) [
        | inl h ↦ absurd (ground (arith, f, g, h, run))
        | inr (address, h) ↦
            (record { address = address; token = hex_text secret }, ground (arith, f, g, h, run))
      ]
    ]
  ]

  start-file :
      (faults : StartFaults) (service : Text) (pid : ℤ) (s : Server) (old file : Option OwnedFile)
      → start codec faults uid service pid old ≡ (file, some s)
      → (text : Text) × (codec.marshal (started_endpoint service pid s) ≡ some text)
        × (file ≡ some (written_file uid text))
  start-file faults service pid s old file run =
      let (opened, published) = start-publish faults service pid s old file run in
      let (written, same) = publish-file faults.write service pid opened s old file published in
      write_endpoint-file faults.write (started_endpoint service pid s) old file (
        subst
          (λ x.
            write_endpoint codec faults.write uid (started_endpoint service pid x) old
            ≡ (file, true))
          same written)

  decode-written :
      (e : Endpoint) (text : Text)
      → e.version ≡ ℤ.pos 1
      → codec.unmarshal text ≡ some e
      → decode_endpoint codec text ≡ endpoint e
  unfolding decode_endpoint
  decode-written e text v r = ground (arith, v, r)

  -- What the file of a started server reads as.
  pub read-started :
      (faults : StartFaults) (service : Text) (pid : ℤ) (s : Server) (old file : Option OwnedFile)
      → start codec faults uid service pid old ≡ (file, some s)
      → ReadsBack codec (started_endpoint service pid s)
      → read_endpoint codec readable uid file ≡ endpoint (started_endpoint service pid s)
  unfolding read_endpoint started_endpoint
  read-started faults service pid s old file run reads =
      let (text, m, e) = start-file faults service pid s old file run in
      subst (λ x. read_endpoint codec readable uid x ≡ endpoint (started_endpoint service pid s))
        (sym e)
        (rw (check_owner_self) (
          decode-written (started_endpoint service pid s) (take max_request_bytes (text ++ 10 ∷ []))
            refl (reads text m)))

  -- A second server in the directory of a first one, with another token, owns the endpoint file:
  -- closing the first server leaves the file alone, and closing the second one removes it. The file
  -- can be opened, inspected and read at each closing, os.Remove succeeds at the second one, and the
  -- JSON package reads back the second endpoint.
  pub close-owner :
      (faults : StartFaults) (service : Text) (pid : ℤ) (first second : Server)
      (old file : Option OwnedFile) (answer : Bool)
      → start codec faults uid service pid old ≡ (file, some second)
      → ReadsBack codec (started_endpoint service pid second)
      → second.token ≢ first.token
      → (close codec readable answer uid first file ≡ (file, true))
        × (close codec readable true uid second file ≡ (none, true))
  unfolding close started_endpoint remove_endpoint
  close-owner faults service pid first second old file answer run reads ne =
      let r = read-started faults service pid second old file run reads in
      let (text, m, e) = start-file faults service pid second old file run in
      (
        rw (r, close, text_eq_ne second.token first.token ne) refl,
        rw (r, close, text_eq_refl second.token, e) refl,
      )
