-- ===== src/Control/Server.antt =====
-- `Start`, `authorize` and `Close` of internal/control/control.go.
use hamsterd.Common.{
  ℕ, ◌+◌, ◌/◌, ◌%◌, Bool, true, false, Option, none, some, List, [], ◌∷◌, ◌++◌, Text, codes,
  text_eq, not, ◌||◌, ltb, if◌then◌else◌,
}
use hamsterd.Common.Int.{ℤ, pos}
use hamsterd.Common.Http.{Request, header_get}
use hamsterd.Config.Files.{WriteFaults}
use hamsterd.Control.Endpoint.{
  Endpoint, EndpointCodec, OwnedFile, OpenFaults, not_exist, unreadable, endpoint, check_owner,
  read_endpoint, write_endpoint, max_request_bytes,
}

-- hex.EncodeToString
unfoldable pub hex_digit : ℕ → ℕ
hex_digit n = if ltb n 10 then b'0' + n else 87 + n

unfoldable pub hex_text : List ℕ → Text
unfolding hex_digit
hex_text [] = []
hex_text (c ∷ s) = hex_digit (c / 16) ∷ hex_digit (c % 16) ∷ hex_text s

-- The fields of `Server` other than the HTTP server and the channel, with what `authorize` knows.
pub record Server : Type 0 where
  pub address : Text
  pub token : Text

-- What the system answers to `Start`: the directory's mode and owner, if it can be inspected, the
-- random bytes, the address of the listener and the faults of writing the file.
pub record StartFaults : Type 0 where
  pub directory : Option (ℕ × Option ℕ)
  pub secret : Option (List ℕ)
  pub listen : Option Text
  pub write : WriteFaults

unfoldable pub started_endpoint : Text → ℤ → Server → Endpoint
started_endpoint service pid s = record {
  version = pos 1;
  service = service;
  url = codes "http://" ++ s.address;
  token = s.token;
  pid = pid;
}

-- From the address of the listener on.
unfoldable pub publish :
    EndpointCodec
    → WriteFaults
    → ℕ
    → Text
    → ℤ
    → Server
    → Option OwnedFile
    → Option OwnedFile × Option Server
publish codec faults uid service pid s old =
    let (file, written) = write_endpoint codec faults uid (started_endpoint service pid s) old in
    if written then (file, some s) else (file, none)

-- The endpoint file and the server after `Start`; `none` is an error.
unfoldable pub start :
    EndpointCodec → StartFaults → ℕ → Text → ℤ → Option OwnedFile → Option OwnedFile × Option Server
start codec faults uid service pid old = elim faults.directory [
  | none ↦ (old, none)
  | some (mode, owner) ↦
      if not (check_owner uid 0o022 mode owner) then (old, none) else elim faults.secret [
        | none ↦ (old, none)
        | some secret ↦ elim faults.listen [
          | none ↦ (old, none)
          | some address ↦
              publish codec faults.write uid service pid
                (record { address = address; token = hex_text secret }) old
        ]
      ]
]

-- os.Remove of a file that is there, and whether there was no error.
unfoldable pub remove_endpoint : Bool → Option OwnedFile → Option OwnedFile × Bool
remove_endpoint answer none = (none, true)
remove_endpoint answer (some f) = if answer then (none, true) else (some f, false)

-- The endpoint file after `Close`, and whether the removal gave no error.
unfoldable pub close :
    EndpointCodec → OpenFaults → Bool → ℕ → Server → Option OwnedFile → Option OwnedFile × Bool
close codec faults answer uid s file = elim (read_endpoint codec faults uid file) [
  | not_exist ↦ (file, true)
  | unreadable ↦ (file, true)
  | endpoint e ↦ if text_eq e.token s.token then remove_endpoint answer file else (file, true)
]

-- What `authorize` does with a request: a status for an error, or the handler behind it with a body
-- of a limited size.
pub data Admission : Type 0 where
  refused : ℕ → Admission
  admitted : ℕ → Admission

unfoldable pub is_browser : Request → Bool
is_browser r =
    not (text_eq (header_get (codes "Origin") r.header) [])
    || not (text_eq (header_get (codes "Sec-Fetch-Site") r.header) [])
    || not (text_eq (header_get (codes "Sec-Fetch-Mode") r.header) [])

unfoldable pub authorize : Server → Request → Admission
authorize s r =
    if not (text_eq r.host s.address)
    then refused 403
    else if is_browser r
    then refused 403
    else if not (text_eq (header_get (codes "Authorization") r.header) (codes "Bearer " ++ s.token))
    then refused 401
    else admitted max_request_bytes
