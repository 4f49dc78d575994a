-- ===== src/Control/Endpoint.antt =====
-- The endpoint file of internal/control/control.go, with `checkOwner` of private_unix.go.
use Prim.Native.Nat.{bit_and}
use hamsterd.Common.{
  ℕ, ◌++◌, Bool, true, false, Option, none, some, [], ◌∷◌, Text, not, ◌==◌, ◌||◌, ◌&&◌, take,
  if◌then◌else◌,
}
use hamsterd.Common.Int.{ℤ, pos, eq_ℤ}
use hamsterd.Config.Files.{WriteFaults}

abbrev pub max_request_bytes : ℕ
max_request_bytes = 65536

pub record Endpoint : Type 0 where
  pub version : ℤ
  pub service : Text
  pub url : Text
  pub token : Text
  pub pid : ℤ

-- Package encoding/json at an endpoint; `none` is an error.
pub record EndpointCodec : Type 0 where
  pub marshal : Endpoint → Option Text
  pub unmarshal : Text → Option Endpoint

-- A file with the user that owns it, where the system tells.
pub record OwnedFile : Type 0 where
  pub content : Text
  pub mode : ℕ
  pub regular : Bool
  pub owner : Option ℕ

-- `checkOwner` on Unix: no permission of `mask`, and the file is of this user or of root.
unfoldable pub check_owner : ℕ → ℕ → ℕ → Option ℕ → Bool
check_owner uid mask mode none = bit_and mode mask == 0
check_owner uid mask mode (some owner) =
    (bit_and mode mask == 0) && ((owner == uid) || (owner == 0))

pub data EndpointResult : Type 0 where
  -- os.ErrNotExist
  not_exist : EndpointResult
  unreadable : EndpointResult
  endpoint : Endpoint → EndpointResult

-- What the system answers to opening, inspecting and reading the file.
pub record OpenFaults : Type 0 where
  pub open_file : Bool
  pub stat : Bool
  pub read_all : Bool

unfoldable pub decode_endpoint : EndpointCodec → Text → EndpointResult
decode_endpoint codec text = elim (codec.unmarshal text) [
  | none ↦ unreadable
  | some e ↦ if eq_ℤ e.version (pos 1) then endpoint e else unreadable
]

unfoldable pub read_endpoint : EndpointCodec → OpenFaults → ℕ → Option OwnedFile → EndpointResult
read_endpoint codec faults uid none = not_exist
read_endpoint codec faults uid (some f) =
    if not faults.open_file
    then unreadable
    else if not faults.stat
    then unreadable
    else if not f.regular
    then unreadable
    else if not (check_owner uid 0o077 f.mode f.owner)
    then unreadable
    else if not faults.read_all
    then unreadable
    else decode_endpoint codec (take max_request_bytes f.content)

-- The file after `writeEndpoint`, and whether there was no error. The temporary file, which this
-- user owns, is always removed.
unfoldable pub write_endpoint :
    EndpointCodec → WriteFaults → ℕ → Endpoint → Option OwnedFile → Option OwnedFile × Bool
write_endpoint codec faults uid e old = elim (codec.marshal e) [
  | none ↦ (old, false)
  | some text ↦
      if not faults.create
      then (old, false)
      else if not faults.chmod
      then (old, false)
      else if not faults.write
      then (old, false)
      else if not faults.close
      then (old, false)
      else if not faults.rename
      then (old, false)
      else (
        some (record { content = text ++ 10 ∷ []; mode = 0o600; regular = true; owner = some uid }),
        true,
      )
]
