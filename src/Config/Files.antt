-- ===== src/Config/Files.antt =====
-- `checkPrivate`, `readPrivate` and `writeFileAtomic` of internal/config. What the operating system
-- answers is an argument.
use Prim.Native.Nat.{bit_and}
use hamsterd.Common.{ℕ, Bool, true, false, Option, none, some, Text, not, ◌==◌, if◌then◌else◌}

pub record File : Type 0 where
  pub content : Text
  -- the permission bits
  pub mode : ℕ
  pub regular : Bool

-- The three ways in which a read ends.
pub data ReadResult : Type 0 where
  absent failed : ReadResult
  contents : Text → ReadResult

-- What the system answers to opening, inspecting and reading a file that exists.
pub record ReadFaults : Type 0 where
  pub open_file : Bool
  pub stat : Bool
  pub read_all : Bool

-- No write permission for the group and for others, except on Windows.
unfoldable pub check_private : Bool → File → Bool
check_private windows f = if windows then true else bit_and f.mode 0o022 == 0

unfoldable pub read_private : Bool → ReadFaults → Option File → ReadResult
read_private windows faults none = absent
read_private windows faults (some f) =
    if not faults.open_file
    then failed
    else if not faults.stat
    then failed
    else if not f.regular
    then failed
    else if not (check_private windows f)
    then failed
    else if faults.read_all
    then contents f.content
    else failed

-- What the system answers to the five steps of an atomic write.
pub record WriteFaults : Type 0 where
  pub create : Bool
  pub chmod : Bool
  pub write : Bool
  pub close : Bool
  pub rename : Bool

-- The file after the write, and whether there was no error. The temporary file is always removed.
unfoldable pub write_file_atomic : WriteFaults → Text → ℕ → Option File → Option File × Bool
write_file_atomic faults content mode old =
    if not faults.create
    then (old, false)
    else if not faults.chmod
    then (old, false)
    else if not faults.write
    then (old, false)
    else if not faults.close
    then (old, false)
    else if not faults.rename
    then (old, false)
    else (some (record { content = content; mode = mode; regular = true }), true)
