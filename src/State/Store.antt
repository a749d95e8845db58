-- ===== src/State/Store.antt =====
-- internal/state/store.go: the state file. Package encoding/json is a parameter.
pub mod Kept
use dhcp_lease_observer.Prelude.{
  ℕ, ◌+◌, ◌^◌, ◌*◌, Bool, true, false, not, Option, none, some, [], ◌∷◌, take, Result, ok, err,
  if◌then◌else◌,
}
use dhcp_lease_observer.Text.{Bytes}
use dhcp_lease_observer.Files.{Disk}
use dhcp_lease_observer.AtomicFile.{Calls, Callback, Exit, write}
use dhcp_lease_observer.SafeFile.{OpenCalls, OpenError, unsafe_file, open_regular}
use dhcp_lease_observer.State.{Snapshot, StateError, validate}

-- `Encode` of a state; `Decode` of a text into a state and what is not read yet, with unknown fields
-- refused; and whether a second `Decode` reports the end.
pub record Codec : Type 0 where
  pub encode : Snapshot → Option Bytes
  pub decode : Bytes → Option (Snapshot × Bytes)
  pub at_end : Bytes → Bool

abbrev pub max_state_bytes : ℕ
max_state_bytes = 4 * 2 ^ 20

-- The callback of `Save`: one write of the text, if it can be encoded.
abbrev pub state_callback : Option Bytes → Callback
state_callback none = record { chunks = []; ends_well = false }
state_callback (some text) = record { chunks = text ∷ []; ends_well = true }

pub data SaveExit : Type 0 where
  invalid_state : StateError → SaveExit
  written : Exit → SaveExit

-- `Save`, with mode 0o600.
unfoldable pub save : Codec → Calls → Bytes → Snapshot → Disk → SaveExit × Disk
save codec calls path s disk = elim (validate s) [
  | err e ↦ (invalid_state e, disk)
  | ok _ ↦
      let (exit, disk') =
        write calls path 384 max_state_bytes (state_callback (codec.encode s)) disk in
      (written exit, disk')
]

pub data LoadError : Type 0 where
  load_invalid : LoadError
  open_error : OpenError → LoadError

-- `Load` on the content of the file.
unfoldable pub parse_state : Codec → OpenCalls → Bytes → Result LoadError Snapshot
parse_state codec calls content =
    if calls.read_fails
    then err load_invalid
    else elim (codec.decode (take (max_state_bytes + 1) content)) [
      | none ↦ err load_invalid
      | some (s, rest) ↦
          if not (codec.at_end rest)
          then err load_invalid
          else elim (validate s) [ err _ ↦ err load_invalid | ok _ ↦ ok s ]
    ]

-- `Load`, which refuses the permission bits 0o077.
unfoldable pub load : Codec → OpenCalls → Bytes → Disk → Result LoadError Snapshot
load codec calls path disk = elim (open_regular calls disk path 63 max_state_bytes) [
  | err unsafe_file ↦ err load_invalid
  | err e ↦ err (open_error e)
  | ok content ↦ parse_state codec calls content
]
