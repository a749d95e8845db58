-- ===== src/Tests/Files.antt =====
-- Saves and loads of a small state file.
use dhcp_lease_observer.Prelude.{
  ◌≡◌, ◌≢◌, ◌⊎◌, refl, inl, inr, arith, Result-cases, true, false, none, some, [], ◌∷◌, ok,
  ne_of_eq_false, if◌then◌else◌, ◌==◌,
}
use dhcp_lease_observer.Text.{Bytes, codes, bytes_beq, bytes_eq, is_empty}
use dhcp_lease_observer.Files.{Disk, put}
use dhcp_lease_observer.AtomicFile.{
  Calls, Callback, Exit, works, fails, done, stopped, file_of, write, write_temporary, write_chunks,
  limit_write, after_callback, replace, sync_directory, remove_temporary,
}
use dhcp_lease_observer.AtomicFile.Atomic.{IsAtomic, write-IsAtomic}
use dhcp_lease_observer.SafeFile.{OpenCalls, open_regular}
use dhcp_lease_observer.State.{validate}
use dhcp_lease_observer.State.Store.{Codec, save, load, written, state_callback, max_state_bytes}
use dhcp_lease_observer.State.Store.Kept.{IsReadable, load-save}
use dhcp_lease_observer.Collector.{WriteOutcome}
use dhcp_lease_observer.Collector.Files.{load_previous, stored, Simulates, save-save_state}
use dhcp_lease_observer.Tests.Samples.{first}
use dhcp_lease_observer.Tests.Collector.{env, world}

abbrev path : Bytes
path = codes "state.json"

abbrev temporary : Bytes
temporary = codes ".atomic-1"

abbrev disk : Disk
disk = put path (some (file_of 384 (codes "old"))) (λ _. none)

-- All calls work, but the directory cannot be opened in the end.
abbrev calls : Calls
calls = record {
  temporary = temporary;
  create = works;
  chmod = works;
  writes = λ _. record { accepts = 100; outcome = works };
  sync = works;
  close = works;
  rename = works;
  remove = works;
  open_directory = fails;
  sync_directory = works;
}

abbrev callback : Callback
callback = record { chunks = codes "{" ∷ codes "}" ∷ []; ends_well = true }

apart : temporary ≢ path
unfolding bytes_beq
apart = ne_of_eq_false temporary path refl

fresh : disk temporary ≡ none
unfolding put bytes_beq
fresh = refl

write-IsAtomic_example :
    IsAtomic calls path 384 4096 callback disk (write calls path 384 4096 callback disk)
write-IsAtomic_example = write-IsAtomic calls path 384 4096 callback disk apart fresh

-- What a run of `Write` computes with.
write_run : Calls → Exit × Disk
unfolding write write_temporary write_chunks limit_write after_callback replace sync_directory
    remove_temporary
write_run calls = write calls path 384 4096 callback disk

whole_run : (write_run calls).1 path ≡ some (file_of 384 (codes "{}"))
unfolding write_run put bytes_beq
whole_run = refl

-- A codec that knows one state.
abbrev pub codec : Codec
codec = record {
  encode = λ _. some (codes "{}");
  decode = λ text. if text == codes "{}" then some (first, []) else none;
  at_end = is_empty;
}

abbrev pub opened : OpenCalls
opened = record { open_fails = false; stat_fails = false; read_fails = false }

readable : IsReadable codec calls opened path first disk
unfolding bytes_beq
readable = record {
  named = refl;
  apart = apart;
  fresh = fresh;
  text = codes "{}";
  rest = [];
  encoded = refl;
  decoded = refl;
  ended = refl;
  opens = refl;
  stats = refl;
  reads = refl;
}

load-save_example :
    (load codec opened path (save codec calls path first disk).1 ≡ ok first)
    ⊎ ((load codec opened path (save codec calls path first disk).1 ≡ load codec opened path disk)
        × ((save codec calls path first disk).0 ≢ written done))
load-save_example = load-save codec calls opened path first disk readable

-- A disk without a state file.
abbrev empty : Disk
empty = λ _. none

empty-IsReadable : IsReadable codec calls opened path first empty
unfolding bytes_beq
empty-IsReadable = record {
  named = refl;
  apart = apart;
  fresh = refl;
  text = codes "{}";
  rest = [];
  encoded = refl;
  decoded = refl;
  ended = refl;
  opens = refl;
  stats = refl;
  reads = refl;
}

nothing_stored : load_previous codec opened path empty ≡ stored none
unfolding load_previous load open_regular
nothing_stored = refl

goes_on :
    (write calls path 384 max_state_bytes (state_callback (some (codes "{}"))) empty).0 ≢ stopped
unfolding write_run
goes_on = λ h. cc

-- Whatever the guards of `Save` give, the process goes on.
survives : (save codec calls path first empty).0 ≢ written stopped
unfolding save
survives h = elim (Result-cases (validate first)) [
  | inr (e, v) ↦ absurd (ground (arith, v))
  | inl (u, v) ↦ goes_on (cc (rw (v, save) at h))
]

save-save_state_example :
    (o : WriteOutcome) × Simulates codec opened path env first world
      (save codec calls path first empty)
      o
save-save_state_example =
    save-save_state codec calls opened path first empty empty-IsReadable env world nothing_stored
      survives
