-- ===== src/Collector/Files.antt =====
-- The collector's view of its state file: what `loadPrevious` of internal/collector/collector.go
-- makes of it, and how `Save` of internal/state/store.go acts on a disk as a run's write acts on the
-- state of its world.
use dhcp_lease_observer.Prelude.{
  ◌≡◌, ◌≢◌, ◌∙◌, ◌≤◌, refl, sym, ap, [], ◌∷◌, length, Bool, true, false, Option, none, some, inl,
  inr, Result, ok, err, Result-cases,
}
use mathlib.Core.List.{append-nil}
use dhcp_lease_observer.Text.{Bytes}
use dhcp_lease_observer.Files.{Disk}
use dhcp_lease_observer.AtomicFile.{Calls, Exit, done, failed, stopped, file_of, write}
use dhcp_lease_observer.AtomicFile.Limit.{join}
use dhcp_lease_observer.AtomicFile.Atomic.{Target, same, whole, write-IsAtomic}
use dhcp_lease_observer.SafeFile.{OpenCalls, not_exist}
use dhcp_lease_observer.State.{Snapshot, validate}
use dhcp_lease_observer.State.Store.{
  Codec, LoadError, open_error, load, max_state_bytes, state_callback, SaveExit, written, save,
}
use dhcp_lease_observer.State.Store.Kept.{IsReadable, load_same, load_whole}
use dhcp_lease_observer.Collector.{
  Loaded, absent, unreadable, found, WriteOutcome, replaced, unchanged, replaced_unsynced,
  write_file, Env, World, save_state,
}

-- `loadPrevious`, from what `Load` gives.
abbrev pub loaded : Result LoadError Snapshot → Loaded
loaded (ok s) = found s
loaded (err (open_error not_exist)) = absent
loaded (err _) = unreadable

unfoldable pub load_previous : Codec → OpenCalls → Bytes → Disk → Loaded
load_previous codec calls path disk = loaded (load codec calls path disk)

-- The state file of a world, as a run loads it.
abbrev pub stored : Option Snapshot → Loaded
stored none = absent
stored (some s) = found s

abbrev pub saves : SaveExit → Bool
saves (written done) = true
saves _ = false

-- A run's write of the state with the outcome `o` has the result of `Save`, and leaves the state that
-- `loadPrevious` finds on the disk behind it.
pub record Simulates (codec : Codec) (opened : OpenCalls) (path : Bytes) (env : Env) (s : Snapshot)
    (w : World) (out : SaveExit × Disk) (o : WriteOutcome) : Type 0 where
  pub result : (save_state (record env { state_write = o }) s w).0 ≡ saves out.0
  pub file :
      load_previous codec opened path out.1
      ≡ stored (save_state (record env { state_write = o }) s w).1.store

module _ (codec : Codec) (calls : Calls) (opened : OpenCalls) (path : Bytes) (s : Snapshot)
    (disk : Disk) (r : IsReadable codec calls opened path s disk) (env : Env) (w : World)
    (holds : load_previous codec opened path disk ≡ stored w.store) where
  abbrev Outcome : SaveExit × Disk → Type 0
  Outcome out = (o : WriteOutcome) × Simulates codec opened path env s w out o

  -- The run's write of a valid state, with an outcome.
  save_state-valid :
      (o : WriteOutcome)
      → validate s ≡ ok tt
      → save_state (record env { state_write = o }) s w
        ≡ ((write_file o s w.store).0, (record w { store = (write_file o s w.store).1 }))
  unfolding save_state
  save_state-valid o v = rw (v, save_state) refl

  loads_saved :
      (d : Disk)
      → validate s ≡ ok tt
      → d path ≡ some (file_of 384 (join (r.text ∷ [])))
      → length (join (r.text ∷ [])) ≤ max_state_bytes
      → loaded (load codec opened path d) ≡ found s
  loads_saved d v h l = ap loaded (
      load_whole codec calls opened path s disk r d (rw⁻¹ (append-nil r.text) h)
        (rw (append-nil r.text) at l) v)

  save_state-Outcome :
      (out : Exit × Disk)
      → validate s ≡ ok tt
      → Target calls path 384 max_state_bytes (state_callback (some r.text)) disk out
      → out.0 ≢ stopped
      → Outcome (written out.0, out.1)
  unfolding load_previous
  save_state-Outcome (done, d) v (same h n) g = absurd (n refl)
  save_state-Outcome (failed e, d) v (same h n) g = (
    unchanged,
    record {
      result = ap (λ x. x.0) (save_state-valid unchanged v);
      file =
          ap loaded (load_same codec calls opened path s disk r d h)
          ∙ holds
          ∙ sym (ap (λ x. stored x.1.store) (save_state-valid unchanged v));
    },
  )
  save_state-Outcome (done, d) v (whole h l k) g = (
    replaced,
    record {
      result = ap (λ x. x.0) (save_state-valid replaced v);
      file = loads_saved d v h l ∙ sym (ap (λ x. stored x.1.store) (save_state-valid replaced v));
    },
  )
  save_state-Outcome (failed e, d) v (whole h l k) g = (
    replaced_unsynced,
    record {
      result = ap (λ x. x.0) (save_state-valid replaced_unsynced v);
      file =
          loads_saved d v h l
          ∙ sym (ap (λ x. stored x.1.store) (save_state-valid replaced_unsynced v));
    },
  )
  save_state-Outcome (stopped, d) v t g = absurd (g refl)

  -- With a named path, a temporary name that is free and not the path's, a codec that reads back what
  -- it writes of this state, a system that lets files be opened and read, and a state file in which
  -- `loadPrevious` finds just what a run's world has: if the process survives `Save`, the run's write
  -- of the state, with one of its outcomes, succeeds just when `Save` does, and `loadPrevious` then
  -- finds in the file just what the world has behind that write.
  pub save-save_state :
      (save codec calls path s disk).0 ≢ written stopped → Outcome (save codec calls path s disk)
  unfolding save save_state
  save-save_state survives = elim (Result-cases (validate s)) [
    | inr (e, v) ↦
        rw (v, save)
          (unchanged, record { result = rw (v, save_state) refl; file = rw (v, save_state) holds })
    | inl (u, v) ↦
        rw (v, r.encoded, save)
          (save_state-Outcome
            (write calls path 384 max_state_bytes (state_callback (some r.text)) disk) v
            (write-IsAtomic calls path 384 max_state_bytes _ disk r.apart r.fresh).target
            (λ k. (rw (v, r.encoded, save) at survives) (ap written k)))
  ]
