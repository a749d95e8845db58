-- ===== src/State/Normalize.antt =====
-- `Normalize` of internal/state/snapshot.go: router timers to times, addresses to opaque IDs.
pub mod Records
pub mod Total
use dhcp_lease_observer.Prelude.{
  ℕ, ◌-◌, ◌/◌, ◌^◌, Bool, true, ◌||◌, Option, List, [], ◌∷◌, Result, ok, ◌>>=◌, ◌>>◌, reject_if,
  wrap_err, pos, ltb_ℤ, sort_slice,
}
use dhcp_lease_observer.Text.{Bytes, bytes_less}
use dhcp_lease_observer.Clock.{Time, is_zero_time, utc, add_time, seconds, negate, nanoseconds}
use dhcp_lease_observer.Model.{LeaseRecord, LeaseSnapshot, SnapshotError, snapshot_validate}
use dhcp_lease_observer.Identity.{Generator, IdentityError, device_id, key_id}
use dhcp_lease_observer.State
use dhcp_lease_observer.State.{Snapshot, StateError, schema_version, validate}

-- `int64(^uint64(0)>>1) / int64(time.Second)`
abbrev pub max_lease_seconds : ℕ
max_lease_seconds = (2 ^ 63 - 1) / nanoseconds

pub data NormalizeError : Type 0 where
  source_invalid : SnapshotError → NormalizeError
  observation_empty timer_out_of_range : NormalizeError
  identity : IdentityError → NormalizeError
  state_invalid : StateError → NormalizeError

-- The order of `sort.Slice` on leases.
abbrev pub device_less : State.Lease → State.Lease → Bool
device_less a b = bytes_less a.device_id b.device_id

module _ (hmac : Bytes → Bytes → Bytes) (generator : Option Generator) where
  -- One round of the loop over the records.
  unfoldable pub normalize_record : Time → LeaseRecord → Result NormalizeError State.Lease
  normalize_record observed_at r = do
    reject_if
        (ltb_ℤ r.lease_time_seconds r.bound_time_seconds
          || ltb_ℤ (pos max_lease_seconds) r.lease_time_seconds)
        timer_out_of_range
    device ← wrap_err identity (device_id hmac generator r.hardware_address)
    let bound = add_time observed_at (negate (seconds r.bound_time_seconds))
    let expires = add_time bound (seconds r.lease_time_seconds)
    ok (record {
      device_id = device;
      ip = r.ip;
      assignment = r.assignment;
      state = r.state;
      profile = r.profile;
      bound_at = bound;
      expires_at = expires;
    })

  unfoldable pub normalize_records :
      Time → List LeaseRecord → Result NormalizeError (List State.Lease)
  unfolding normalize_record
  normalize_records observed_at [] = ok []
  normalize_records observed_at (r ∷ rs) = do
    l ← normalize_record observed_at r
    ls ← normalize_records observed_at rs
    ok (l ∷ ls)

  unfoldable pub normalize : LeaseSnapshot → Time → Result NormalizeError Snapshot
  normalize source observed_at = do
    wrap_err source_invalid (snapshot_validate source)
    reject_if (is_zero_time observed_at) observation_empty
    key ← wrap_err identity (key_id hmac generator)
    leases ← normalize_records (utc observed_at) source.leases.records
    let snapshot : Snapshot = record {
      version = schema_version;
      observed_at = utc observed_at;
      identity_key_id = key;
      arp_available = true;
      arp_failure_class = [];
      leases = sort_slice device_less leases;
    }
    wrap_err state_invalid (validate snapshot)
    ok snapshot
