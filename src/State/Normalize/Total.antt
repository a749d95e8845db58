-- ===== src/State/Normalize/Total.antt =====
-- Normalisation succeeds on every valid source within the timer range.
use mathlib.Core.List.{Perm}
use dhcp_lease_observer.Prelude.{
  ◌≤◌, ◌^◌, ◌≡◌, refl, sym, ◌∙◌, ap, ◌≢◌, inl, true, false, some, List, [], ◌∷◌, arith, All, length,
  ok, Distinct, ℤ, pos, ◌≤ℤ◌, int_laws, pos_part, neg_part, sort_slice, sort_slice-perm,
  sort_slice-IsSorted, All-sort_slice, Distinct-sort_slice, IsSorted, IsOrder,
}
use dhcp_lease_observer.Text.{Bytes}
use dhcp_lease_observer.Text.Order.{bytes_less-asym, bytes_less_trans}
use dhcp_lease_observer.Clock.{Time, utc, is_zero_time, scale_parts}
use dhcp_lease_observer.Model.{LeaseRecord, LeaseSnapshot}
use dhcp_lease_observer.Model.Valid
use dhcp_lease_observer.Model.Valid.{IsSnapshot, snapshot_validate_iff}
use dhcp_lease_observer.Identity.{Generator, device_id, key_id, minimum_key_bytes}
use dhcp_lease_observer.Identity.Valid.{IsHmac, key_id-IsOpaqueId}
use dhcp_lease_observer.State.OpaqueId.{IsOpaqueId}
use dhcp_lease_observer.State
use dhcp_lease_observer.State.{Snapshot, schema_version}
use dhcp_lease_observer.State.Valid.{IsLease, IsState, validate_iff}
use dhcp_lease_observer.State.Normalize.Records.{IsTimed, Each, Normalizes, normalize_records-Each}
use dhcp_lease_observer.State.Normalize.{device_less, normalize}

-- Keys that correspond are distinct on one side if they are on the other.
module _ {ℓ κ μ ν} {A : Type ℓ} {B : Type κ} {K : Type μ} {L : Type ν} {R : A → B → Type 0}
    (f : A → K) (g : B → L) (into : L → K) (keys : (a : A) (b : B) → R a b → f a ≡ into (g b)) where
  Each-All-ne :
      (k : L) (xs : List A) (ys : List B)
      → Each R xs ys
      → All (λ a. f a ≢ into k) xs
      → All (λ b. g b ≢ k) ys
  Each-All-ne k [] [] e h = tt
  Each-All-ne k [] (y ∷ ys) e h = absurd e
  Each-All-ne k (x ∷ xs) [] e h = absurd e
  Each-All-ne k (x ∷ xs) (y ∷ ys) e h =
      (λ p. h.0 (keys x y e.0 ∙ ap into p), Each-All-ne k xs ys e.1 h.1)

  Each-Distinct : (xs : List A) (ys : List B) → Each R xs ys → Distinct f xs → Distinct g ys
  Each-Distinct [] [] e d = tt
  Each-Distinct [] (y ∷ ys) e d = absurd e
  Each-Distinct (x ∷ xs) [] e d = absurd e
  Each-Distinct (x ∷ xs) (y ∷ ys) e d =
      (Each-All-ne (g y) xs ys e.1 (rw (← keys x y e.0) d.0), Each-Distinct xs ys e.1 d.1)

abbrev pub far : ℤ
far = pos (2 ^ 63)

module _ (hmac : Bytes → Bytes → Bytes) (g : Generator) (t : Time) where
  -- A lease that stands for a valid record in range is valid at its observation.
  Normalizes-IsLease :
      (r : LeaseRecord) (l : State.Lease)
      → far ≤ℤ t.instant
      → t.offset ≡ pos 0
      → Valid.IsLease r
      → IsTimed r
      → Normalizes hmac (some g) t r l
      → IsOpaqueId b'd' l.device_id
      → IsLease t l
  Normalizes-IsLease r l old z v h n o =
      let bp = ap pos_part n.bound_instant in
      let bn = ap neg_part n.bound_instant in
      let ep = ap pos_part n.expiry_instant in
      let en = ap neg_part n.expiry_instant in
      record {
        identified = o;
        ipv4 = (v.ipv4.0, n.ip ∙ v.ipv4.1);
        assigned = ground (arith, n.assignment, v.assigned);
        is_bound = n.state ∙ v.is_bound;
        bound_time = record {
          set = λ e. absurd (
              omega
                (int_laws, scale_parts, bp, bn, ap pos_part e, ap neg_part e, h.elapsed, h.short));
          utc = n.bound_offset ∙ z;
        };
        expiry_time = record {
          set = λ e. absurd (
              omega (
                int_laws,
                scale_parts,
                bp,
                bn,
                ep,
                en,
                ap pos_part e,
                ap neg_part e,
                h.elapsed,
                h.short,
              ));
          utc = n.expiry_offset ∙ z;
        };
        was_bound = omega (int_laws, scale_parts, bp, bn, v.bound_nonneg);
        not_expired = omega (int_laws, scale_parts, bp, bn, ep, en, h.elapsed);
        lasts = omega (int_laws, scale_parts, ep, en, v.lease_positive);
      }

  Each-IsLease :
      (rs : List LeaseRecord) (ls : List State.Lease)
      → far ≤ℤ t.instant
      → t.offset ≡ pos 0
      → All Valid.IsLease rs
      → All IsTimed rs
      → Each (Normalizes hmac (some g) t) rs ls
      → All (λ l. IsOpaqueId b'd' l.device_id) ls
      → All (IsLease t) ls
  Each-IsLease [] [] old z v h e o = tt
  Each-IsLease [] (l ∷ ls) old z v h e o = absurd e
  Each-IsLease (r ∷ rs) [] old z v h e o = absurd e
  Each-IsLease (r ∷ rs) (l ∷ ls) old z v h e o =
      (Normalizes-IsLease r l old z v.0 h.0 e.0 o.0, Each-IsLease rs ls old z v.1 h.1 e.1 o.1)

device_less-IsOrder : IsOrder device_less
device_less-IsOrder = record {
  asym = λ a b. bytes_less-asym a.device_id b.device_id;
  trans = λ a b c. bytes_less_trans a.device_id b.device_id c.device_id;
}

-- The state that a source stands for: one lease for each record, in the order of device IDs.
pub record IsNormalized (hmac : Bytes → Bytes → Bytes) (g : Generator) (source : LeaseSnapshot)
    (observed_at : Time) (s : Snapshot) : Type 0 where
  pub observed : s.observed_at ≡ utc observed_at
  pub keyed : key_id hmac (some g) ≡ ok s.identity_key_id
  pub arp : s.arp_available ≡ true
  pub unsorted : List State.Lease
  pub each : Each (Normalizes hmac (some g) (utc observed_at)) source.leases.records unsorted
  pub perm : Perm s.leases unsorted
  pub sorted : IsSorted device_less s.leases
  pub valid : IsState s

module _ (hmac : Bytes → Bytes → Bytes) (is_hmac : IsHmac hmac) (g : Generator)
    (long_key : minimum_key_bytes ≤ length g.key) (source : LeaseSnapshot)
    (observed_at : Time) where
  -- A valid source is normalised without an error, if the key has 32 bytes, each record's elapsed
  -- time is at most its lease time and that at most the seconds that fit in a Duration, no two
  -- records get one device ID, and the observation is at least 2^63 ns after the zero time. The
  -- state is valid, has one lease for each record with times exact as integers, and is sorted.
  pub normalize_total :
      IsSnapshot source
      → All IsTimed source.leases.records
      → Distinct (λ r. device_id hmac (some g) r.hardware_address) source.leases.records
      → far ≤ℤ observed_at.instant
      → (s : Snapshot) × (normalize hmac (some g) source observed_at ≡ ok s)
        × IsNormalized hmac g source observed_at s
  unfolding normalize
  normalize_total v h d old =
      let t = utc observed_at in
      let rs = source.leases.records in
      let (key, e, o) = key_id-IsOpaqueId hmac is_hmac g long_key in
      let (ls, es, each, os) =
        normalize_records-Each hmac is_hmac g long_key t rs v.leases.valid h in
      let s : Snapshot = record {
        version = schema_version;
        observed_at = t;
        identity_key_id = key;
        arp_available = true;
        arp_failure_class = [];
        leases = sort_slice device_less ls;
      } in
      let valid : IsState s = record {
        versioned = refl;
        observed = record {
          set = λ p. absurd (omega (arith, ap pos_part p, ap neg_part p));
          utc = refl;
        };
        keyed = o;
        arp = inl (refl, refl);
        valid =
            All-sort_slice device_less (IsLease t) ls
              (Each-IsLease hmac g t rs ls old refl v.leases.valid h each os);
        devices =
            Distinct-sort_slice device_less (λ l. l.device_id) ls
              (Each-Distinct (λ r. device_id hmac (some g) r.hardware_address) (λ l. l.device_id) ok
                (λ r l n. n.identified) rs ls each d);
        ips =
            Distinct-sort_slice device_less (λ l. l.ip) ls
              (Each-Distinct (λ r. r.ip) (λ l. l.ip) (λ a. a) (λ r l n. sym n.ip) rs ls each
                v.leases.ips);
      } in
      (
        s,
        rw ((snapshot_validate_iff source).1 v, set_test, e, es) (rw ((validate_iff s).1 valid)),
        record {
          observed = refl;
          keyed = e;
          arp = refl;
          unsorted = ls;
          each = each;
          perm = sort_slice-perm device_less ls;
          sorted = sort_slice-IsSorted device_less device_less-IsOrder ls;
          valid = valid;
        },
      )
    where
      set_test : is_zero_time observed_at ≡ false
      set_test = ground arith
