-- ===== src/State/Normalize/Records.antt =====
-- Normalising the records of a valid table: each succeeds within the timer range, with exact times.
use dhcp_lease_observer.Prelude.{
  ◌*◌, ◌≤◌, ◌≡◌, refl, sym, ◌∙◌, ap, false, ◌||◌, Option, some, List, [], ◌∷◌, arith, All, length,
  ok, ℤ, pos, negsuc, ◌≤ℤ◌, ◌+ℤ◌, ◌-ℤ◌, scale, ltb_ℤ, int_laws,
}
use dhcp_lease_observer.Text.{Bytes}
use dhcp_lease_observer.Clock.{
  Time, add_time, seconds, negate, nanoseconds, seconds-pos, scale-pos, negate-pos,
}
use dhcp_lease_observer.Model.Mac.{is_zero}
use dhcp_lease_observer.Model.{LeaseRecord}
use dhcp_lease_observer.Model.Valid
use dhcp_lease_observer.Model.Valid.{is_zero_iff}
use dhcp_lease_observer.Identity.{Generator, device_id, minimum_key_bytes}
use dhcp_lease_observer.Identity.Valid.{IsHmac, device_id-IsOpaqueId}
use dhcp_lease_observer.State.OpaqueId.{IsOpaqueId}
use dhcp_lease_observer.State
use dhcp_lease_observer.State.Normalize.{max_lease_seconds, normalize_record, normalize_records}

-- The timers of a record are ones that the code accepts.
pub record IsTimed (r : LeaseRecord) : Type 0 where
  pub elapsed : r.bound_time_seconds ≤ℤ r.lease_time_seconds
  pub short : r.lease_time_seconds ≤ℤ pos max_lease_seconds

-- Two lists whose items correspond, one to one and in order.
abbrev pub Each {ℓ κ} : {A : Type ℓ} {B : Type κ} → (A → B → Type 0) → List A → List B → Type 0
Each R [] [] = Unit
Each R [] (b ∷ bs) = ⊥
Each R (a ∷ as') [] = ⊥
Each R (a ∷ as') (b ∷ bs) = R a b × Each R as' bs

module _ (hmac : Bytes → Bytes → Bytes) (generator : Option Generator) (observed_at : Time) where
  -- The lease that a record stands for, with its times as integers, free of any word size.
  pub record Normalizes (r : LeaseRecord) (l : State.Lease) : Type 0 where
    pub identified : device_id hmac generator r.hardware_address ≡ ok l.device_id
    pub ip : l.ip ≡ r.ip
    pub assignment : l.assignment ≡ r.assignment
    pub state : l.state ≡ r.state
    pub profile : l.profile ≡ r.profile
    pub bound_instant :
        l.bound_at.instant ≡ observed_at.instant -ℤ scale nanoseconds r.bound_time_seconds
    pub expiry_instant :
        l.expires_at.instant ≡ l.bound_at.instant +ℤ scale nanoseconds r.lease_time_seconds
    pub bound_offset : l.bound_at.offset ≡ observed_at.offset
    pub expiry_offset : l.expires_at.offset ≡ observed_at.offset

-- Within the range the conversions to Durations do not wrap.
seconds_exact : (n : ℤ) → pos 0 ≤ℤ n → n ≤ℤ pos max_lease_seconds → seconds n ≡ scale nanoseconds n
seconds_exact (pos n) h k = seconds-pos n (omega arith) ∙ sym (scale-pos n)
seconds_exact (negsuc n) h k = absurd (omega arith)

add_negate_exact :
    (t n : ℤ)
    → pos 0 ≤ℤ n
    → n ≤ℤ pos max_lease_seconds
    → t +ℤ negate (seconds n) ≡ t -ℤ scale nanoseconds n
add_negate_exact t (pos n) h k =
    rw (seconds-pos n (omega arith), scale-pos n, negate-pos (n * nanoseconds) (omega arith))
      (omega int_laws)
add_negate_exact t (negsuc n) h k = absurd (omega arith)

timer_test :
    (r : LeaseRecord)
    → IsTimed r
    → (ltb_ℤ r.lease_time_seconds r.bound_time_seconds
        || ltb_ℤ (pos max_lease_seconds) r.lease_time_seconds)
      ≡ false
timer_test r h = ground (arith, h.elapsed, h.short)

module _ (hmac : Bytes → Bytes → Bytes) (is_hmac : IsHmac hmac) (g : Generator)
    (long_key : minimum_key_bytes ≤ length g.key) (t : Time) where
  -- One valid record in range becomes the lease that it stands for.
  pub normalize_record-Normalizes :
      (r : LeaseRecord)
      → Valid.IsLease r
      → IsTimed r
      → (l : State.Lease) × (normalize_record hmac (some g) t r ≡ ok l)
        × Normalizes hmac (some g) t r l
        × IsOpaqueId b'd' l.device_id
  unfolding normalize_record add_time
  normalize_record-Normalizes r v h =
      let set : is_zero r.hardware_address ≡ false = not_zero in
      let (device, e, o) = device_id-IsOpaqueId hmac is_hmac g r.hardware_address long_key set in
      (
        record {
          device_id = device;
          ip = r.ip;
          assignment = r.assignment;
          state = r.state;
          profile = r.profile;
          bound_at = add_time t (negate (seconds r.bound_time_seconds));
          expires_at =
              add_time (add_time t (negate (seconds r.bound_time_seconds)))
                (seconds r.lease_time_seconds);
        },
        rw (timer_test r h, e),
        record {
          identified = e;
          ip = refl;
          assignment = refl;
          state = refl;
          profile = refl;
          bound_instant =
              add_negate_exact t.instant r.bound_time_seconds v.bound_nonneg
                (omega (arith, h.elapsed, h.short));
          expiry_instant =
              ap (λ d. t.instant +ℤ negate (seconds r.bound_time_seconds) +ℤ d)
                (seconds_exact r.lease_time_seconds (omega (arith, v.lease_positive)) h.short);
          bound_offset = refl;
          expiry_offset = refl;
        },
        o,
      )
    where
      not_zero : is_zero r.hardware_address ≡ false
      not_zero = ground (arith, is_zero_iff r.hardware_address, v.mac_set)

  pub normalize_records-Each :
      (rs : List LeaseRecord)
      → All Valid.IsLease rs
      → All IsTimed rs
      → (ls : List State.Lease) × (normalize_records hmac (some g) t rs ≡ ok ls)
        × Each (Normalizes hmac (some g) t) rs ls
        × All (λ l. IsOpaqueId b'd' l.device_id) ls
  unfolding normalize_records
  normalize_records-Each [] v h = ([], refl, tt, tt)
  normalize_records-Each (r ∷ rs) v h =
      let (l, e, n, o) = normalize_record-Normalizes r v.0 h.0 in
      let (ls, es, ns, os) = normalize_records-Each rs v.1 h.1 in
      (l ∷ ls, rw (e, es), (n, ns), (o, os))
