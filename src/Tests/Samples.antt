-- ===== src/Tests/Samples.antt =====
-- A router's table of two devices, a keyed digest that stands in for HMAC-SHA256, and states.
use Prim.Native.String.{String}
use dhcp_lease_observer.Prelude.{
  ℕ, zero, suc, ◌+◌, ◌*◌, ◌%◌, ◌<◌, refl, true, List, [], ◌∷◌, arith, replicate, pos,
}
use dhcp_lease_observer.Text.{Bytes, codes}
use dhcp_lease_observer.Net.{v4}
use dhcp_lease_observer.Clock.{Time, nanoseconds}
use dhcp_lease_observer.Model.Mac.{MacAddress}
use dhcp_lease_observer.Model.{
  dynamic, fixed, bound, LeaseRecord, LeaseTable, ArpNeighbor, ArpTable, LeaseSnapshot,
}
use dhcp_lease_observer.Base64.Laws.{IsBytes}
use dhcp_lease_observer.Identity.{Generator}
use dhcp_lease_observer.Identity.Valid.{IsHmac}
use dhcp_lease_observer.State.{Lease, Snapshot}

-- Noon of the second of January 2026, in nanoseconds since the year 1.
abbrev pub noon : Time
noon = record { instant = pos (63_902_952_000 * nanoseconds); offset = pos 0 }

abbrev pub at_second : ℕ → Time
at_second s = record { instant = pos ((63_902_952_000 + s) * nanoseconds); offset = pos 0 }

abbrev pub mac : ℕ → MacAddress
mac n = record { b0 = 2; b1 = 0; b2 = 0; b3 = 0; b4 = 0; b5 = n }

abbrev pub row : ℕ → ℕ → LeaseRecord
row n elapsed = record {
  assignment = dynamic;
  ip = v4 (3221225984 + n);
  hardware_address = mac n;
  bound_time_seconds = pos elapsed;
  lease_time_seconds = pos 86_400;
  state = bound;
  profile = codes "lan";
}

abbrev pub table : LeaseTable
table = record { reported_count = pos 2; records = row 1 60 ∷ row 2 3600 ∷ [] }

abbrev pub neighbor : ArpNeighbor
neighbor = record {
  ip = v4 3221225985;
  hardware_address = mac 1;
  ttl = codes "60";
  uptime = codes "0:10:00";
  interface = codes "GigaEthernet1.0";
}

abbrev pub arp : ArpTable
arp = record {
  reported_dynamic = pos 1;
  free = pos 0;
  garbage = pos 0;
  static = pos 0;
  auto_refresh = true;
  neighbors = neighbor ∷ [];
}

abbrev pub source : LeaseSnapshot
source = record { version = pos 1; leases = table; arp = arp }

abbrev byte_sum : Bytes → ℕ
byte_sum [] = 0
byte_sum (b ∷ bs) = b + byte_sum bs

-- A digest of 32 bytes that depends on the message.
abbrev pub checksum : Bytes → Bytes → Bytes
checksum key message = replicate 32 (byte_sum message % 256)

pub checksum-IsHmac : IsHmac checksum
checksum-IsHmac = record {
  size = λ key message. refl;
  bytes = λ key message. small (byte_sum message % 256) (omega arith) 32;
}
  where
    small : (b : ℕ) → b < 256 → (n : ℕ) → IsBytes (replicate n b)
    small b h zero = tt
    small b h (suc n) = (h, small b h n)

abbrev pub generator : Generator
generator = record { key = replicate 32 7 }

abbrev pub id : String → Bytes
id text = codes text

abbrev pub lease : String → ℕ → Time → Lease
lease device n since = record {
  device_id = codes device;
  ip = v4 (3221225984 + n);
  assignment = fixed;
  state = bound;
  profile = codes "lan";
  bound_at = since;
  expires_at = at_second 90_000;
}

abbrev pub snapshot : Time → String → List Lease → Snapshot
snapshot t key leases = record {
  version = pos 1;
  observed_at = t;
  identity_key_id = codes key;
  arp_available = true;
  arp_failure_class = [];
  leases = leases;
}

abbrev pub device_a : String
device_a = "d1_AAAAAAAAAAAAAAAAAAAAAA"

abbrev pub device_b : String
device_b = "d1_BBBBBBBBBBBBBBBBBBBBBB"

abbrev pub device_c : String
device_c = "d1_CCCCCCCCCCCCCCCCCCCCCC"

abbrev pub key_a : String
key_a = "k1_AAAAAAAAAAAAAAAAAAAAAA"

abbrev pub key_b : String
key_b = "k1_BBBBBBBBBBBBBBBBBBBBBB"

-- Two devices; then one has moved, one is gone, and one is new.
abbrev pub first : Snapshot
first = snapshot noon key_a (lease device_a 1 noon ∷ lease device_b 2 noon ∷ [])

abbrev pub second : Snapshot
second =
    snapshot (at_second 60) key_a (lease device_c 2 (at_second 30) ∷ lease device_a 3 noon ∷ [])
