-- ===== src/Net.antt =====
-- The part of packages net/netip and net that the program uses: an address with its equality and
-- its tests, and the text of an IPv4 address.
use dhcp_lease_observer.Prelude.{
  ℕ, zero, suc, ◌+◌, ◌-◌, ◌*◌, ◌≡◌, ◌↔◌, Bool, true, false, ◌&&◌, ◌||◌, Option, none, some, [], ◌∷◌,
  arith, ltb, nat_beq, Keyed, if◌then◌else◌,
}
use dhcp_lease_observer.Text.{Bytes, bytes_beq, bytes_beq_iff, is_digit}

-- `netip.Addr`: the zero Addr, an IPv4 address, an IPv6 address with its zone.
pub data Addr : Type 0 where
  zero_addr : Addr
  v4 : ℕ → Addr
  v6 : ℕ → Bytes → Addr

abbrev pub is_valid : Addr → Bool
is_valid zero_addr = false
is_valid _ = true

abbrev pub is4 : Addr → Bool
is4 (v4 _) = true
is4 _ = false

unfoldable pub addr_beq : Addr → Addr → Bool
addr_beq zero_addr zero_addr = true
addr_beq (v4 a) (v4 b) = nat_beq a b
addr_beq (v6 a z) (v6 b y) = nat_beq a b && bytes_beq z y
addr_beq _ _ = false

pub addr_beq_iff : (a b : Addr) → (addr_beq a b ≡ true) ↔ (a ≡ b)
unfolding addr_beq
addr_beq_iff zero_addr _ = ground arith
addr_beq_iff (v4 a) _ = ground arith
addr_beq_iff (v6 a z) (v6 b y) = ground (arith, bytes_beq_iff z y)
addr_beq_iff (v6 a z) _ = ground arith

instance abbrev pub addr_eq : Keyed Addr
addr_eq = record { same = addr_beq; same_iff = addr_beq_iff }

-- One decimal field: at most three digits, no leading zero, at most 255. The count of digits read
-- so far and their value come first.
read_field : ℕ → ℕ → Bytes → Option (ℕ × Bytes)
read_field n v [] = if nat_beq n 0 then none else some (v, [])
read_field n v (c ∷ cs) =
    let more = read_field (n + 1) (v * 10 + (c - 48)) cs in
    if is_digit c
    then if (nat_beq n 1 && nat_beq v 0) || ltb 255 (v * 10 + (c - 48)) then none else more
    else if nat_beq n 0
    then none
    else some (v, c ∷ cs)

-- Four fields with dots between them, and nothing behind the last.
read_quad : ℕ → ℕ → Bytes → Option ℕ
read_quad zero v s = none
read_quad (suc zero) v s = elim (read_field 0 0 s) [
  | none ↦ none
  | some (f, []) ↦ some (v * 256 + f)
  | some (f, c ∷ cs) ↦ none
]
read_quad (suc (suc k)) v s = elim (read_field 0 0 s) [
  | none ↦ none
  | some (f, []) ↦ none
  | some (f, c ∷ cs) ↦ if nat_beq c b'.' then read_quad (suc k) (v * 256 + f) cs else none
]

-- `netip.ParseAddr` on a text with a dot and no colon.
unfoldable pub parse_addr4 : Bytes → Option Addr
unfolding read_quad read_field is_digit
parse_addr4 s = elim (read_quad 4 0 s) [ none ↦ none | some a ↦ some (v4 a) ]
