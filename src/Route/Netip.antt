-- ===== src/Route/Netip.antt =====
-- What internal/probe/route and internal/model/ip.go use of Go's net/netip, and the two functions of
-- internal/model/ip.go. An IPv4 address is its 32-bit value, an IPv6 address its 128-bit value and
-- its zone.
use tadori.Base.{
  ℕ, ◌+◌, ◌-◌, ◌/◌, ◌%◌, ◌*◌, ◌^◌, String, Bool, true, false, not, ◌&&◌, ltb, leb, ◌==◌, str_eq,
  if◌then◌else◌,
}

pub data Addr : Type 0 where
  zero_addr : Addr
  v4 : ℕ → Addr
  v6 : ℕ → String → Addr

abbrev pub addr_is_valid : Addr → Bool
addr_is_valid zero_addr = false
addr_is_valid _ = true

abbrev pub is4 : Addr → Bool
is4 (v4 _) = true
is4 _ = false

-- `::ffff:0:0/96`
abbrev mapped_block : ℕ
mapped_block = 65535

abbrev pub two_32 : ℕ
two_32 = 4294967296

abbrev pub is4in6 : Addr → Bool
is4in6 (v6 n zone) = (n / two_32) == mapped_block
is4in6 _ = false

abbrev pub unmap : Addr → Addr
unmap zero_addr = zero_addr
unmap (v4 n) = v4 n
unmap (v6 n zone) = if (n / two_32) == mapped_block then v4 (n % two_32) else v6 n zone

abbrev pub without_zone : Addr → Addr
without_zone (v6 n zone) = v6 n ""
without_zone a = a

abbrev pub bit_len : Addr → ℕ
bit_len zero_addr = 0
bit_len (v4 _) = 32
bit_len (v6 _ _) = 128

abbrev pub addr_eq : Addr → Addr → Bool
addr_eq zero_addr zero_addr = true
addr_eq (v4 m) (v4 n) = m == n
addr_eq (v6 m y) (v6 n z) = (m == n) && str_eq y z
addr_eq _ _ = false

-- As in Go, the number of bits plus one, and 0 in an invalid prefix: `Bits()` is one less.
pub record Prefix : Type 0 where
  pub addr : Addr
  pub bits_plus_one : ℕ

abbrev pub prefix_is_valid : Prefix → Bool
prefix_is_valid p = ltb 0 p.bits_plus_one

abbrev pub prefix_eq : Prefix → Prefix → Bool
prefix_eq p q = addr_eq p.addr q.addr && (p.bits_plus_one == q.bits_plus_one)

-- `netip.PrefixFrom` on a number of bits that is not negative
abbrev pub prefix_from : Addr → ℕ → Prefix
prefix_from a bits = record {
  addr = without_zone a;
  bits_plus_one = if addr_is_valid a && leb bits (bit_len a) then bits + 1 else 0;
}

-- The leading bits of a value of `width` bits, the others 0.
abbrev pub mask : ℕ → ℕ → ℕ → ℕ
mask width bits n = (n / 2 ^ (width - bits)) * 2 ^ (width - bits)

abbrev masked_addr : ℕ → Addr → Addr
masked_addr bits zero_addr = zero_addr
masked_addr bits (v4 n) = v4 (mask 32 bits n)
masked_addr bits (v6 n zone) = v6 (mask 128 bits n) ""

abbrev pub masked : Prefix → Prefix
masked p =
    if prefix_is_valid p
    then record { addr = masked_addr (p.bits_plus_one - 1) p.addr; bits_plus_one = p.bits_plus_one }
    else record { addr = zero_addr; bits_plus_one = 0 }

-- The leading bits agree.
abbrev agree : ℕ → ℕ → ℕ → ℕ → Bool
agree width bits m n = (m / 2 ^ (width - bits)) == (n / 2 ^ (width - bits))

-- `Contains`: never on a zone, nor across the families.
unfoldable pub contains : Prefix → Addr → Bool
contains p a = prefix_is_valid p && covers p.addr a
  where
    covers : Addr → Addr → Bool
    covers (v4 m) (v4 n) = agree 32 (p.bits_plus_one - 1) m n
    covers (v6 m _) (v6 n zone) = str_eq zone "" && agree 128 (p.bits_plus_one - 1) m n
    covers _ _ = false

abbrev pub normalize_addr : Addr → Addr
normalize_addr a = unmap a

unfoldable pub normalize_prefix : Prefix → Prefix
normalize_prefix p =
    if not (prefix_is_valid p && is4in6 p.addr)
    then p
    else if leb 96 (p.bits_plus_one - 1)
    then masked (prefix_from (unmap p.addr) ((p.bits_plus_one - 1) - 96))
    else p
