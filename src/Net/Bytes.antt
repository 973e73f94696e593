-- ===== src/Net/Bytes.antt =====
-- The octets of an address, most significant first.
use saimiris_gateway.Prelude.{
  ℕ, zero, suc, ◌+◌, ◌*◌, ◌/◌, ◌%◌, ◌^◌, ◌≡◌, refl, List, [], ◌∷◌, ◌++◌, arith, length,
  length-append,
}

-- The last `n` bytes of a number in big-endian order.
abbrev pub be_bytes : ℕ → ℕ → List ℕ
be_bytes zero x = []
be_bytes (suc n) x = be_bytes n (x / 256) ++ x % 256 ∷ []

-- `Ipv6Addr::octets`
abbrev pub v6_octets : ℕ → List ℕ
v6_octets = be_bytes 16

-- `Ipv4Addr::to_ipv6_mapped`: ::ffff:a.b.c.d
abbrev pub to_ipv6_mapped : ℕ → ℕ
to_ipv6_mapped a = 0xffff * 2 ^ 32 + a

pub length-be_bytes : (n x : ℕ) → length (be_bytes n x) ≡ n
length-be_bytes zero x = refl
length-be_bytes (suc n) x =
    omega (arith, length-append (be_bytes n (x / 256)) (x % 256 ∷ []), length-be_bytes n (x / 256))
