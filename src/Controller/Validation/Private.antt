-- ===== src/Controller/Validation/Private.antt =====
-- The private ranges by the bytes of an address.
use x402_k8s_operator.Base.{
  ℕ, ◌+◌, ◌*◌, ◌/◌, ◌%◌, ◌^◌, ◌<◌, ◌≤◌, ◌≡◌, ◌↔◌, ◌⊎◌, inl, inr, true, eqb, Bool-cases, arith,
}
use x402_k8s_operator.Controller.Validation.{
  Ip, ip4, ip6, v4, v6, is_private_ip, any_contains, private_ranges,
}

-- 127.0.0.0/8, 10.0.0.0/8, 172.16.0.0/12, 192.168.0.0/16 and 169.254.0.0/16
abbrev pub IsPrivateV4 : ℕ → ℕ → Type 0
IsPrivateV4 a b =
    (a ≡ 127)
    ⊎ ((a ≡ 10)
        ⊎ (((a ≡ 172) × (16 ≤ b) × (b < 32)) ⊎ (((a ≡ 192) × (b ≡ 168)) ⊎ ((a ≡ 169) × (b ≡ 254)))))

-- The first two of the four bytes of an address say that it is private.
abbrev IsPrivateNumber : ℕ → Type 0
IsPrivateNumber n = IsPrivateV4 (n / 2 ^ 24) (n / 2 ^ 16 % 2 ^ 8)

-- ::1, fd00::/8, fe80::/10, and ::ffff:0:0/96 with a private IPv4 address in its last four bytes
abbrev pub IsPrivate : Ip → Type 0
IsPrivate (ip4 n) = IsPrivateNumber n
IsPrivate (ip6 n) =
    (n ≡ 1)
    ⊎ ((n / 2 ^ 120 ≡ 0xfd)
        ⊎ (((n / 2 ^ 112 ≡ 0xfe * 2 ^ 8 + n / 2 ^ 112 % 2 ^ 8)
              × (0x80 ≤ n / 2 ^ 112 % 2 ^ 8)
              × (n / 2 ^ 112 % 2 ^ 8 < 0xc0))
            ⊎ ((n / 2 ^ 32 ≡ 0xffff) × IsPrivateNumber (n % 2 ^ 32))))

any_contains-v4_iff : (n : ℕ) → (any_contains private_ranges (ip4 n) ≡ true) ↔ IsPrivateNumber n
any_contains-v4_iff n = ground arith

pub is_private_ip_iff : (ip : Ip) → (is_private_ip ip ≡ true) ↔ IsPrivate ip
unfolding is_private_ip
is_private_ip_iff (ip4 n) = any_contains-v4_iff n
is_private_ip_iff (ip6 n) = elim (Bool-cases (eqb (n / 2 ^ 32) 0xffff)) [
  | inl mapped ↦ rw mapped (ground (arith, any_contains-v4_iff (n % 2 ^ 32), mapped))
  | inr plain ↦ rw plain (ground (arith, plain))
]

-- ::1, fd00::/8 and fe80::/10
abbrev pub IsPrivateV6 : ℕ → ℕ → ℕ → Type 0
IsPrivateV6 a b rest =
    ((a ≡ 0) × (b ≡ 0) × (rest ≡ 1)) ⊎ ((a ≡ 0xfd) ⊎ ((a ≡ 0xfe) × (0x80 ≤ b) × (b < 0xc0)))

-- An IPv4 address in the form of 16 bytes, ::ffff:c.d.x.y, where c.d is private.
abbrev pub IsPrivateMapped : ℕ → ℕ → ℕ → Type 0
IsPrivateMapped a b rest =
    (a ≡ 0)
    × (b ≡ 0)
    × (rest / 2 ^ 32 ≡ 0xffff)
    × IsPrivateV4 (rest / 2 ^ 24 % 2 ^ 8) (rest / 2 ^ 16 % 2 ^ 8)

-- An IPv4 address a.b.c.d counts as private exactly when a is 127 or 10, or a.b is 192.168 or 169.254
-- or from 172.16 to 172.31.
pub is_private_ip-v4_iff :
    (a b c d : ℕ)
    → a < 256
    → b < 256
    → c < 256
    → d < 256
    → (is_private_ip (v4 a b c d) ≡ true) ↔ IsPrivateV4 a b
unfolding is_private_ip
is_private_ip-v4_iff a b c d ha hb hc hd = ground arith

-- An IPv6 address with the first two bytes a and b counts as private exactly when it is ::1, or a is
-- 0xfd, or a is 0xfe and b from 0x80 to 0xbf, or it is ::ffff:c.d.x.y where the IPv4 address c.d.x.y
-- counts as private.
pub is_private_ip-v6_iff :
    (a b rest : ℕ)
    → a < 256
    → b < 256
    → rest < 2 ^ 112
    → (is_private_ip (v6 a b rest) ≡ true) ↔ (IsPrivateV6 a b rest ⊎ IsPrivateMapped a b rest)
is_private_ip-v6_iff a b rest ha hb hr = ground (arith, is_private_ip_iff (v6 a b rest))
