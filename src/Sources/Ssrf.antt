-- ===== src/Sources/Ssrf.antt =====
-- memory/sources/readers/ssrf.rs: which addresses the network readers may connect to. The predicates
-- of std::net's `Ipv4Addr` and `Ipv6Addr` are written out; DNS lookup is an input.
use tinycortex.Base.{
  ℕ, ◌/◌, ◌&&◌, ◌||◌, ◌==◌, if◌then◌else◌, Bool, leb, false, not, ◌∷◌, [], List, true, Option, some,
  none, keep,
}

-- Octets, each below 256.
pub record Ipv4 : Type 0 where
  pub a : ℕ
  pub b : ℕ
  pub c : ℕ
  pub d : ℕ

unfoldable pub is_link_local : Ipv4 → Bool
is_link_local o = o.a == 169 && o.b == 254

unfoldable pub is_private : Ipv4 → Bool
is_private o = o.a == 10 || (o.a == 172 && (leb 16 o.b && leb o.b 31)) || (o.a == 192 && o.b == 168)

unfoldable pub is_unspecified : Ipv4 → Bool
is_unspecified o = o.a == 0 && (o.b == 0 && (o.c == 0 && o.d == 0))

unfoldable pub is_multicast : Ipv4 → Bool
is_multicast o = leb 224 o.a && leb o.a 239

unfoldable pub is_broadcast : Ipv4 → Bool
is_broadcast o = o.a == 255 && (o.b == 255 && (o.c == 255 && o.d == 255))

-- On an octet, `o & 0xc0 == 0x40` is `o / 64 == 1`.
unfoldable pub is_private_ipv4 : Ipv4 → Bool
unfolding is_link_local is_private is_unspecified
is_private_ipv4 o =
    (o.a == 127 || is_private o || is_link_local o || is_unspecified o)
    || ((o.a == 100 && o.b / 64 == 1) || (o.a == 192 && o.b == 0))

unfoldable pub is_public_ipv4 : Ipv4 → Bool
unfolding is_private_ipv4 is_multicast is_broadcast
is_public_ipv4 o =
    if is_private_ipv4 o || is_multicast o || is_broadcast o
    then false
    else not (
        (o.a == 192 && (o.b == 0 && o.c == 2))
        || (o.a == 198 && (o.b == 51 && o.c == 100))
        || (o.a == 203 && (o.b == 0 && o.c == 113))
        || (o.a == 198 && o.b == 18)
        || leb 240 o.a)

-- Octets 0 to 3, 4 to 11, and 12 to 15, which hold an embedded IPv4 address.
pub record Ipv6 : Type 0 where
  pub o0 : ℕ
  pub o1 : ℕ
  pub o2 : ℕ
  pub o3 : ℕ
  pub middle : List ℕ
  pub tail : Ipv4

unfoldable pub same_octets : List ℕ → List ℕ → Bool
same_octets [] [] = true
same_octets (x ∷ xs) (y ∷ ys) = x == y && same_octets xs ys
same_octets _ _ = false

-- The first twelve octets are zero but for the middle eight, which are given.
unfoldable pub starts_zero : List ℕ → Ipv6 → Bool
unfolding same_octets
starts_zero middle o =
    (o.o0 == 0 && (o.o1 == 0 && (o.o2 == 0 && o.o3 == 0))) && same_octets o.middle middle

abbrev pub zeros : List ℕ
zeros = 0 ∷ 0 ∷ 0 ∷ 0 ∷ 0 ∷ 0 ∷ 0 ∷ 0 ∷ []

abbrev pub mapped_middle : List ℕ
mapped_middle = 0 ∷ 0 ∷ 0 ∷ 0 ∷ 0 ∷ 0 ∷ 255 ∷ 255 ∷ []

unfoldable pub to_ipv4_mapped : Ipv6 → Option Ipv4
unfolding starts_zero
to_ipv4_mapped o = if starts_zero mapped_middle o then some o.tail else none

-- `::1` and `::`.
unfoldable pub is_loopback_or_unspecified : Ipv6 → Bool
unfolding starts_zero
is_loopback_or_unspecified o =
    starts_zero zeros o
    && (o.tail.a == 0 && (o.tail.b == 0 && (o.tail.c == 0 && (o.tail.d == 1 || o.tail.d == 0))))

-- On an octet, `o & 0xc0 == 0x80` is `o / 64 == 2`.
unfoldable pub is_private_ipv6 : Ipv6 → Bool
unfolding is_loopback_or_unspecified
is_private_ipv6 o =
    is_loopback_or_unspecified o
    || ((o.o0 == 252 || o.o0 == 253) || (o.o0 == 254 && o.o1 / 64 == 2))

unfoldable pub is_public_ipv6 : Ipv6 → Bool
unfolding is_private_ipv6 to_ipv4_mapped is_public_ipv4
is_public_ipv6 o =
    if is_private_ipv6 o || o.o0 == 255
    then false
    else if o.o0 == 32 && (o.o1 == 1 && (o.o2 == 13 && o.o3 == 184))
    then false
    else elim (to_ipv4_mapped o) [ none ↦ true | some v ↦ is_public_ipv4 v ]

pub data IpAddr : Type 0 where
  v4 : Ipv4 → IpAddr
  v6 : Ipv6 → IpAddr

unfoldable pub is_public_ip : IpAddr → Bool
unfolding is_public_ipv4 is_public_ipv6
is_public_ip (v4 o) = is_public_ipv4 o
is_public_ip (v6 o) = is_public_ipv6 o

unfoldable pub none_if_empty : List IpAddr → Option (List IpAddr)
none_if_empty [] = none
none_if_empty (x ∷ xs) = some (x ∷ xs)

-- `PublicOnlyResolver::resolve` on what the lookup found.
unfoldable pub resolve : List IpAddr → Option (List IpAddr)
unfolding none_if_empty is_public_ip
resolve found = none_if_empty (keep is_public_ip found)
