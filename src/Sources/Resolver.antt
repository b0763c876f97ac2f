-- ===== src/Sources/Resolver.antt =====
-- What the DNS resolver of memory/sources/readers/ssrf.rs lets through.
use tinycortex.Base.{
  ◌≡◌, ◌⊎◌, ◌∷◌, ◌&&◌, ◌||◌, ◌/◌, ◌^◌, ◌<◌, ◌==◌, if◌then◌else◌, [], List, Bool, leb, false, any,
  true, arith, refl, some, none, All, keep, inl, inr,
}
use tinycortex.Sources.Ssrf.{
  Ipv4, Ipv6, IpAddr, v4, v6, starts_zero, zeros, mapped_middle, is_public_ipv4, is_public_ip,
  is_public_ipv6, is_private_ipv6, is_loopback_or_unspecified, to_ipv4_mapped, resolve,
  none_if_empty,
}
use tinycortex.Sources.Networks.{Network, within, address, net}
use tinycortex.Sources.Documented.{reachable_v4, is_public_ipv4_lem}

-- Octets are below 256.
abbrev pub Octets : Ipv4 → Type 0
Octets o = (o.a < 256) × (o.b < 256) × (o.c < 256) × (o.d < 256)

-- The first four octets of an IPv6 address.
abbrev pub prefix : Ipv6 → Ipv4
prefix o = record { a = o.o0; b = o.o1; c = o.o2; d = o.o3 }

abbrev pub Valid : IpAddr → Type 0
Valid (v4 o) = Octets o
Valid (v6 o) = Octets (prefix o) × Octets o.tail

-- fc00::/7, fe80::/10, ff00::/8 and 2001:db8::/32, as ranges of the first 32 bits.
abbrev pub documented_v6 : List Network
documented_v6 =
    net 252 0 0 0 (2 ^ 25)
    ∷ net 254 128 0 0 (2 ^ 22)
    ∷ net 255 0 0 0 (2 ^ 24)
    ∷ net 32 1 13 184 1
    ∷ []

-- Neither `::` nor `::1` nor in a documented network; `::ffff:a.b.c.d` is judged as a.b.c.d.
abbrev pub reachable_v6 : Ipv6 → Bool
reachable_v6 o =
    if starts_zero zeros o && leb (address o.tail) 1
    then false
    else if any (λ n. within n (address (prefix o))) documented_v6
    then false
    else if starts_zero mapped_middle o
    then reachable_v4 o.tail
    else true

abbrev pub reachable : IpAddr → Bool
reachable (v4 o) = reachable_v4 o
reachable (v6 o) = reachable_v6 o

low_tail :
    (o : Ipv4)
    → (o.a == 0 && (o.b == 0 && (o.c == 0 && (o.d == 1 || o.d == 0)))) ≡ leb (address o) 1
low_tail o = ground arith

unique_local :
    (o : Ipv4) → Octets o → (o.a == 252 || o.a == 253) ≡ within (net 252 0 0 0 (2 ^ 25)) (address o)
unique_local o (ha, hb, hc, hd) = ground arith

link_local :
    (o : Ipv4)
    → Octets o
    → (o.a == 254 && o.b / 64 == 2) ≡ within (net 254 128 0 0 (2 ^ 22)) (address o)
link_local o (ha, hb, hc, hd) = ground arith

multicast : (o : Ipv4) → Octets o → (o.a == 255) ≡ within (net 255 0 0 0 (2 ^ 24)) (address o)
multicast o (ha, hb, hc, hd) = ground arith

documentation :
    (o : Ipv4)
    → Octets o
    → (o.a == 32 && (o.b == 1 && (o.c == 13 && o.d == 184)))
      ≡ within (net 32 1 13 184 1) (address o)
documentation o (ha, hb, hc, hd) = ground arith

in_order :
    (l u k m d z x : Bool)
    → (if (l || (u || k)) || m then false else if d then false else if z then x else true) ≡ (
        if l
        then false
        else if u || (k || (m || (d || false)))
        then false
        else if z
        then x
        else true)
in_order true _ _ _ _ _ _ = refl
in_order false true _ _ _ _ _ = refl
in_order false false true _ _ _ _ = refl
in_order false false false true _ _ _ = refl
in_order false false false false true _ _ = refl
in_order false false false false false _ _ = refl

mapped :
    (b : Bool) (o : Ipv4)
    → (elim (if b then some o else none) [ none ↦ true | some v ↦ is_public_ipv4 v ])
      ≡ (if b then is_public_ipv4 o else true)
mapped true o = refl
mapped false o = refl

is_public_ip-reachable : (x : IpAddr) → Valid x → is_public_ip x ≡ reachable x
unfolding is_public_ip is_public_ipv6 is_private_ipv6 is_loopback_or_unspecified to_ipv4_mapped
is_public_ip-reachable (v4 o) (ha, hb, hc, hd) = is_public_ipv4_lem o ha hb hc hd
is_public_ip-reachable (v6 o) (h, (ha, hb, hc, hd)) =
    rw
      (
        mapped (starts_zero mapped_middle o) o.tail,
        is_public_ipv4_lem o.tail ha hb hc hd,
        low_tail o.tail,
        unique_local (prefix o) h,
        link_local (prefix o) h,
        multicast (prefix o) h,
        documentation (prefix o) h,
      )
      (in_order (starts_zero zeros o && leb (address o.tail) 1) (w (net 252 0 0 0 (2 ^ 25)))
        (w (net 254 128 0 0 (2 ^ 22))) (w (net 255 0 0 0 (2 ^ 24))) (w (net 32 1 13 184 1))
        (starts_zero mapped_middle o) (reachable_v4 o.tail))
  where
    w : Network → Bool
    w n = within n (address (prefix o))

keep-reachable : (xs : List IpAddr) → All Valid xs → keep is_public_ip xs ≡ keep reachable xs
keep-reachable [] h = refl
keep-reachable (x ∷ xs) h = rw (is_public_ip-reachable x h.0, keep-reachable xs h.1) refl

keep-none : (xs : List IpAddr) → keep reachable xs ≡ [] → All (λ x. reachable x ≡ false) xs
keep-none [] e = tt
keep-none (x ∷ xs) e = go (reachable x) refl (keep-none xs) e
  where
    go :
        (b : Bool)
        → reachable x ≡ b
        → (keep reachable xs ≡ [] → All (λ y. reachable y ≡ false) xs)
        → (if b then x ∷ keep reachable xs else keep reachable xs) ≡ []
        → (reachable x ≡ false) × All (λ y. reachable y ≡ false) xs
    go true h ih q = ground arith
    go false h ih q = (h, ih q)

-- For addresses made of octets, the resolver answers the reachable ones among those found, in their
-- order, or fails if there is none. An IPv4 address is reachable if it lies in no documented network,
-- but for the two ranges told at `is_public_ipv4_lem`; an IPv6 address is if it is not `::`, `::1` or
-- in fc00::/7, fe80::/10, ff00::/8 or 2001:db8::/32 and, when it is `::ffff:a.b.c.d`, the address
-- a.b.c.d is reachable. Other embedded IPv4 addresses are not looked at.
pub resolve_lem :
    (found : List IpAddr)
    → All Valid found
    → ((resolve found ≡ none) × All (λ x. reachable x ≡ false) found)
      ⊎ ((x : IpAddr) × (xs : List IpAddr) × (resolve found ≡ some (x ∷ xs))
          × (keep reachable found ≡ x ∷ xs))
unfolding resolve none_if_empty
resolve_lem found h = go (keep reachable found) refl
  where
    go :
        (ys : List IpAddr)
        → keep reachable found ≡ ys
        → ((resolve found ≡ none) × All (λ x. reachable x ≡ false) found)
          ⊎ ((x : IpAddr) × (xs : List IpAddr) × (resolve found ≡ some (x ∷ xs)) × (ys ≡ x ∷ xs))
    go [] e = inl ((rw (keep-reachable found h, e) refl), keep-none found e)
    go (x ∷ xs) e = inr (x, xs, (rw (keep-reachable found h, e) refl), refl)
