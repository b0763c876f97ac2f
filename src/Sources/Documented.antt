-- ===== src/Sources/Documented.antt =====
-- The IPv4 filter of memory/sources/readers/ssrf.rs against the networks that its comments name.
use tinycortex.Sources.Ssrf.{Ipv4, is_public_ipv4}
use tinycortex.Base.{
  ◌^◌, ◌<◌, ◌≡◌, ◌∙◌, ◌∷◌, if◌then◌else◌, [], List, ℕ, true, any, false, arith, refl, Bool, not, ap,
  sym,
}
use tinycortex.Sources.Networks.{Network, within, address, net, blocked, is_public_ipv4-blocked}

-- The networks that the comments of the file and the predicates of std::net name, with the sizes they
-- give: benchmarking is 198.18.0.0/15 and the protocol assignments are 192.0.0.0/24.
abbrev pub documented : List Network
documented =
    net 127 0 0 0 (2 ^ 24)
    ∷ net 10 0 0 0 (2 ^ 24)
    ∷ net 172 16 0 0 (2 ^ 20)
    ∷ net 192 168 0 0 (2 ^ 16)
    ∷ net 169 254 0 0 (2 ^ 16)
    ∷ net 0 0 0 0 1
    ∷ net 100 64 0 0 (2 ^ 22)
    ∷ net 192 0 0 0 (2 ^ 8)
    ∷ net 224 0 0 0 (2 ^ 28)
    ∷ net 255 255 255 255 1
    ∷ net 192 0 2 0 (2 ^ 8)
    ∷ net 198 51 100 0 (2 ^ 8)
    ∷ net 203 0 113 0 (2 ^ 8)
    ∷ net 198 18 0 0 (2 ^ 17)
    ∷ net 240 0 0 0 (2 ^ 28)
    ∷ []

-- 198.19.0.0/16, the half of the benchmarking network that the code misses.
abbrev pub missed : Network
missed = net 198 19 0 0 (2 ^ 16)

-- 192.0.0.0/16, which the code cuts out whole.
abbrev pub widened : Network
widened = net 192 0 0 0 (2 ^ 16)

missed-blocked : (x : ℕ) → within missed x ≡ true → any (λ n. within n x) blocked ≡ false
missed-blocked x h = ground (arith, h)

widened-blocked : (x : ℕ) → within widened x ≡ true → any (λ n. within n x) blocked ≡ true
widened-blocked x h = ground (arith, h)

benchmarking :
    (x : ℕ)
    → within missed x ≡ false
    → within (net 198 18 0 0 (2 ^ 17)) x ≡ within (net 198 18 0 0 (2 ^ 16)) x
benchmarking x h = ground (arith, h)

assignments : (x : ℕ) → within widened x ≡ false → within (net 192 0 0 0 (2 ^ 8)) x ≡ false
assignments x h = ground (arith, h)

documented-blocked :
    (x : ℕ)
    → within missed x ≡ false
    → within widened x ≡ false
    → any (λ n. within n x) documented ≡ any (λ n. within n x) blocked
documented-blocked x h k = rw (benchmarking x h, assignments x k, k) refl

-- What the documented networks leave, but for the two ranges.
abbrev pub reachable_v4 : Ipv4 → Bool
reachable_v4 o =
    if within missed (address o)
    then true
    else if within widened (address o)
    then false
    else not (any (λ n. within n (address o)) documented)

-- An address of four octets is public exactly when its 32-bit number lies in none of the documented
-- networks, but for two ranges: 198.19.0.0/16 is public, although benchmarking is documented as
-- 198.18.0.0/15, and all of 192.0.0.0/16 is not, although only 192.0.0.0/24 and 192.0.2.0/24 are
-- documented.
pub is_public_ipv4_lem :
    (o : Ipv4) → o.a < 256 → o.b < 256 → o.c < 256 → o.d < 256 → is_public_ipv4 o ≡ reachable_v4 o
is_public_ipv4_lem o ha hb hc hd =
    is_public_ipv4-blocked o ha hb hc hd
    ∙ go (within missed (address o)) refl (within widened (address o)) refl
  where
    go :
        (a : Bool)
        → within missed (address o) ≡ a
        → (b : Bool) → within widened (address o) ≡ b
        → not (any (λ n. within n (address o)) blocked) ≡ (
            if a
            then true
            else if b
            then false
            else not (any (λ n. within n (address o)) documented))
    go true e b f = ap not (missed-blocked (address o) e)
    go false e true f = ap not (widened-blocked (address o) f)
    go false e false f = ap not (sym (documented-blocked (address o) e f))
