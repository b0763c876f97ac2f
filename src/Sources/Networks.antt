-- ===== src/Sources/Networks.antt =====
-- The address filter of memory/sources/readers/ssrf.rs against a list of networks.
use tinycortex.Base.{
  ◌+◌, ◌*◌, ◌^◌, ◌<◌, ◌≡◌, ◌&&◌, ◌∷◌, ◌==◌, [], ℕ, Bool, leb, ltb, List, arith, ◌/◌, ◌||◌,
  if◌then◌else◌, false, not, true, refl, any,
}
use tinycortex.Sources.Ssrf.{
  Ipv4, is_public_ipv4, is_private_ipv4, is_private, is_link_local, is_unspecified, is_multicast,
  is_broadcast,
}

-- An address as one 32-bit number.
abbrev pub address : Ipv4 → ℕ
address o = o.a * 16777216 + o.b * 65536 + o.c * 256 + o.d

-- The first address of a network, and how many addresses it holds.
pub record Network : Type 0 where
  pub base : ℕ
  pub size : ℕ

abbrev pub within : Network → ℕ → Bool
within n x = leb n.base x && ltb x (n.base + n.size)

abbrev pub net : ℕ → ℕ → ℕ → ℕ → ℕ → Network
net a b c d size = record { base = address (record { a = a; b = b; c = c; d = d }); size = size }

-- The networks that the code's tests cut out, in their order.
abbrev pub blocked : List Network
blocked =
    net 127 0 0 0 (2 ^ 24)
    ∷ net 10 0 0 0 (2 ^ 24)
    ∷ net 172 16 0 0 (2 ^ 20)
    ∷ net 192 168 0 0 (2 ^ 16)
    ∷ net 169 254 0 0 (2 ^ 16)
    ∷ net 0 0 0 0 1
    ∷ net 100 64 0 0 (2 ^ 22)
    ∷ net 192 0 0 0 (2 ^ 16)
    ∷ net 224 0 0 0 (2 ^ 28)
    ∷ net 255 255 255 255 1
    ∷ net 192 0 2 0 (2 ^ 8)
    ∷ net 198 51 100 0 (2 ^ 8)
    ∷ net 203 0 113 0 (2 ^ 8)
    ∷ net 198 18 0 0 (2 ^ 16)
    ∷ net 240 0 0 0 (2 ^ 28)
    ∷ []

top :
    (o : Ipv4) (k : ℕ)
    → o.b < 256
    → o.c < 256
    → o.d < 256
    → (o.a == k) ≡ within (net k 0 0 0 (2 ^ 24)) (address o)
top o k hb hc hd = ground arith

second :
    (o : Ipv4) (k j : ℕ)
    → o.b < 256
    → o.c < 256
    → o.d < 256
    → j < 256
    → (o.a == k && o.b == j) ≡ within (net k j 0 0 (2 ^ 16)) (address o)
second o k j hb hc hd hj = ground arith

third :
    (o : Ipv4) (k j i : ℕ)
    → o.b < 256
    → o.c < 256
    → o.d < 256
    → j < 256
    → i < 256
    → (o.a == k && (o.b == j && o.c == i)) ≡ within (net k j i 0 (2 ^ 8)) (address o)
third o k j i hb hc hd hj hi = ground arith

host :
    (o : Ipv4) (k j i h : ℕ)
    → o.b < 256
    → o.c < 256
    → o.d < 256
    → j < 256
    → i < 256
    → h < 256
    → (o.a == k && (o.b == j && (o.c == i && o.d == h))) ≡ within (net k j i h 1) (address o)
host o k j i h hb hc hd hj hi hh = ground arith

private_172 :
    (o : Ipv4)
    → o.b < 256
    → o.c < 256
    → o.d < 256
    → (o.a == 172 && (leb 16 o.b && leb o.b 31)) ≡ within (net 172 16 0 0 (2 ^ 20)) (address o)
private_172 o hb hc hd = ground arith

shared_100 :
    (o : Ipv4)
    → o.b < 256
    → o.c < 256
    → o.d < 256
    → (o.a == 100 && o.b / 64 == 1) ≡ within (net 100 64 0 0 (2 ^ 22)) (address o)
shared_100 o hb hc hd = ground arith

multicast_224 :
    (o : Ipv4)
    → o.b < 256
    → o.c < 256
    → o.d < 256
    → (leb 224 o.a && leb o.a 239) ≡ within (net 224 0 0 0 (2 ^ 28)) (address o)
multicast_224 o hb hc hd = ground arith

reserved_240 :
    (o : Ipv4)
    → o.a < 256
    → o.b < 256
    → o.c < 256
    → o.d < 256
    → leb 240 o.a ≡ within (net 240 0 0 0 (2 ^ 28)) (address o)
reserved_240 o ha hb hc hd = ground arith

-- The tests of the code and a search through the list take the same tests in the same order.
in_order :
    (p1 p2 p3 p4 p5 p6 p7 p8 p9 p10 p11 p12 p13 p14 p15 : Bool)
    → (if ((p1 || (p2 || p3 || p4) || p5 || p6) || (p7 || p8)) || p9 || p10
        then false
        else not (p11 || p12 || p13 || p14 || p15))
      ≡ not (
          p1
          || (p2
              || (p3
                  || (p4
                      || (p5
                          || (p6
                              || (p7
                                  || (p8
                                      || (p9
                                          || (p10
                                              || (p11
                                                  || (p12
                                                      || (p13
                                                          || (p14 || (p15 || false)))))))))))))))
in_order true _ _ _ _ _ _ _ _ _ _ _ _ _ _ = refl
in_order false true _ _ _ _ _ _ _ _ _ _ _ _ _ = refl
in_order false false true _ _ _ _ _ _ _ _ _ _ _ _ = refl
in_order false false false true _ _ _ _ _ _ _ _ _ _ _ = refl
in_order false false false false true _ _ _ _ _ _ _ _ _ _ = refl
in_order false false false false false true _ _ _ _ _ _ _ _ _ = refl
in_order false false false false false false true _ _ _ _ _ _ _ _ = refl
in_order false false false false false false false true _ _ _ _ _ _ _ = refl
in_order false false false false false false false false true _ _ _ _ _ _ = refl
in_order false false false false false false false false false true _ _ _ _ _ = refl
in_order false false false false false false false false false false true _ _ _ _ = refl
in_order false false false false false false false false false false false true _ _ _ = refl
in_order false false false false false false false false false false false false true _ _ = refl
in_order false false false false false false false false false false false false false true _ = refl
in_order false false false false false false false false false false false false false false true =
    refl
in_order false false false false false false false false false false false false false false false =
    refl

-- The code's tests as one search through the list.
pub is_public_ipv4-blocked :
    (o : Ipv4)
    → o.a < 256
    → o.b < 256
    → o.c < 256
    → o.d < 256
    → is_public_ipv4 o ≡ not (any (λ n. within n (address o)) blocked)
unfolding is_public_ipv4 is_private_ipv4 is_private is_link_local is_unspecified is_multicast
    is_broadcast
is_public_ipv4-blocked o ha hb hc hd =
    rw
      (
        third o 192 0 2 hb hc hd (omega arith) (omega arith),
        third o 198 51 100 hb hc hd (omega arith) (omega arith),
        third o 203 0 113 hb hc hd (omega arith) (omega arith),
        host o 0 0 0 0 hb hc hd (omega arith) (omega arith) (omega arith),
        host o 255 255 255 255 hb hc hd (omega arith) (omega arith) (omega arith),
        top o 127 hb hc hd,
        top o 10 hb hc hd,
        private_172 o hb hc hd,
        second o 192 168 hb hc hd (omega arith),
        second o 169 254 hb hc hd (omega arith),
        shared_100 o hb hc hd,
        second o 192 0 hb hc hd (omega arith),
        multicast_224 o hb hc hd,
        second o 198 18 hb hc hd (omega arith),
        reserved_240 o ha hb hc hd,
      )
      (in_order (w (net 127 0 0 0 (2 ^ 24))) (w (net 10 0 0 0 (2 ^ 24)))
        (w (net 172 16 0 0 (2 ^ 20))) (w (net 192 168 0 0 (2 ^ 16))) (w (net 169 254 0 0 (2 ^ 16)))
        (w (net 0 0 0 0 1)) (w (net 100 64 0 0 (2 ^ 22))) (w (net 192 0 0 0 (2 ^ 16)))
        (w (net 224 0 0 0 (2 ^ 28))) (w (net 255 255 255 255 1)) (w (net 192 0 2 0 (2 ^ 8)))
        (w (net 198 51 100 0 (2 ^ 8))) (w (net 203 0 113 0 (2 ^ 8))) (w (net 198 18 0 0 (2 ^ 16)))
        (w (net 240 0 0 0 (2 ^ 28))))
  where
    w : Network → Bool
    w n = within n (address o)
