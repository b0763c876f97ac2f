-- ===== src/Sources/Tests.antt =====
-- The theorems on the address filter, run on two addresses.
use tinycortex.Sources.Resolver.{resolve_lem, reachable}
use tinycortex.Sources.Documented.{is_public_ipv4_lem, reachable_v4}
use tinycortex.Base.{◌≡◌, ◌⊎◌, ◌∷◌, [], arith, List, none, false, some, All, keep}
use tinycortex.Sources.Ssrf.{Ipv4, is_public_ipv4, IpAddr, v4, resolve}

abbrev metadata : Ipv4
metadata = record { a = 169; b = 254; c = 169; d = 254 }

abbrev outside : Ipv4
outside = record { a = 8; b = 8; c = 4; d = 4 }

is_public_ipv4_lem_example : is_public_ipv4 metadata ≡ reachable_v4 metadata
is_public_ipv4_lem_example =
    is_public_ipv4_lem metadata (omega arith) (omega arith) (omega arith) (omega arith)

abbrev found : List IpAddr
found = v4 metadata ∷ v4 outside ∷ []

resolve_lem_example :
    ((resolve found ≡ none) × All (λ x. reachable x ≡ false) found)
    ⊎ ((x : IpAddr) × (xs : List IpAddr) × (resolve found ≡ some (x ∷ xs))
        × (keep reachable found ≡ x ∷ xs))
resolve_lem_example = resolve_lem found (
  (omega arith, omega arith, omega arith, omega arith),
  ((omega arith, omega arith, omega arith, omega arith), tt),
)
