-- ===== src/Queue/Selection.antt =====
-- The candidates of `requeue_failed_where` in memory/queue/store_settle.rs and the choice among them.
use tinycortex.Base.{
  In, String, List, Bool, ◌≡◌, map, ◌⊎◌, true, inl, keep, In-keep, ◌∷◌, if◌then◌else◌, [], inr,
  false, refl, none, some, any, same, ap, arith, Pairs, same_iff,
}
use tinycortex.Queue.Table.{Row, Table}
use tinycortex.Queue.Recovery.{Candidate, candidates, triage, is_newer, newest_first, insert_newest}

In-insert_newest : (x r : Row) (t : List Row) → In x (insert_newest r t) → (x ≡ r) ⊎ In x t
unfolding insert_newest
In-insert_newest x r [] (inl e) = inl e
In-insert_newest x r [] (inr e) = elim e [ ]
In-insert_newest x r (s ∷ t) m = go (is_newer s r) (In-insert_newest x r t) m
  where
    go :
        (b : Bool)
        → (In x (insert_newest r t) → (x ≡ r) ⊎ In x t)
        → In x (if b then s ∷ insert_newest r t else r ∷ s ∷ t)
        → (x ≡ r) ⊎ In x (s ∷ t)
    go true ih (inl e) = inr (inl e)
    go true ih (inr n) = elim (ih n) [ inl e ↦ inl e | inr k ↦ inr (inr k) ]
    go false ih n = n

In-newest_first : (x : Row) (t : List Row) → In x (newest_first t) → In x t
unfolding newest_first
In-newest_first x [] m = m
In-newest_first x (r ∷ t) m = elim (In-insert_newest x r (newest_first t) m) [
  | inl e ↦ inl e
  | inr n ↦ inr (In-newest_first x t n)
]

In-map_pair :
    (c : Candidate) (t : List Row)
    → In c (map (λ r. (r.id, r.dedupe_key)) t)
    → (r : Row) × In r t × (c ≡ (r.id, r.dedupe_key))
In-map_pair c [] m = elim m [ ]
In-map_pair c (r ∷ t) (inl e) = (r, inl refl, e)
In-map_pair c (r ∷ t) (inr m) = let (s, n, e) = In-map_pair c t m in (s, inr n, e)

-- Every candidate is the id and the key of a row of the table.
pub In-candidates :
    (p : Row → Bool) (c : Candidate) (t : Table)
    → In c (candidates p t)
    → (r : Row) × In r t × (c ≡ (r.id, r.dedupe_key)) × (p r ≡ true)
unfolding candidates
In-candidates p c t m =
    let (r, n, e) = In-map_pair c (newest_first (keep p t)) m in
    let (k, h) = In-keep p r t (In-newest_first r (keep p t) n) in (r, k, e, h)

-- The candidates that `triage` requeues, with their keys.
unfoldable pub selected : (String → Bool) → List String → List Candidate → List Candidate
selected active claimed [] = []
selected active claimed ((id, none) ∷ cs) = (id, none) ∷ selected active claimed cs
selected active claimed ((id, some key) ∷ cs) =
    let same_keys = selected active claimed cs in
    let new_key = selected active (key ∷ claimed) cs in
    if active key
    then same_keys
    else if any (same key) claimed
    then same_keys
    else (id, some key) ∷ new_key

pub to_requeue-triage :
    (active : String → Bool) (claimed : List String) (cs : List Candidate)
    → (triage active claimed cs).to_requeue ≡ map (λ c. c.0) (selected active claimed cs)
unfolding triage selected
to_requeue-triage active claimed [] = refl
to_requeue-triage active claimed ((id, none) ∷ cs) =
    ap (◌∷◌ id) (to_requeue-triage active claimed cs)
to_requeue-triage active claimed ((id, some key) ∷ cs) =
    ground (arith, to_requeue-triage active claimed cs, to_requeue-triage active (key ∷ claimed) cs)

pub In-selected :
    (active : String → Bool) (claimed : List String) (c : Candidate) (cs : List Candidate)
    → In c (selected active claimed cs)
    → In c cs
unfolding selected
In-selected active claimed c [] m = m
In-selected active claimed c ((id, none) ∷ cs) (inl e) = inl e
In-selected active claimed c ((id, none) ∷ cs) (inr m) = inr (In-selected active claimed c cs m)
In-selected active claimed c ((id, some key) ∷ cs) m =
    go (active key) (any (same key) claimed) (In-selected active claimed c cs)
      (In-selected active (key ∷ claimed) c cs) m
  where
    go :
        (live met : Bool)
        → (In c (selected active claimed cs) → In c cs)
        → (In c (selected active (key ∷ claimed) cs) → In c cs)
        → In c (
            if live
            then selected active claimed cs
            else if met
            then selected active claimed cs
            else (id, some key) ∷ selected active (key ∷ claimed) cs)
        → In c ((id, some key) ∷ cs)
    go true met h k n = inr (h n)
    go false true h k n = inr (h n)
    go false false h k (inl e) = inl e
    go false false h k (inr n) = inr (k n)

-- A selected key is neither live nor met before.
abbrev IsFresh : (String → Bool) → List String → Candidate → Type 0
IsFresh active claimed c =
    (k : String) → c.1 ≡ some k → (active k ≡ false) × (any (same k) claimed ≡ false)

pub selected-IsFresh :
    (active : String → Bool) (claimed : List String) (c : Candidate) (cs : List Candidate)
    → In c (selected active claimed cs)
    → IsFresh active claimed c
unfolding selected
selected-IsFresh active claimed c [] m = elim m [ ]
selected-IsFresh active claimed c ((id, none) ∷ cs) (inl e) = λ k f. ground arith
selected-IsFresh active claimed c ((id, none) ∷ cs) (inr m) = selected-IsFresh active claimed c cs m
selected-IsFresh active claimed c ((id, some key) ∷ cs) m =
    go (active key) (any (same key) claimed) refl refl (selected-IsFresh active claimed c cs)
      (selected-IsFresh active (key ∷ claimed) c cs) m
  where
    go :
        (live met : Bool)
        → active key ≡ live
        → any (same key) claimed ≡ met
        → (In c (selected active claimed cs) → IsFresh active claimed c)
        → (In c (selected active (key ∷ claimed) cs) → IsFresh active (key ∷ claimed) c)
        → In c (
            if live
            then selected active claimed cs
            else if met
            then selected active claimed cs
            else (id, some key) ∷ selected active (key ∷ claimed) cs)
        → IsFresh active claimed c
    go true met p q h k n = h n
    go false true p q h k n = h n
    go false false p q h k (inl e) = λ j f. ground arith
    go false false p q h k (inr n) = λ j f. ground (arith, k n j f)

abbrev pub KeysDiffer : Candidate → Candidate → Type 0
KeysDiffer c d = (k : String) → c.1 ≡ some k → d.1 ≡ some k → ⊥

-- No key is selected twice.
pub selected-Pairs :
    (active : String → Bool) (claimed : List String) (cs : List Candidate)
    → Pairs KeysDiffer (selected active claimed cs)
unfolding selected
selected-Pairs active claimed [] = tt
selected-Pairs active claimed ((id, none) ∷ cs) =
    ((λ d m k e f. ground arith), selected-Pairs active claimed cs)
selected-Pairs active claimed ((id, some key) ∷ cs) =
    go (active key) (any (same key) claimed) (selected-Pairs active claimed cs)
      (selected-Pairs active (key ∷ claimed) cs)
  where
    go :
        (live met : Bool)
        → Pairs KeysDiffer (selected active claimed cs)
        → Pairs KeysDiffer (selected active (key ∷ claimed) cs)
        → Pairs KeysDiffer (
            if live
            then selected active claimed cs
            else if met
            then selected active claimed cs
            else (id, some key) ∷ selected active (key ∷ claimed) cs)
    go true met h k = h
    go false true h k = h
    go false false h k = (
      (λ d m j e f.
          let fresh = selected-IsFresh active (key ∷ claimed) d cs m j f in
          ground (arith, same_iff j key)),
      k,
    )
