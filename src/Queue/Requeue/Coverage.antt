-- ===== src/Queue/Requeue/Coverage.antt =====
-- Which candidates the requeue of memory/queue/store_settle.rs covers.
use tinycortex.Queue.Selection.{selected}
use tinycortex.Queue.Recovery.{insert_newest, is_newer, newest_first, candidates, Candidate}
use tinycortex.Base.{
  ◌≡◌, ◌∙◌, ◌⊎◌, ◌∷◌, if◌then◌else◌, [], List, In, inl, refl, Bool, true, inr, false, subst, keep,
  sym, ap, map, String, Option, none, some, any, same, Bool-cases, same_iff,
}
use tinycortex.Queue.Table.{Row, Table}

In-insert_self : (x : Row) (t : List Row) → In x (insert_newest x t)
unfolding insert_newest
In-insert_self x [] = inl refl
In-insert_self x (s ∷ t) = go (is_newer s x) (In-insert_self x t)
  where
    go :
        (b : Bool)
        → In x (insert_newest x t)
        → In x (if b then s ∷ insert_newest x t else x ∷ s ∷ t)
    go true m = inr m
    go false m = inl refl

In-insert_old : (x r : Row) (t : List Row) → In x t → In x (insert_newest r t)
unfolding insert_newest
In-insert_old x r [] m = elim m [ ]
In-insert_old x r (s ∷ t) m = go (is_newer s r) (In-insert_old x r t) m
  where
    go :
        (b : Bool)
        → (In x t → In x (insert_newest r t))
        → In x (s ∷ t)
        → In x (if b then s ∷ insert_newest r t else r ∷ s ∷ t)
    go true h (inl e) = inl e
    go true h (inr n) = inr (h n)
    go false h n = inr n

newest_first-In : (x : Row) (t : List Row) → In x t → In x (newest_first t)
unfolding newest_first
newest_first-In x [] m = m
newest_first-In x (r ∷ t) (inl e) =
    subst (λ y. In x (insert_newest y (newest_first t))) e (In-insert_self x (newest_first t))
newest_first-In x (r ∷ t) (inr m) = In-insert_old x r (newest_first t) (newest_first-In x t m)

keep-In : (p : Row → Bool) (x : Row) (t : List Row) → In x t → p x ≡ true → In x (keep p t)
keep-In p x [] m h = m
keep-In p x (r ∷ t) (inl e) h = let g : p r ≡ true = sym (ap p e) ∙ h in rw g (inl e)
keep-In p x (r ∷ t) (inr m) h = go (p r) (keep-In p x t m h)
  where
    go : (b : Bool) → In x (keep p t) → In x (if b then r ∷ keep p t else keep p t)
    go true n = inr n
    go false n = n

map_pair-In :
    (r : Row) (t : List Row)
    → In r t
    → In {A = Candidate} (r.id, r.dedupe_key) (map (λ s. (s.id, s.dedupe_key)) t)
map_pair-In r [] m = m
map_pair-In r (s ∷ t) (inl e) = inl (ap (λ (x : Row). (x.id, x.dedupe_key)) e)
map_pair-In r (s ∷ t) (inr m) = inr (map_pair-In r t m)

-- Every matched row is a candidate.
pub candidates-In :
    (p : Row → Bool) (r : Row) (t : Table)
    → In r t
    → p r ≡ true
    → In (r.id, r.dedupe_key) (candidates p t)
unfolding candidates
candidates-In p r t m h = map_pair-In r _ (newest_first-In r (keep p t) (keep-In p r t m h))

-- A candidate without a key is selected; the key of any other is live, met before or selected.
pub selected-covers :
    (active : String → Bool) (claimed : List String) (i : String) (o : Option String)
    (cs : List Candidate)
    → In (i, o) cs
    → (o ≡ none → In (i, o) (selected active claimed cs))
      × ((k : String)
          → o ≡ some k
          → (active k ≡ true)
            ⊎ ((any (same k) claimed ≡ true)
                ⊎ ((d : Candidate) × In d (selected active claimed cs) × (d.1 ≡ some k))))
unfolding selected
selected-covers active claimed i o [] m = elim m [ ]
selected-covers active claimed i o ((id, none) ∷ cs) (inl e) =
    ((λ h. inl e), λ k h. cc (ap (λ (c : Candidate). c.1) e))
selected-covers active claimed i o ((id, none) ∷ cs) (inr m) =
    let (a, b) = selected-covers active claimed i o cs m in
    (
      (λ h. inr (a h)),
      λ k h. elim (b k h) [
        | inl x ↦ inl x
        | inr (inl x) ↦ inr (inl x)
        | inr (inr (d, n, e)) ↦ inr (inr (d, inr n, e))
      ],
    )
selected-covers active claimed i o ((id, some key) ∷ cs) (inl e) = (
  (λ h. cc (ap (λ (c : Candidate). c.1) e)),
  λ k h.
      here k (some_inj (sym (ap (λ (c : Candidate). c.1) e) ∙ h)) (active key)
        (any (same key) claimed) refl refl,
)
  where
    some_inj : {k : String} → some key ≡ some k → key ≡ k
    some_inj q = cc

    here :
        (k : String)
        → key ≡ k
        → (live met : Bool) → active key ≡ live
        → any (same key) claimed ≡ met
        → (active k ≡ true)
          ⊎ ((any (same k) claimed ≡ true)
              ⊎ ((d : Candidate) × In d (
                    if live
                    then selected active claimed cs
                    else if met
                    then selected active claimed cs
                    else (id, some key) ∷ selected active (key ∷ claimed) cs)
                  × (d.1 ≡ some k)))
    here k q true met x y = inl (rw (← q) x)
    here k q false true x y = inr (inl (rw (← q) y))
    here k q false false x y = inr (inr ((id, some key), inl refl, ap some q))
selected-covers active claimed i o ((id, some key) ∷ cs) (inr m) =
    go (active key) (any (same key) claimed) refl refl (selected-covers active claimed i o cs m)
      (selected-covers active (key ∷ claimed) i o cs m)
  where
    go :
        (live met : Bool)
        → active key ≡ live
        → any (same key) claimed ≡ met
        → (o ≡ none → In (i, o) (selected active claimed cs))
          × ((k : String)
              → o ≡ some k
              → (active k ≡ true)
                ⊎ ((any (same k) claimed ≡ true)
                    ⊎ ((d : Candidate) × In d (selected active claimed cs) × (d.1 ≡ some k))))
        → (o ≡ none → In (i, o) (selected active (key ∷ claimed) cs))
          × ((k : String)
              → o ≡ some k
              → (active k ≡ true)
                ⊎ ((any (same k) (key ∷ claimed) ≡ true)
                    ⊎ ((d : Candidate) × In d (selected active (key ∷ claimed) cs)
                        × (d.1 ≡ some k))))
        → let picked =
            if live
            then selected active claimed cs
            else if met
            then selected active claimed cs
            else (id, some key) ∷ selected active (key ∷ claimed) cs in
          (o ≡ none → In (i, o) picked)
          × ((k : String)
              → o ≡ some k
              → (active k ≡ true)
                ⊎ ((any (same k) claimed ≡ true)
                    ⊎ ((d : Candidate) × In d picked × (d.1 ≡ some k))))
    go true met x y h g = h
    go false true x y h g = h
    go false false x y h (a, b) = (
      (λ e. inr (a e)),
      λ k e. elim (b k e) [
        | inl z ↦ inl z
        | inr (inl z) ↦ elim (Bool-cases (same k key)) [
          | inl q ↦ inr (inr ((id, some key), inl refl, ap some (sym ((same_iff k key).0 q))))
          | inr q ↦ inr (inl (rw q at z))
        ]
        | inr (inr (d, n, e)) ↦ inr (inr (d, inr n, e))
      ],
    )
