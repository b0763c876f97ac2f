-- ===== src/Queue/Requeue/Guarantee.antt =====
-- What the requeue of memory/queue/store_settle.rs does to each row.
use tinycortex.Queue.Requeue.Coverage.{selected-covers, candidates-In}
use tinycortex.Queue.Index.{In-image, holds-In, In-holds, IsUnique}
use tinycortex.Queue.Requeue.{IdsUnique, IdsUnique-eq, mark, entry-requeued_row}
use tinycortex.Queue.Requeue.Safety.{
  cancelled_ids, requeued_ids, IsRequeued, any-map-In, requeued_ids-IsRequeued,
  requeue_failed_where_lem,
}
use tinycortex.Queue.Selection.{In-candidates, In-selected, selected, to_requeue-triage}
use tinycortex.Queue.Recovery.{
  Candidate, triage, candidates, requeued_row, cancelled_row, requeue_failed_where,
}
use tinycortex.Base.{
  ◌≡◌, ◌∙◌, ◌∷◌, if◌then◌else◌, [], String, Bool, List, any, same, true, In, none, inr, some, suc,
  false, Bool-cases, inl, refl, sym, same_iff, ap, subst, ℕ, map, arith, ok,
}
use tinycortex.Queue.Table.{Row, Table, holds, index_entry}

cancelled-In :
    (active : String → Bool) (claimed : List String) (i : String) (cs : List Candidate)
    → any (same i) (triage active claimed cs).to_cancel ≡ true
    → (c : Candidate) × In c cs × (c.0 ≡ i)
unfolding triage
cancelled-In active claimed i [] h = cc
cancelled-In active claimed i ((id, none) ∷ cs) h =
    let (c, m, e) = cancelled-In active claimed i cs h in (c, inr m, e)
cancelled-In active claimed i ((id, some key) ∷ cs) h =
    go (active key) (any (same key) claimed) (cancelled-In active claimed i cs)
      (cancelled-In active (key ∷ claimed) i cs) h
  where
    later :
        (c : Candidate) × In c cs × (c.0 ≡ i)
        → (c : Candidate) × In c ((id, some key) ∷ cs) × (c.0 ≡ i)
    later (c, m, e) = (c, inr m, e)

    go :
        (live met : Bool)
        → (any (same i) (triage active claimed cs).to_cancel ≡ true
            → (c : Candidate) × In c cs × (c.0 ≡ i))
        → (any (same i) (triage active (key ∷ claimed) cs).to_cancel ≡ true
            → (c : Candidate) × In c cs × (c.0 ≡ i))
        → any
            (same i)
            (let same_keys = triage active claimed cs in
              let new_key = triage active (key ∷ claimed) cs in
              if live
              then record same_keys { skipped_active = suc same_keys.skipped_active }
              else if met
              then record same_keys { to_cancel = id ∷ same_keys.to_cancel }
              else record new_key { to_requeue = id ∷ new_key.to_requeue }).to_cancel
          ≡ true
        → (c : Candidate) × In c ((id, some key) ∷ cs) × (c.0 ≡ i)
    go true met a b g = later (a g)
    go false false a b g = later (b g)
    go false true a b g = elim (Bool-cases (same i id)) [
      | inl e ↦ ((id, some key), inl refl, sym ((same_iff i id).0 e))
      | inr e ↦ later (a (rw e at g))
    ]

-- A matched row of the table carries a given id.
abbrev IsMatched : (Row → Bool) → Table → String → Type 0
IsMatched p t i = (r : Row) × In r t × (r.id ≡ i) × (p r ≡ true)

candidate-IsMatched :
    (p : Row → Bool) (t : Table) (i : String) (c : Candidate)
    → In c (candidates p t)
    → c.0 ≡ i
    → IsMatched p t i
candidate-IsMatched p t i c m e =
    let (r, n, q, h) = In-candidates p c t m in (r, n, sym (ap (λ (x : Candidate). x.0) q) ∙ e, h)

cancelled-IsMatched :
    (p : Row → Bool) (t : Table) (i : String)
    → any (same i) (cancelled_ids p t) ≡ true
    → IsMatched p t i
cancelled-IsMatched p t i h =
    let (c, m, e) = cancelled-In (λ k. holds k t) [] i (candidates p t) h in
    candidate-IsMatched p t i c m e

requeued-IsMatched :
    (p : Row → Bool) (t : Table) (i : String)
    → any (same i) (requeued_ids p t) ≡ true
    → IsMatched p t i
unfolding IsRequeued
requeued-IsMatched p t i h =
    let (c, m, e) = any-map-In i _ (requeued_ids-IsRequeued p t i h) in
    candidate-IsMatched p t i c (In-selected (λ k. holds k t) [] c (candidates p t) m) e

unmatched :
    (p : Row → Bool) (t : Table) (r : Row)
    → IdsUnique t
    → In r t
    → p r ≡ false
    → ¬ IsMatched p t r.id
unmatched p t r u m h (s, n, e, g) = let q = IdsUnique-eq s r t u n m e in cc (ap p q)

not_true : (b : Bool) → ¬ (b ≡ true) → b ≡ false
not_true true h = absurd (h refl)
not_true false h = refl

mark-other :
    (f : Row → Row) (ids : List String) (r : Row) (t : Table)
    → In r t
    → any (same r.id) ids ≡ false
    → In r (mark f ids t)
unfolding mark
mark-other f ids r t m h =
    subst (λ s. In s (mark f ids t)) (rw h refl) (In-image (λ s. any (same s.id) ids) f r t m)

mark-same :
    (f : Row → Row) (ids : List String) (r : Row) (t : Table)
    → In r t
    → any (same r.id) ids ≡ true
    → In (f r) (mark f ids t)
unfolding mark
mark-same f ids r t m h =
    subst (λ s. In s (mark f ids t)) (rw h refl) (In-image (λ s. any (same s.id) ids) f r t m)

abbrev after_requeue : (Row → Bool) → ℕ → Table → Table
after_requeue p now t =
    mark (requeued_row now) (requeued_ids p t) (mark (cancelled_row now) (cancelled_ids p t) t)

requeued-In :
    (p : Row → Bool) (now : ℕ) (r : Row) (t : Table)
    → In r t
    → any (same r.id) (requeued_ids p t) ≡ true
    → In (requeued_row now r) (after_requeue p now t)
unfolding requeued_row cancelled_row
requeued-In p now r t m h = elim (Bool-cases (any (same r.id) (cancelled_ids p t))) [
  | inl y ↦
      mark-same (requeued_row now) (requeued_ids p t) (cancelled_row now r) _
        (mark-same (cancelled_row now) (cancelled_ids p t) r t m y) h
  | inr n ↦
      mark-same (requeued_row now) (requeued_ids p t) r _
        (mark-other (cancelled_row now) (cancelled_ids p t) r t m n) h
]

any-same-In :
    (c : Candidate) (cs : List Candidate) → In c cs → any (same c.0) (map (λ d. d.0) cs) ≡ true
any-same-In c [] m = elim m [ ]
any-same-In c (d ∷ cs) (inl e) =
    let q : same c.0 d.0 ≡ true = (same_iff c.0 d.0).1 (ap (λ (x : Candidate). x.0) e) in rw q refl
any-same-In c (d ∷ cs) (inr m) = ground (arith, any-same-In c cs m)

selected-requeued :
    (p : Row → Bool) (t : Table) (c : Candidate)
    → In c (selected (λ k. holds k t) [] (candidates p t))
    → any (same c.0) (requeued_ids p t) ≡ true
selected-requeued p t c m =
    subst (λ ids. any (same c.0) ids ≡ true)
      (sym (to_requeue-triage (λ k. holds k t) [] (candidates p t))) (any-same-In c _ m)

kept :
    (p : Row → Bool) (now : ℕ) (r : Row) (t : Table)
    → IdsUnique t
    → In r t
    → p r ≡ false
    → In r (after_requeue p now t)
kept p now r t u m h =
    let none_matched = unmatched p t r u m h in
    mark-other (requeued_row now) (requeued_ids p t) r _
      (mark-other (cancelled_row now) (cancelled_ids p t) r t m
        (not_true _ (λ y. none_matched (cancelled-IsMatched p t r.id y))))
      (not_true _ (λ y. none_matched (requeued-IsMatched p t r.id y)))

covered :
    (p : Row → Bool) (now : ℕ) (r : Row) (t : Table) (k : String)
    → IdsUnique t
    → ((s : Row) → p s ≡ true → index_entry s ≡ none)
    → In r t
    → p r ≡ true
    → r.dedupe_key ≡ some k
    → holds k (after_requeue p now t) ≡ true
covered p now r t k u inactive m h e =
    elim ((selected-covers (λ j. holds j t) [] r.id r.dedupe_key (candidates p t)
        (candidates-In p r t m h)).1
      k e) [
        | inl live ↦
            let (s, n, q) = holds-In k t live in
            In-holds k s _ (kept p now s t u n (not_true _ (λ y. cc (inactive s y)))) q
        | inr (inl met) ↦ cc
        | inr (inr (d, n, q)) ↦
            let (s, o, f, g) =
              In-candidates p d t (In-selected (λ j. holds j t) [] d (candidates p t) n) in
            let chosen =
              subst (λ i. any (same i) (requeued_ids p t) ≡ true) (ap (λ (x : Candidate). x.0) f)
                (selected-requeued p t d n) in
            In-holds k (requeued_row now s) _ (requeued-In p now s t o chosen)
              (entry-requeued_row now s ∙ sym (ap (λ (x : Candidate). x.1) f) ∙ q)
      ]

-- What requeueing by a predicate on rows that are not active promises, on a table with unique ids
-- and unique active keys: the transaction commits; every row that does not match is kept as it is;
-- every matched row without a dedupe key is reset to ready; and the key of every matched row that has
-- one is held by an active row afterwards, so that no matched unit of work stays parked.
pub requeue_failed_where_covers :
    (p : Row → Bool) (now : ℕ) (t : Table)
    → IsUnique t
    → IdsUnique t
    → ((s : Row) → p s ≡ true → index_entry s ≡ none)
    → (n : ℕ) × (t' : Table) × (requeue_failed_where p now t ≡ ok (n, t'))
      × ((r : Row) → In r t → p r ≡ false → In r t')
      × ((r : Row) → In r t → p r ≡ true → r.dedupe_key ≡ none → In (requeued_row now r) t')
      × ((r : Row) (k : String) → In r t → p r ≡ true → r.dedupe_key ≡ some k → holds k t' ≡ true)
requeue_failed_where_covers p now t u v inactive =
    let (n, e, w) = requeue_failed_where_lem p now t u v in
    (
      n,
      after_requeue p now t,
      e,
      (λ r m h. kept p now r t v m h),
      (λ r m h q. requeued-In p now r t m (
          selected-requeued p t (r.id, r.dedupe_key)
            ((selected-covers (λ j. holds j t) [] r.id r.dedupe_key (candidates p t)
                (candidates-In p r t m h)).0
              q))),
      λ r k m h q. covered p now r t k v inactive m h q,
    )
