-- ===== src/Queue/Claim.antt =====
-- `claim_next` of memory/queue/store.rs: which job it leases, and what it changes.
use tinycortex.Queue.Requeue.{IdsUnique, IdsUnique-eq}
use tinycortex.Queue.Index.{IsSub, IsUnique, has_id-eq, exec_update_keeps}
use tinycortex.Queue.Store.{
  comes_before, is_due, next_due, first_of_two, claim_row, claim_selected, row_to_job, claim_next,
}
use tinycortex.Base.{
  ◌≡◌, ◌⊎◌, ◌∷◌, if◌then◌else◌, [], true, false, arith, ℕ, In, none, some, inl, refl, Bool, Option,
  inr, ap, Bool-cases, ok, saturating_add, sym, subst, ◌>>=◌,
}
use tinycortex.Queue.Table.{
  Row, Table, is_active, index_entry, exec_update, has_id, count_where, update_where,
}

comes_before_asym : (a b : Row) → comes_before a b ≡ true → comes_before b a ≡ false
unfolding comes_before
comes_before_asym a b h = ground arith

comes_before_irrefl : (a : Row) → comes_before a a ≡ false
unfolding comes_before
comes_before_irrefl a = ground arith

comes_before_trans :
    (a b c : Row) → comes_before a b ≡ false → comes_before b c ≡ false → comes_before a c ≡ false
unfolding comes_before
comes_before_trans a b c h k = ground arith

-- The best due row of a table: it is due, and no other due row comes before it.
abbrev pub IsBest : ℕ → Table → Row → Type 0
IsBest now t r =
    In r t
    × (is_due now r ≡ true)
    × ((s : Row) → In s t → is_due now s ≡ true → comes_before s r ≡ false)

abbrev pub NoneDue : ℕ → Table → Type 0
NoneDue now t = (s : Row) → In s t → is_due now s ≡ false

pub next_due_cases :
    (now : ℕ) (t : Table)
    → ((next_due now t ≡ none) × NoneDue now t)
      ⊎ ((r : Row) × (next_due now t ≡ some r) × IsBest now t r)
unfolding next_due
next_due_cases now [] = inl (refl, λ s m. elim m [ ])
next_due_cases now (r ∷ t) = go (is_due now r) refl (next_due now t) (next_due_cases now t)
  where
    go :
        (b : Bool)
        → is_due now r ≡ b
        → (o : Option Row)
        → ((o ≡ none) × NoneDue now t) ⊎ ((s : Row) × (o ≡ some s) × IsBest now t s)
        → let picked = if b then some (first_of_two r o) else o in
          ((picked ≡ none) × NoneDue now (r ∷ t))
          ⊎ ((s : Row) × (picked ≡ some s) × IsBest now (r ∷ t) s)
    go false e o (inl (n, h)) = inl (n, λ s m. elim m [ inl q ↦ rw q e | inr k ↦ h s k ])
    go false e o (inr (s, n, (m, d, h))) = inr (
      s,
      n,
      (
        inr m,
        d,
        λ x k f. elim k [ inl q ↦ let g = ap (is_due now) q in ground arith | inr l ↦ h x l f ],
      ),
    )
    go true e o (inl (n, h)) = inr (
      r,
      rw n refl,
      (
        inl refl,
        e,
        λ x k f. elim k [
          | inl q ↦ rw q (comes_before_irrefl r)
          | inr l ↦ let g = h x l in ground arith
        ],
      ),
    )
    go true e o (inr (s, n, (m, d, h))) = elim (Bool-cases (comes_before s r)) [
      | inl first ↦ inr (
        s,
        rw (n, first) refl,
        (
          inr m,
          d,
          λ x k f. elim k [ inl q ↦ rw q (comes_before_asym s r first) | inr l ↦ h x l f ],
        ),
      )
      | inr later ↦ inr (
        r,
        rw (n, later) refl,
        (
          inl refl,
          e,
          λ x k f. elim k [
            | inl q ↦ rw q (comes_before_irrefl r)
            | inr l ↦ comes_before_trans x s r (h x l f) later
          ],
        ),
      )
    ]

claim_row-IsSub :
    (now until : ℕ) (r : Row)
    → is_active r.status ≡ true
    → IsSub (index_entry (claim_row now until r)) (index_entry r)
unfolding claim_row index_entry
claim_row-IsSub now until r h = ground arith

is_due-is_active : (now : ℕ) (r : Row) → is_due now r ≡ true → is_active r.status ≡ true
unfolding is_due is_active
is_due-is_active now r h = ground arith

claim_selected-some :
    (now until : ℕ) (r : Row) (t : Table)
    → exec_update (has_id r.id) (claim_row now until) t
      ≡ ok (count_where (has_id r.id) t, update_where (has_id r.id) (claim_row now until) t)
    → claim_selected now until (some r) t
      ≡ ok (
        (row_to_job (claim_row now until r) >>= λ j. ok (some j)),
        update_where (has_id r.id) (claim_row now until) t,
      )
unfolding claim_selected
claim_selected-some now until r t e = rw e refl

-- On a table with unique ids and unique active keys a claim is not refused. Either no row is due,
-- and the table stays as it is, or the row claimed is due and no due row is to be served before
-- it, exactly that row is leased (running, one more attempt, started now, locked until the end of
-- the lease, its error cleared), and the active keys stay unique.
pub claim_next_lem :
    (now lock : ℕ) (t : Table)
    → IsUnique t
    → IdsUnique t
    → let until = saturating_add now lock in
      (NoneDue now t × (claim_next now lock t ≡ ok (ok none, t)))
      ⊎ ((r : Row) × IsBest now t r
          × (claim_next now lock t
              ≡ ok (
                (row_to_job (claim_row now until r) >>= λ j. ok (some j)),
                update_where (has_id r.id) (claim_row now until) t,
              ))
          × IsUnique (update_where (has_id r.id) (claim_row now until) t))
unfolding claim_next
claim_next_lem now lock t u v = elim (next_due_cases now t) [
  | inl (e, h) ↦ inl (h, rw e refl)
  | inr (r, e, best) ↦
      let until = saturating_add now lock in
      let active = λ (s : Row) (m : In s t) (h : has_id r.id s ≡ true).
        let q = IdsUnique-eq r s t v best.0 m (sym (has_id-eq r.id s h)) in
        claim_row-IsSub now until s
          (is_due-is_active now s (subst (λ x. is_due now x ≡ true) q best.1)) in
      let (g, w) = exec_update_keeps (has_id r.id) (claim_row now until) t u active in
      inr (r, best, rw e (claim_selected-some now until r t g), w)
]
