-- ===== src/Queue/Requeue/Safety.antt =====
-- The requeue of memory/queue/store_settle.rs as a whole transaction.
use tinycortex.Queue.Index.{
  NoClash, In-holds, IsUnique, Pairs-IsUnique, IsUnique-Pairs, Sub, IsSub, Sub-IsUnique,
  In-update_where,
}
use tinycortex.Queue.Requeue.{
  IdsUnique, IdsUnique-eq, entry-requeued_row, mark, entry-cancelled_row, cancel_each, requeue_each,
}
use tinycortex.Queue.Recovery.{
  candidates, Candidate, triage, requeued_row, cancelled_row, requeue_failed_where,
}
use tinycortex.Queue.Selection.{
  selected, In-candidates, In-selected, selected-IsFresh, KeysDiffer, selected-Pairs,
  to_requeue-triage,
}
use tinycortex.Base.{
  ◌≡◌, ◌∙◌, ◌≢◌, ◌∷◌, if◌then◌else◌, [], Bool, String, any, same, map, true, List, In, Bool-cases,
  inl, refl, sym, same_iff, inr, ap, subst, some, false, Pairs-In, ℕ, Pairs, Pairs-map, none, arith,
  ok,
}
use tinycortex.Queue.Table.{Row, Table, holds, update_where, index_entry}

unfoldable pub IsRequeued : (Row → Bool) → Table → String → Type 0
IsRequeued p t i =
    any (same i) (map (λ c. c.0) (selected (λ k. holds k t) [] (candidates p t))) ≡ true

pub any-map-In :
    (i : String) (cs : List Candidate)
    → any (same i) (map (λ c. c.0) cs) ≡ true
    → (c : Candidate) × In c cs × (c.0 ≡ i)
any-map-In i [] h = cc
any-map-In i (c ∷ cs) h = elim (Bool-cases (same i c.0)) [
  | inl e ↦ (c, inl refl, sym ((same_iff i c.0).0 e))
  | inr e ↦ let (d, m, f) = any-map-In i cs (rw e at h) in (d, inr m, f)
]

-- A requeued row of the table is selected with its own key.
requeued-selected :
    (p : Row → Bool) (t : Table) (r : Row)
    → IdsUnique t
    → In r t
    → IsRequeued p t r.id
    → In (r.id, r.dedupe_key) (selected (λ k. holds k t) [] (candidates p t))
unfolding IsRequeued
requeued-selected p t r u m h =
    let cs = candidates p t in
    let active = λ (k : String). holds k t in
    let (c, n, e) = any-map-In r.id (selected active [] cs) h in
    let (s, o, f, g) = In-candidates p c t (In-selected active [] c cs n) in
    let s≡r = IdsUnique-eq s r t u o m (sym (ap (λ (x : Candidate). x.0) f) ∙ e) in
    subst (λ d. In d (selected active [] cs)) (f ∙ ap (λ (x : Row). (x.id, x.dedupe_key)) s≡r) n

requeued-free :
    (p : Row → Bool) (t : Table) (r : Row) (k : String)
    → IdsUnique t
    → In r t
    → IsRequeued p t r.id
    → r.dedupe_key ≡ some k
    → holds k t ≡ false
requeued-free p t r k u m h e =
    (selected-IsFresh (λ j. holds j t) [] _ (candidates p t) (requeued-selected p t r u m h) k e).0

requeued-NoClash :
    (p : Row → Bool) (t : Table) (r s : Row) (k : String)
    → IdsUnique t
    → In r t
    → In s t
    → r.id ≢ s.id
    → IsRequeued p t r.id
    → IsRequeued p t s.id
    → r.dedupe_key ≡ some k
    → s.dedupe_key ≡ some k
    → ⊥
requeued-NoClash p t r s k u m n d h g e f =
    elim (Pairs-In KeysDiffer (r.id, r.dedupe_key) (s.id, s.dedupe_key) _
      (selected-Pairs (λ j. holds j t) [] (candidates p t)) (requeued-selected p t r u m h)
      (requeued-selected p t s u n g)) [
        | inl q ↦ d (ap (λ (c : Candidate). c.0) q)
        | inr (inl q) ↦ q k e f
        | inr (inr q) ↦ q k f e
      ]

abbrev pub requeued_ids : (Row → Bool) → Table → List String
requeued_ids p t = (triage (λ k. holds k t) [] (candidates p t)).to_requeue

abbrev pub cancelled_ids : (Row → Bool) → Table → List String
cancelled_ids p t = (triage (λ k. holds k t) [] (candidates p t)).to_cancel

pub requeued_ids-IsRequeued :
    (p : Row → Bool) (t : Table) (i : String)
    → any (same i) (requeued_ids p t) ≡ true
    → IsRequeued p t i
unfolding IsRequeued
requeued_ids-IsRequeued p t i h =
    subst (λ ids. any (same i) ids ≡ true) (to_requeue-triage (λ k. holds k t) [] (candidates p t))
      h

image-NoClash :
    (p : Row → Bool) (now : ℕ) (t : Table) (r s : Row)
    → IdsUnique t
    → In r t
    → In s t
    → r.id ≢ s.id
    → NoClash r s
    → (b c : Bool) → any (same r.id) (requeued_ids p t) ≡ b
    → any (same s.id) (requeued_ids p t) ≡ c
    → NoClash (if b then requeued_row now r else r) (if c then requeued_row now s else s)
image-NoClash p now t r s u m n d old true true x y k e f =
    requeued-NoClash p t r s k u m n d (requeued_ids-IsRequeued p t _ x)
      (requeued_ids-IsRequeued p t _ y) (sym (entry-requeued_row now r) ∙ e)
      (sym (entry-requeued_row now s) ∙ f)
image-NoClash p now t r s u m n d old true false x y k e f =
    let free =
      requeued-free p t r k u m (requeued_ids-IsRequeued p t _ x)
        (sym (entry-requeued_row now r) ∙ e) in
    let held = In-holds k s t n f in cc
image-NoClash p now t r s u m n d old false true x y k e f =
    let free =
      requeued-free p t s k u n (requeued_ids-IsRequeued p t _ y)
        (sym (entry-requeued_row now s) ∙ f) in
    let held = In-holds k r t m e in cc
image-NoClash p now t r s u m n d old false false x y k e f = old k e f

Pairs-update_where :
    (p : Row → Bool) (f : Row → Row) (t : Table)
    → Pairs (λ r s. NoClash (if p r then f r else r) (if p s then f s else s)) t
    → Pairs NoClash (update_where p f t)
unfolding update_where
Pairs-update_where p f [] h = tt
Pairs-update_where p f (r ∷ t) h = (
  (λ y m.
      let (s, n, e) = In-update_where p f y t m in
      subst (NoClash (if p r then f r else r)) (sym e) (h.0 s n)),
  Pairs-update_where p f t h.1,
)

requeued-IsUnique :
    (p : Row → Bool) (now : ℕ) (t : Table)
    → IsUnique t
    → IdsUnique t
    → IsUnique (mark (requeued_row now) (requeued_ids p t) t)
unfolding mark
requeued-IsUnique p now t u v = Pairs-IsUnique _ (
    Pairs-update_where _ (requeued_row now) t (
      Pairs-map _ _ _ t (λ r s m n d old. image-NoClash p now t r s v m n d old _ _ refl refl) v
        (IsUnique-Pairs t u)))

-- Cancelling first takes no key away from the requeued rows and gives none to another.
Sub-mark_cancelled :
    (now : ℕ) (rs cs : List String) (t : Table)
    → Sub
        (mark (requeued_row now) rs (mark (cancelled_row now) cs t))
        (mark (requeued_row now) rs t)
unfolding mark update_where
Sub-mark_cancelled now rs cs [] = tt
Sub-mark_cancelled now rs cs (r ∷ t) = (row (any (same r.id) cs), Sub-mark_cancelled now rs cs t)
  where
    f : Row → Row
    f = requeued_row now

    -- `cancelled_row` keeps the id, so the test of the second update is that of the first.
    kept :
        (b : Bool) (s : Row)
        → (index_entry s ≡ none)
        → s.dedupe_key ≡ r.dedupe_key
        → IsSub (index_entry (if b then f s else s)) (index_entry (if b then f r else r))
    kept true s e g = ground (arith, entry-requeued_row now r, entry-requeued_row now s)
    kept false s e g = inl e

    row :
        (c : Bool)
        → let s = if c then cancelled_row now r else r in
          IsSub
            (index_entry (if any (same s.id) rs then f s else s))
            (index_entry (if any (same r.id) rs then f r else r))
    row true =
        unfold cancelled_row in
        kept (any (same r.id) rs) (cancelled_row now r) (entry-cancelled_row now r) refl
    row false = inr refl

-- Requeueing failed jobs is never refused by the unique index, whatever failed rows share a key
-- with one another or with live rows: on a table whose ids are unique and whose active keys are
-- unique, the transaction commits, its effect is that the rows triaged as superseded are cancelled
-- and the rows triaged for requeue are reset to ready, all others being kept, and the active keys
-- are unique again.
pub requeue_failed_where_lem :
    (p : Row → Bool) (now : ℕ) (t : Table)
    → IsUnique t
    → IdsUnique t
    → let split = triage (λ k. holds k t) [] (candidates p t) in
      let t' =
        mark (requeued_row now) split.to_requeue (mark (cancelled_row now) split.to_cancel t) in
      (n : ℕ) × (requeue_failed_where p now t ≡ ok (n, t')) × IsUnique t'
unfolding requeue_failed_where
requeue_failed_where_lem p now t u v =
    let (m, e, w) = cancel_each now (cancelled_ids p t) t u in
    let unique =
      Sub-IsUnique _ _ (Sub-mark_cancelled now (requeued_ids p t) (cancelled_ids p t) t)
        (requeued-IsUnique p now t u v) in
    let (n, f) =
      requeue_each now (requeued_ids p t) (mark (cancelled_row now) (cancelled_ids p t) t) unique in
    (n, rw e f, unique)
