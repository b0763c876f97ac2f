-- ===== src/Queue/Requeue.antt =====
-- `requeue_failed_where` of memory/queue/store_settle.rs and the unique index.
pub mod Safety
pub mod Coverage
pub mod Guarantee
use mathlib.Core.Path.{ap₂}
use tinycortex.Queue.Index.{
  IsSub, IsUnique, exec_update_keeps, Sub, exec_update-ok_of_unique, Sub-IsUnique,
}
use tinycortex.Queue.Recovery.{requeued_row, cancelled_row, update_each}
use tinycortex.Base.{
  ◌≡◌, ◌≢◌, ◌∷◌, [], Pairs, In, Pairs-In, inl, inr, sym, List, String, any, same, refl, ap,
  Bool-cases, ◌+◌, ◌||◌, if◌then◌else◌, Bool, true, false, ℕ, none, arith, ok, subst,
}
use tinycortex.Queue.Table.{Row, Table, update_where, has_id, index_entry, count_where}

-- The primary key.
abbrev pub IdsUnique : Table → Type 0
IdsUnique t = Pairs (λ r s. r.id ≢ s.id) t

pub IdsUnique-eq : (r s : Row) (t : Table) → IdsUnique t → In r t → In s t → r.id ≡ s.id → r ≡ s
IdsUnique-eq r s t u m n e = elim (Pairs-In (λ a b. a.id ≢ b.id) r s t u m n) [
  | inl p ↦ p
  | inr (inl d) ↦ absurd (d e)
  | inr (inr d) ↦ absurd (d (sym e))
]

-- The rows with the given ids, changed.
unfoldable pub mark : (Row → Row) → List String → Table → Table
unfolding update_where
mark f ids = update_where (λ r. any (same r.id) ids) f

mark-nil : (f : Row → Row) (t : Table) → mark f [] t ≡ t
unfolding mark
mark-nil f [] = refl
mark-nil f (r ∷ t) = ap (◌∷◌ r) (mark-nil f t)

-- What the changes of this file have in common: applying one twice is applying it once.
abbrev IsMark : (Row → Row) → Type 0
IsMark f = (r : Row) → f (f r) ≡ f r

pick-mark :
    (f : Row → Row) (b : Bool) (r : Row) → f (f r) ≡ f r → (if b then f (f r) else f r) ≡ f r
pick-mark f true r e = e
pick-mark f false r e = refl

mark-row :
    (f : Row → Row)
    → IsMark f
    → (ids : List String) (r : Row) (b : Bool)
    → let s = if b then f r else r in
      (if any (same s.id) ids then f s else s) ≡ (if b || any (same r.id) ids then f r else r)
mark-row f w ids r true = pick-mark f (any (same (f r).id) ids) r (w r)
mark-row f w ids r false = refl

-- The ids one after the other, or all at once.
mark-update_where :
    (f : Row → Row)
    → IsMark f
    → (i : String) (ids : List String) (t : Table)
    → mark f ids (update_where (has_id i) f t) ≡ mark f (i ∷ ids) t
unfolding mark has_id
mark-update_where f w i ids [] = refl
mark-update_where f w i ids (r ∷ t) =
    ap₂ ◌∷◌ (mark-row f w ids r (same r.id i)) (mark-update_where f w i ids t)

-- Every change of this file keeps the key; this one also makes the row active.
pub entry-requeued_row : (now : ℕ) (r : Row) → index_entry (requeued_row now r) ≡ r.dedupe_key
unfolding index_entry requeued_row
entry-requeued_row now r = refl

pub entry-cancelled_row : (now : ℕ) (r : Row) → index_entry (cancelled_row now r) ≡ none
unfolding index_entry cancelled_row
entry-cancelled_row now r = refl

pub entry-IsSub_key : (r : Row) → IsSub (index_entry r) r.dedupe_key
unfolding index_entry
entry-IsSub_key r = ground arith

pub cancel_each :
    (now : ℕ) (ids : List String) (t : Table)
    → IsUnique t
    → (n : ℕ) × (update_each (cancelled_row now) ids t ≡ ok (n, mark (cancelled_row now) ids t))
      × IsUnique (mark (cancelled_row now) ids t)
unfolding update_each cancelled_row
cancel_each now [] t u = (0, rw mark-nil refl, rw mark-nil u)
cancel_each now (i ∷ ids) t u =
    let f = cancelled_row now in
    let (e, v) = exec_update_keeps (has_id i) f t u (λ r m h. inl (entry-cancelled_row now r)) in
    let (n, g, w) = cancel_each now ids (update_where (has_id i) f t) v in
    let same_table = mark-update_where f (λ r. refl) i ids t in
    (count_where (has_id i) t + n, rw (e, g, same_table) refl, subst IsUnique same_table w)

-- A table in which only some of the ids are requeued so far holds no key that the last one lacks.
Sub-mark_step :
    (now : ℕ) (i : String) (ids : List String) (t : Table)
    → Sub (update_where (has_id i) (requeued_row now) t) (mark (requeued_row now) (i ∷ ids) t)
unfolding mark update_where has_id
Sub-mark_step now i ids [] = tt
Sub-mark_step now i ids (r ∷ t) =
    (row (same r.id i) (any (same r.id) ids), Sub-mark_step now i ids t)
  where
    f : Row → Row
    f = requeued_row now

    row :
        (b c : Bool)
        → IsSub (index_entry (if b then f r else r)) (index_entry (if b || c then f r else r))
    row true c = inr refl
    row false true = ground (arith, entry-requeued_row now r, entry-IsSub_key r)
    row false false = inr refl

pub requeue_each :
    (now : ℕ) (ids : List String) (t : Table)
    → IsUnique (mark (requeued_row now) ids t)
    → (n : ℕ) × (update_each (requeued_row now) ids t ≡ ok (n, mark (requeued_row now) ids t))
unfolding update_each requeued_row
requeue_each now [] t u = (0, rw mark-nil refl)
requeue_each now (i ∷ ids) t u =
    let f = requeued_row now in
    let step = update_where (has_id i) f t in
    let e =
      exec_update-ok_of_unique (has_id i) f t (Sub-IsUnique step _ (Sub-mark_step now i ids t) u) in
    let same_table = mark-update_where f (λ r. refl) i ids t in
    let (n, g) = requeue_each now ids step (subst IsUnique (sym same_table) u) in
    (count_where (has_id i) t + n, rw (e, g, same_table) refl)
