-- ===== src/Goals/First.antt =====
-- Which goal a deletion of memory/goals/store.rs takes.
use tinycortex.Base.{
  ◌≡◌, ◌∙◌, ◌≢◌, ◌⊎◌, ◌∷◌, ◌++◌, if◌then◌else◌, [], Option, Text, List, All, none, some, inl, refl,
  same_text, false, arith, sym, same_text_refl, ap, Bool, true, inr, same_text_eq, err, ok,
}
use mathlib.Core.Option
use tinycortex.Goals.Doc.{GoalItem, GoalsDoc, remove_first, delete_goal, not_found}

-- No item has the id.
abbrev pub Without : Text → List GoalItem → Type 0
Without id is = All (λ i. i.id ≢ id) is

remove_first_lem :
    (id : Text) (is : List GoalItem)
    → ((remove_first id is ≡ none) × Without id is)
      ⊎ ((before : List GoalItem) × (i : GoalItem) × (after : List GoalItem) × (remove_first id is
            ≡ some (before ++ after))
          × (is ≡ before ++ (i ∷ after))
          × (i.id ≡ id)
          × Without id before)
unfolding remove_first
remove_first_lem id [] = inl (refl, tt)
remove_first_lem id (i ∷ is) = go (same_text i.id id) refl (remove_first_lem id is)
  where
    Goal : Option (List GoalItem) → Type 0
    Goal r =
        ((r ≡ none) × Without id (i ∷ is))
        ⊎ ((before : List GoalItem) × (j : GoalItem) × (after : List GoalItem) × (r
              ≡ some (before ++ after))
            × ((i ∷ is) ≡ before ++ (j ∷ after))
            × (j.id ≡ id)
            × Without id before)

    differ : same_text i.id id ≡ false → i.id ≢ id
    differ e h = ground (arith, sym (same_text_refl id) ∙ ap (λ x. same_text x id) (sym h) ∙ e)

    go :
        (b : Bool)
        → same_text i.id id ≡ b
        → ((remove_first id is ≡ none) × Without id is)
          ⊎ ((before : List GoalItem) × (j : GoalItem) × (after : List GoalItem) × (remove_first id
                  is
                ≡ some (before ++ after))
              × (is ≡ before ++ (j ∷ after))
              × (j.id ≡ id)
              × Without id before)
        → Goal (if b then some is else Option.map (λ js. i ∷ js) (remove_first id is))
    go true e h = inr ([], i, is, refl, refl, same_text_eq i.id id e, tt)
    go false e (inl (r, w)) = inl ((rw r refl), (differ e, w))
    go false e (inr (before, j, after, r, s, k, w)) =
        inr (i ∷ before, j, after, (rw r refl), ap (λ z. i ∷ z) s, k, (differ e, w))

-- A deletion removes the first item that has the id and no other, wherever else the id stands, or it
-- reports that no item has it.
pub delete_goal_lem :
    (id : Text) (doc : GoalsDoc)
    → ((delete_goal id doc ≡ err not_found) × Without id doc.items)
      ⊎ ((before : List GoalItem) × (i : GoalItem) × (after : List GoalItem) × (delete_goal id doc
            ≡ ok (record { items = before ++ after }))
          × (doc.items ≡ before ++ (i ∷ after))
          × (i.id ≡ id)
          × Without id before)
unfolding delete_goal
delete_goal_lem id doc = elim (remove_first_lem id doc.items) [
  | inl (r, w) ↦ inl ((rw r refl), w)
  | inr (before, i, after, r, s, k, w) ↦ inr (before, i, after, (rw r refl), s, k, w)
]
