-- ===== src/Goals/Tests.antt =====
-- The theorems on the goals list, run on a disk that holds one goal.
use tinycortex.Base.{
  ◌≡◌, ◌∙◌, ◌⊎◌, ◌∷◌, ◌++◌, [], Text, suc, List, Option, none, zero, some, ap, sym, refl, false,
  true, All, trim, trim_start, is_whitespace, ok, err,
}
use mathlib.Core.List.{append-nil, append_assoc}
use tinycortex.Goals.Doc.{GoalItem, GoalsDoc, Outside, delete_goal, validate_goal_text, not_found}
use tinycortex.Goals.Disk.{Disk, add, save, load, no_link, holds, validate_within_workspace}
use tinycortex.Goals.Trim.{Trimmed}
use tinycortex.Goals.Saved.{RoundTrips, OneLine, PlainId, Valid, Writable, save-Trimmed, add-load}
use tinycortex.Goals.First.{Without, delete_goal_lem}

-- An item written as its id and its text, each shifted and closed by zero.
abbrev shifted : Text → Text
shifted [] = []
shifted (c ∷ cs) = suc c ∷ shifted cs

abbrev written_items : List GoalItem → Text
written_items [] = []
written_items (i ∷ is) = shifted i.id ++ (0 ∷ (shifted i.text ++ (0 ∷ written_items is)))

abbrev read_items : Text → Option Text → Text → List GoalItem
read_items acc id [] = []
read_items acc none (zero ∷ t) = read_items [] (some acc) t
read_items acc (some id) (zero ∷ t) = record { id = id; text = acc } ∷ read_items [] none t
read_items acc id (suc c ∷ t) = read_items (acc ++ (c ∷ [])) id t

read_shifted :
    (acc : Text) (id : Option Text) (s t : Text)
    → read_items acc id (shifted s ++ t) ≡ read_items (acc ++ s) id t
read_shifted acc id [] t = ap (λ a. read_items a id t) (sym (append-nil acc))
read_shifted acc none (c ∷ s) t =
    read_shifted (acc ++ (c ∷ [])) none s t
    ∙ ap (λ a. read_items a none t) (append_assoc acc (c ∷ []) s)
read_shifted acc (some id) (c ∷ s) t =
    read_shifted (acc ++ (c ∷ [])) (some id) s t
    ∙ ap (λ a. read_items a (some id) t) (append_assoc acc (c ∷ []) s)

read_written : (is : List GoalItem) → read_items [] none (written_items is) ≡ is
read_written [] = refl
read_written (i ∷ is) =
    read_shifted [] none i.id (0 ∷ (shifted i.text ++ (0 ∷ written_items is)))
    ∙ read_shifted [] (some i.id) i.text (0 ∷ written_items is)
    ∙ ap (λ z. i ∷ z) (read_written is)

abbrev plain : Outside
plain = record {
  next_id = λ doc. 103 ∷ [];
  render = λ doc. written_items doc.items;
  parse = λ t. record { items = read_items [] none t };
  new_item = λ id text. record { id = id; text = text };
  has_likely_email = λ t. false;
  has_likely_pii = λ t. false;
  has_likely_secret = λ t. false;
  pii_redactions = λ t. 0;
}

plain-RoundTrips : RoundTrips plain
plain-RoundTrips doc v = ap (λ is. record { items = is }) (read_written doc.items)

abbrev rest_goal : GoalItem
rest_goal = record { id = 97 ∷ []; text = 114 ∷ [] }

abbrev goals : GoalsDoc
goals = record { items = rest_goal ∷ [] }

abbrev workspace : Disk
workspace = record {
  parent_inside = true;
  link = no_link;
  file = holds (written_items goals.items);
  makes_dir = true;
  writes = true;
}

workspace-Writable : Writable plain workspace
unfolding validate_within_workspace
workspace-Writable = (refl, refl, refl)

goals-OneLine : All (OneLine plain) goals.items
unfolding validate_goal_text trim trim_start is_whitespace
goals-OneLine = (((refl, refl, refl), refl), tt)

goals-Valid : All (Valid plain) goals.items
unfolding validate_goal_text trim trim_start is_whitespace
goals-Valid = ((114 ∷ [], refl), tt)

loads : load plain workspace ≡ ok goals
unfolding load validate_within_workspace
loads = refl

plain_id : PlainId plain (103 ∷ [])
unfolding trim trim_start is_whitespace
plain_id = (refl, refl, refl)

accepts : validate_goal_text plain (115 ∷ []) ≡ ok (115 ∷ [])
unfolding validate_goal_text trim trim_start is_whitespace
accepts = refl

save-Trimmed_example :
    (left : GoalsDoc) × (d' : Disk) × (save plain goals workspace ≡ ok (left, d'))
    × (d'.file ≡ holds (plain.render left))
    × ((dropped : List Text) × Trimmed plain goals.items dropped left.items)
save-Trimmed_example = save-Trimmed plain goals workspace workspace-Writable goals-Valid

add-load_example :
    (id : Text) × (after : GoalsDoc) × (d' : Disk) × (add plain (115 ∷ []) workspace
      ≡ ok (id, after, d'))
    × (load plain d' ≡ ok after)
    × ((init : List GoalItem) × (i : GoalItem) × (after.items ≡ init ++ (i ∷ []))
        × (i.id ≡ id)
        × (i.text ≡ 115 ∷ []))
add-load_example =
    add-load plain plain-RoundTrips (λ id text. (refl, refl)) (115 ∷ []) (115 ∷ []) workspace goals
      workspace-Writable loads goals-OneLine plain_id accepts

delete_goal_lem_example :
    ((delete_goal (97 ∷ []) goals ≡ err not_found) × Without (97 ∷ []) goals.items)
    ⊎ ((before : List GoalItem) × (i : GoalItem) × (after : List GoalItem) × (delete_goal
            (97 ∷ [])
            goals
          ≡ ok (record { items = before ++ after }))
        × (goals.items ≡ before ++ (i ∷ after))
        × (i.id ≡ 97 ∷ [])
        × Without (97 ∷ []) before)
delete_goal_lem_example = delete_goal_lem (97 ∷ []) goals
