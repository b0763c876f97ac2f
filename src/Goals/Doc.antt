-- ===== src/Goals/Doc.antt =====
-- memory/goals/store.rs, the mutations of a document in memory and the caps on it.
use mathlib.Core.Option
use tinycortex.Base.{
  ◌&&◌, ◌||◌, ◌∷◌, ◌++◌, ◌==◌, if◌then◌else◌, [], ◌>>=◌, Text, List, Bool, ℕ, Option, none,
  same_text, some, ltb, Result, is_nil, trim, err, any, ok, ok_or, length, utf8_len,
}

pub record GoalItem : Type 0 where
  pub id : Text
  pub text : Text

pub record GoalsDoc : Type 0 where
  pub items : List GoalItem

pub data MemoryError : Type 0 where
  invalid not_found path_escape io : MemoryError

-- The functions of other crates: those of the contract crate on documents, and the scrubbers.
pub record Outside : Type 0 where
  pub next_id : GoalsDoc → Text
  pub render : GoalsDoc → Text
  pub parse : Text → GoalsDoc
  pub new_item : Text → Text → GoalItem
  pub has_likely_email : Text → Bool
  pub has_likely_pii : Text → Bool
  pub has_likely_secret : Text → Bool
  pub pii_redactions : Text → ℕ

abbrev pub goals_max_items : ℕ
goals_max_items = 8

abbrev pub goals_file_max_chars : ℕ
goals_file_max_chars = 2000

-- `i.id == id` on the first item that has it: the item is edited.
unfoldable pub edit_first : Text → Text → List GoalItem → Option (List GoalItem)
edit_first id text [] = none
edit_first id text (i ∷ is) =
    let rest = edit_first id text is in
    if same_text i.id id
    then some (record i { text = text } ∷ is)
    else Option.map (λ js. i ∷ js) rest

-- `position` and `remove`: the first item that has the id goes.
unfoldable pub remove_first : Text → List GoalItem → Option (List GoalItem)
remove_first id [] = none
remove_first id (i ∷ is) =
    let rest = remove_first id is in
    if same_text i.id id then some is else Option.map (λ js. i ∷ js) rest

-- The first loop of `enforce_caps`: the ids dropped and the items left.
unfoldable pub cap_count : List GoalItem → List Text × List GoalItem
cap_count [] = ([], [])
cap_count (i ∷ is) =
    let (dropped, left) = cap_count is in
    if ltb goals_max_items (length (i ∷ is)) then (i.id ∷ dropped, left) else ([], i ∷ is)

unfoldable pub delete_goal : Text → GoalsDoc → Result MemoryError GoalsDoc
unfolding remove_first
delete_goal id doc = do
  left ← ok_or not_found (remove_first id doc.items)
  ok (record doc { items = left })

module _ (o : Outside) where
  unfoldable pub has_goal_pii : Text → Bool
  has_goal_pii t = o.has_likely_email t || (o.has_likely_pii t || ltb 0 (o.pii_redactions t))

  unfoldable pub has_goal_secret : Text → Bool
  has_goal_secret t = o.has_likely_secret t

  unfoldable pub validate_goal_text : Text → Result MemoryError Text
  unfolding has_goal_pii has_goal_secret
  validate_goal_text t =
      if is_nil (trim t)
      then err invalid
      else if any (λ c. c == 10) (trim t) || any (λ c. c == 13) (trim t)
      then err invalid
      else if has_goal_secret (trim t) || has_goal_pii (trim t)
      then err invalid
      else ok (trim t)

  unfoldable pub add_goal : Text → GoalsDoc → Result MemoryError (Text × GoalsDoc)
  unfolding validate_goal_text
  add_goal text doc = do
    body ← validate_goal_text text
    ok (o.next_id doc, record doc { items = doc.items ++ (o.new_item (o.next_id doc) body ∷ []) })

  unfoldable pub edit_goal : Text → Text → GoalsDoc → Result MemoryError GoalsDoc
  unfolding validate_goal_text edit_first
  edit_goal id text doc = do
    body ← validate_goal_text text
    edited ← ok_or not_found (edit_first id body doc.items)
    ok (record doc { items = edited })

  -- The second loop: the size of what is rendered, in bytes.
  unfoldable pub cap_size : List GoalItem → List Text × List GoalItem
  cap_size [] = ([], [])
  cap_size (i ∷ is) =
      let (dropped, left) = cap_size is in
      if ltb goals_file_max_chars (utf8_len (o.render (record { items = i ∷ is })))
        && ltb 1 (length (i ∷ is))
      then (i.id ∷ dropped, left)
      else ([], i ∷ is)

  unfoldable pub enforce_caps : GoalsDoc → List Text × GoalsDoc
  unfolding cap_count cap_size
  enforce_caps doc =
      let (few, short_list) = cap_count doc.items in
      let (large, left) = cap_size short_list in (few ++ large, record doc { items = left })
