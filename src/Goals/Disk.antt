-- ===== src/Goals/Disk.antt =====
-- memory/goals/store.rs, the file of the document and the operations under its lock.
use tinycortex.Base.{◌||◌, ◌∷◌, if◌then◌else◌, [], ◌>>=◌, Bool, Text, Result, not, err, ok, List}
use tinycortex.Goals.Doc.{
  GoalItem, GoalsDoc, MemoryError, Outside, validate_goal_text, add_goal, edit_goal, delete_goal,
  enforce_caps, path_escape, io,
}

pub data Link : Type 0 where
  no_link unresolved : Link
  resolved : Bool → Link

pub data File : Type 0 where
  missing unreadable : File
  holds : Text → File

-- What the code sees of the workspace: whether the directory of the file is inside it, whether the
-- file is a symbolic link and its target inside, the file, and whether the directory can be made and the
-- file written.
pub record Disk : Type 0 where
  pub parent_inside : Bool
  pub link : Link
  pub file : File
  pub makes_dir : Bool
  pub writes : Bool

unfoldable pub validate_within_workspace : Disk → Result MemoryError (Unit {0})
validate_within_workspace d = if not d.parent_inside then err path_escape else elim d.link [
  | no_link ↦ ok tt
  | unresolved ↦ err path_escape
  | resolved inside ↦ if inside then ok tt else err path_escape
]

-- A file that is written is whole, or it is left as it was.
unfoldable pub atomic_write : Text → Disk → Result MemoryError Disk
atomic_write body d =
    if not d.makes_dir || not d.writes then err io else ok (record d { file = holds body })

module _ (o : Outside) where
  unfoldable pub load : Disk → Result MemoryError GoalsDoc
  unfolding validate_within_workspace
  load d = do
    _ ← validate_within_workspace d
    elim d.file [
      | missing ↦ ok (record { items = [] })
      | unreadable ↦ err io
      | holds body ↦ ok (o.parse body)
    ]

  unfoldable pub validate_all : List GoalItem → Result MemoryError (Unit {0})
  unfolding validate_goal_text
  validate_all [] = ok tt
  validate_all (i ∷ is) = do _ ← validate_goal_text o i.text; validate_all is

  unfoldable pub save : GoalsDoc → Disk → Result MemoryError (GoalsDoc × Disk)
  unfolding validate_within_workspace validate_all enforce_caps atomic_write
  save doc d = do
    _ ← validate_within_workspace d
    _ ← validate_all doc.items
    d' ← atomic_write (o.render (enforce_caps o doc).1) d
    ok ((enforce_caps o doc).1, d')

  unfoldable pub add : Text → Disk → Result MemoryError (Text × GoalsDoc × Disk)
  unfolding load add_goal save
  add text d = do
    doc ← load d
    added ← add_goal o text doc
    saved ← save added.1 d
    ok (added.0, saved.0, saved.1)

  unfoldable pub edit : Text → Text → Disk → Result MemoryError (GoalsDoc × Disk)
  unfolding load edit_goal save
  edit id text d = do doc ← load d; edited ← edit_goal o id text doc; save edited d

  unfoldable pub delete : Text → Disk → Result MemoryError (GoalsDoc × Disk)
  unfolding load delete_goal save
  delete id d = do doc ← load d; left ← delete_goal id doc; save left d
