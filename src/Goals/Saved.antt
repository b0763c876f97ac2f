-- ===== src/Goals/Saved.antt =====
-- What memory/goals/store.rs leaves in the file.
use tinycortex.Base.{
  ◌>>=◌, ◌≡◌, ◌∷◌, [], Text, ok, true, List, All, refl, ◌≤◌, ◌||◌, ◌++◌, ◌==◌, if◌then◌else◌, Bool,
  err, arith, ap, is_ok, false, Result, subst, trim, is_nil, any, trim_twice, length, sym,
  length-append, inl, inr,
}
use tinycortex.Goals.Doc.{
  has_goal_secret, has_goal_pii, invalid, GoalItem, GoalsDoc, MemoryError, Outside,
  validate_goal_text, add_goal, enforce_caps,
}
use tinycortex.Goals.Disk.{
  Disk, validate_within_workspace, atomic_write, load, validate_all, save, add, holds,
}
use tinycortex.Goals.Trim.{Trimmed, enforce_caps-Trimmed}

module _ (o : Outside) where
  -- A text that the validation accepts as it is.
  abbrev pub Valid : GoalItem → Type 0
  Valid i = (body : Text) × (validate_goal_text o i.text ≡ ok body)

  -- The file may be written: nothing escapes the workspace and the disk lets it.
  abbrev pub Writable : Disk → Type 0
  Writable d = (validate_within_workspace d ≡ ok tt) × (d.makes_dir ≡ true) × (d.writes ≡ true)

  validate_all_lem : (is : List GoalItem) → All Valid is → validate_all o is ≡ ok tt
  unfolding validate_all
  validate_all_lem [] h = refl
  validate_all_lem (i ∷ is) h = rw (h.0.1, validate_all_lem is h.1) refl

  abbrev written : Disk → GoalsDoc → Disk
  written d doc = record d { file = holds (o.render doc) }

  atomic_write_lem :
      (d : Disk) (body : Text)
      → d.makes_dir ≡ true
      → d.writes ≡ true
      → atomic_write body d ≡ ok (record d { file = holds body })
  unfolding atomic_write
  atomic_write_lem d body a b = rw (a, b) refl

  save_lem :
      (doc : GoalsDoc) (d : Disk)
      → Writable d
      → All Valid doc.items
      → save o doc d ≡ ok ((enforce_caps o doc).1, written d (enforce_caps o doc).1)
  unfolding save
  save_lem doc d (a, b, c) v =
      rw (a, validate_all_lem doc.items v, atomic_write_lem d (o.render (enforce_caps o doc).1) b c)
        refl

  -- A document whose texts are valid is saved where the file may be written: the items left end the
  -- list, they are eight at most and take 2000 bytes at most unless one alone is larger, the items
  -- dropped are the oldest and no more than the two caps need, and the file holds what is left.
  pub save-Trimmed :
      (doc : GoalsDoc) (d : Disk)
      → Writable d
      → All Valid doc.items
      → (left : GoalsDoc) × (d' : Disk) × (save o doc d ≡ ok (left, d'))
        × (d'.file ≡ holds (o.render left))
        × ((dropped : List Text) × Trimmed o doc.items dropped left.items)
  save-Trimmed doc d w v = (
    (enforce_caps o doc).1,
    written d (enforce_caps o doc).1,
    save_lem doc d w v,
    refl,
    ((enforce_caps o doc).0, enforce_caps-Trimmed o doc),
  )

  accepted :
      (a b c : Bool) (x body : Text)
      → (if a then err invalid else if b then err invalid else if c then err invalid else ok x)
        ≡ ok body
      → x ≡ body
  accepted true b c x body e = ground (arith, ap is_ok e)
  accepted false true c x body e = ground (arith, ap is_ok e)
  accepted false false true x body e = ground (arith, ap is_ok e)
  accepted false false false x body e = ap (λ r. payload x r) e
    where
      payload : Text → Result MemoryError Text → Text
      payload y (ok z) = z
      payload y (err m) = y

  valid_body :
      (t body : Text) → validate_goal_text o t ≡ ok body → validate_goal_text o body ≡ ok body
  unfolding validate_goal_text
  valid_body t body e = subst (λ z. validate_goal_text o z ≡ ok body) trimmed again
    where
      trimmed : trim t ≡ body
      trimmed =
          accepted (is_nil (trim t)) (any (λ c. c == 10) (trim t) || any (λ c. c == 13) (trim t))
            (has_goal_secret o (trim t) || has_goal_pii o (trim t)) (trim t) body e

      again : validate_goal_text o (trim t) ≡ ok body
      again = rw (trim_twice t) e

  -- An id that a line `- [id] text` holds as it is: not empty, without a bracket, a line break or a
  -- blank at an end.
  abbrev pub PlainId : Text → Type 0
  PlainId id =
      (is_nil id ≡ false)
      × (any (λ c. c == 10 || (c == 13 || (c == 91 || c == 93))) id ≡ false)
      × (trim id ≡ id)

  -- An item of one line: a plain id, and a text that the validation accepts and leaves as it is.
  abbrev pub OneLine : GoalItem → Type 0
  OneLine i = PlainId i.id × (validate_goal_text o i.text ≡ ok i.text)

  -- What memory/goals/mod.rs says of the contract crate: lines `- [id] text` round-trip.
  abbrev pub RoundTrips : Type 0
  RoundTrips = (doc : GoalsDoc) → All OneLine doc.items → o.parse (o.render doc) ≡ doc

  OneLine-Valid : (is : List GoalItem) → All OneLine is → All Valid is
  OneLine-Valid [] h = tt
  OneLine-Valid (i ∷ is) h = ((i.text, h.0.1), OneLine-Valid is h.1)

  All-snoc :
      (is : List GoalItem) (i : GoalItem)
      → All OneLine is
      → OneLine i
      → All OneLine (is ++ (i ∷ []))
  All-snoc [] i h v = (v, tt)
  All-snoc (j ∷ is) i h v = (h.0, All-snoc is i h.1 v)

  -- A list whose end has an item ends with the last item of the whole list.
  last_of :
      (xs pre left : List GoalItem) (x : GoalItem)
      → xs ++ (x ∷ []) ≡ pre ++ left
      → 1 ≤ length left
      → (init : List GoalItem) × (left ≡ init ++ (x ∷ []))
  last_of xs [] left x e n = (xs, sym e)
  last_of [] (p ∷ pre) left x e n = ground (arith, ap length e, n, length-append pre left)
  last_of (y ∷ xs) (p ∷ pre) left x e n = last_of xs pre left x (ap rest_of e) n
    where
      rest_of : List GoalItem → List GoalItem
      rest_of [] = []
      rest_of (z ∷ zs) = zs

  Trimmed-length :
      (is : List GoalItem) (dropped : List Text) (left : List GoalItem)
      → Trimmed o is dropped left
      → 1 ≤ length is
      → 1 ≤ length left
  Trimmed-length is dropped left (pre, e, d, few, small, inl n) h =
      omega (arith, h, ap length e, ap length n, length-append pre left)
  Trimmed-length is dropped left (pre, e, d, few, small, inr (init, j, f, inl many)) h =
      omega (arith, many)
  Trimmed-length is dropped left (pre, e, d, few, small, inr (init, j, f, inr large)) h =
      omega (arith, large.1)

  All-suffix : (pre left : List GoalItem) → All OneLine (pre ++ left) → All OneLine left
  All-suffix [] left h = h
  All-suffix (p ∷ pre) left h = All-suffix pre left h.1

  load-written :
      RoundTrips
      → (doc : GoalsDoc) (d : Disk) → Writable d
      → All OneLine doc.items
      → load o (written d doc) ≡ ok doc
  unfolding load
  load-written round doc d w v = go (validate_within_workspace d) w.0
    where
      go :
          (r : Result MemoryError (Unit {0}))
          → r ≡ ok tt
          → r >>= (λ u. ok (o.parse (o.render doc))) ≡ ok doc
      go r e = rw (e, round doc v) refl

  added :
      (text body : Text) (doc : GoalsDoc)
      → validate_goal_text o text ≡ ok body
      → add_goal o text doc
        ≡ ok (
          o.next_id doc,
          record doc { items = doc.items ++ (o.new_item (o.next_id doc) body ∷ []) },
        )
  unfolding add_goal
  added text body doc e = rw e refl

  -- Adding a valid text where the file may be read and written gives a new goal under the next id,
  -- which is the last goal of the document that is returned, and a later load reads that document
  -- back, for a document of plain ids and one-line texts without blanks at their ends, and a next id
  -- that is plain. Such documents are taken to parse back from what is rendered, and a new item to
  -- have its id and text.
  pub add-load :
      RoundTrips
      → ((id text : Text) → ((o.new_item id text).id ≡ id) × ((o.new_item id text).text ≡ text))
      → (text body : Text) (d : Disk) (doc : GoalsDoc) → Writable d
      → load o d ≡ ok doc
      → All OneLine doc.items
      → PlainId (o.next_id doc)
      → validate_goal_text o text ≡ ok body
      → (id : Text) × (after : GoalsDoc) × (d' : Disk) × (add o text d ≡ ok (id, after, d'))
        × (load o d' ≡ ok after)
        × ((init : List GoalItem) × (i : GoalItem) × (after.items ≡ init ++ (i ∷ []))
            × (i.id ≡ id)
            × (i.text ≡ body))
  unfolding add
  add-load round law text body d doc w l v plain e = (
    o.next_id doc,
    after,
    written d after,
    (rw (l, added text body doc e, save_lem longer d w (OneLine-Valid longer.items valid)) refl),
    load-written round after d w
        (All-suffix trimmed.0 after.items (subst (All OneLine) trimmed.1 valid)),
    (tail.0, item, tail.1, (law (o.next_id doc) body).0, (law (o.next_id doc) body).1),
  )
    where
      item : GoalItem
      item = o.new_item (o.next_id doc) body

      longer : GoalsDoc
      longer = record doc { items = doc.items ++ (item ∷ []) }

      after : GoalsDoc
      after = (enforce_caps o longer).1

      valid : All OneLine longer.items
      valid = All-snoc doc.items item v (
        (rw (law (o.next_id doc) body).0 plain),
        (rw (law (o.next_id doc) body).1 (valid_body text body e)),
      )

      trimmed : Trimmed o longer.items (enforce_caps o longer).0 after.items
      trimmed = enforce_caps-Trimmed o longer

      tail : (init : List GoalItem) × (after.items ≡ init ++ (item ∷ []))
      tail = last_of doc.items trimmed.0 after.items item trimmed.1 (
          Trimmed-length longer.items (enforce_caps o longer).0 after.items trimmed
            (omega (arith, length-append doc.items (item ∷ []))))
