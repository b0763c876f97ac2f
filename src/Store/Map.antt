-- ===== src/Store/Map.antt =====
-- What memory/store/kv.rs promises: two maps. The commands are its writes.
use tinycortex.Base.{
  ◌||◌, ◌∷◌, if◌then◌else◌, [], Text, ℕ, Bool, Option, Result, ok, err, List, none, same_text, some,
}
use tinycortex.Store.Rows.{is_some}
use tinycortex.Store.Kv.{
  Outside, KvStore, KvError, stored_name, sanitize_namespace, set_global, set_namespace,
  delete_global, delete_namespace, same_pair,
}

pub data Command (Json : Type 0) : Type 0 where
  put_global : Text → Json → ℕ → Command Json
  put_scoped : Text → Text → Json → ℕ → Command Json
  drop_global : Text → Command Json
  drop_scoped : Text → Text → Command Json

pub data Reply : Type 0 where
  stored refused : Reply
  removed : Bool → Reply

pub record Maps (Json : Type 0) : Type 0 where
  pub globals : Text → Option Json
  pub scoped : Text × Text → Option Json

module _ {Json : Type 0} (o : Outside Json) where
  unfoldable pub write_reply : KvStore → Result KvError KvStore → Reply × KvStore
  write_reply s (ok s') = (stored, s')
  write_reply s (err e) = (refused, s)

  unfoldable pub run_command : Command Json → KvStore → Reply × KvStore
  unfolding write_reply
  run_command (put_global k v now) s = write_reply s (set_global o k v now s)
  run_command (put_scoped n k v now) s = write_reply s (set_namespace o n k v now s)
  run_command (drop_global k) s = let (hit, s') = delete_global o k s in (removed hit, s')
  run_command (drop_scoped n k) s = let (hit, s') = delete_namespace o n k s in (removed hit, s')

  unfoldable pub run_all : List (Command Json) → KvStore → List Reply × KvStore
  run_all [] s = ([], s)
  run_all (c ∷ cs) s =
      let (reply, s') = run_command c s in
      let (replies, last) = run_all cs s' in (reply ∷ replies, last)

  abbrev pub no_entries : Maps Json
  no_entries = record { globals = λ k. none; scoped = λ p. none }

  -- The meaning of a command on the maps: a write stores the scrubbed value under the redacted name.
  unfoldable pub command_meaning : Command Json → Maps Json → Reply × Maps Json
  command_meaning (put_global k v now) m = if o.has_likely_secret k then (refused, m) else (
    stored,
    record m {
      globals =
          λ j. if same_text j (stored_name o k) then some (o.sanitize_json v) else m.globals j;
    },
  )
  command_meaning (put_scoped n k v now) m =
      if o.has_likely_secret n || o.has_likely_secret k then (refused, m) else (
        stored,
        record m {
          scoped = λ p.
              if same_pair p (sanitize_namespace o (stored_name o n), stored_name o k)
              then some (o.sanitize_json v)
              else m.scoped p;
        },
      )
  command_meaning (drop_global k) m = (
    removed (is_some (m.globals k)),
    record m { globals = λ j. if same_text j k then none else m.globals j },
  )
  command_meaning (drop_scoped n k) m = (
    removed (is_some (m.scoped (sanitize_namespace o n, k))),
    record m { scoped = λ q. if same_pair q (sanitize_namespace o n, k) then none else m.scoped q },
  )

  unfoldable pub meaning : List (Command Json) → Maps Json → List Reply × Maps Json
  meaning [] m = ([], m)
  meaning (c ∷ cs) m =
      let (reply, m') = command_meaning c m in
      let (replies, last) = meaning cs m' in (reply ∷ replies, last)
