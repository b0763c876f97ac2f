-- ===== src/Sources/Steps.antt =====
-- The operations of memory/sources/registry.rs as steps of its file, and what they keep.
use tinycortex.Base.{
  ◌>>=◌, ◌≡◌, if◌then◌else◌, Option, List, ok, bind-ok, err, Bool, true, subst, ap, refl, false,
  arith, is_ok, Result, ◌-◌, ◌∙◌, sym, Text, ℕ, ltb, length, keep, not, ◌∷◌, ◌++◌, [], any,
  same_text, ◌≢◌, is_nil, min, u32_mod, Pairs,
}
use tinycortex.Sources.Entry.{MemorySourceEntry, SourceError, validate_entry, already_exists}
use tinycortex.Sources.Patch.{MemorySourcePatch}
use tinycortex.Sources.Edits.{
  Target, patch_first, is_connection, upsert_composio_entry, upsert_targets, all_in,
}
use tinycortex.Sources.Registry.{
  Toml, ConfigFile, list_sources, write_all, add, update, remove_where, remove,
  remove_composio_source_by_connection_id, upsert_composio_source, upsert_composio_sources_batch,
  apply_all_in,
}
use tinycortex.Sources.Ids.{
  ids, UniqueIds, Fresh, keep-UniqueIds, snoc-UniqueIds, any-Fresh, all_in-ids,
}
use tinycortex.Sources.Changed.{
  FreshTargets, upsert-UniqueIds, upsert_targets-UniqueIds, patch_first-UniqueIds,
}
use tinycortex.Sources.Written.{RoundTrips, Holds, write_all-Holds, others_of}

module _ {Other Value : Type 0} (o : Toml Value) where
  -- One call of an operation that succeeds. A source that an upsert inserts has an id that is new, as
  -- a random one is.
  pub data Step : ConfigFile Other Value → ConfigFile Other Value → Type 0 where
    adds : (f f' : ConfigFile Other Value) (e : MemorySourceEntry) → add o e f ≡ ok f' → Step f f'
    updates :
        (f f' : ConfigFile Other Value) (id : Text) (p : MemorySourcePatch)
        → update o id p f ≡ ok f'
        → Step f f'
    removes :
        (f f' : ConfigFile Other Value) (id : Text) (b : Bool)
        → remove o id f ≡ ok (b, f')
        → Step f f'
    disconnects :
        (f f' : ConfigFile Other Value) (connection : Text) (n : ℕ)
        → remove_composio_source_by_connection_id o connection f ≡ ok (n, f')
        → Step f f'
    upserts :
        (f f' : ConfigFile Other Value) (id toolkit connection label : Text)
        → ((ss : List MemorySourceEntry) → list_sources o f ≡ ok ss → Fresh id ss)
        → upsert_composio_source o id toolkit connection label f ≡ ok f'
        → Step f f'
    batches :
        (f f' : ConfigFile Other Value) (ts : List Target) (n : ℕ)
        → ((ss : List MemorySourceEntry) → list_sources o f ≡ ok ss → FreshTargets ts ss)
        → upsert_composio_sources_batch o ts f ≡ ok (n, f')
        → Step f f'
    opens_all :
        (f f' : ConfigFile Other Value) (ss : List MemorySourceEntry)
        → apply_all_in o f ≡ ok (ss, f')
        → Step f f'

  pub data Reach : ConfigFile Other Value → ConfigFile Other Value → Type 0 where
    stays : (f : ConfigFile Other Value) → Reach f f
    goes : (f g h : ConfigFile Other Value) → Reach f g → Step g h → Reach f h

  -- The sources are listed, their ids are different, and the other keys are these.
  abbrev pub Sound : Option Other → ConfigFile Other Value → Type 0
  Sound k f = (ss : List MemorySourceEntry) × Holds o f ss k × UniqueIds ss

  same_list :
      (f : ConfigFile Other Value) (ss ts : List MemorySourceEntry)
      → list_sources o f ≡ ok ss
      → list_sources o f ≡ ok ts
      → ss ≡ ts
  same_list f ss ts a b = ap (list_of ss) (sym a ∙ b)
    where
      list_of :
          List MemorySourceEntry
          → Result SourceError (List MemorySourceEntry)
          → List MemorySourceEntry
      list_of d (ok r) = r
      list_of d (err m) = d

  -- A write of a list of different ids keeps a file sound.
  write-Sound :
      RoundTrips o
      → (k : Option Other) (f f' : ConfigFile Other Value) (ss : List MemorySourceEntry)
      → others_of f.content ≡ k
      → UniqueIds ss
      → write_all o ss f ≡ ok f'
      → Sound k f'
  write-Sound round k f f' ss e u w =
      let (l, q) = write_all-Holds o round ss f f' w in (ss, (l, q ∙ e), u)

  abbrev second_of :
      {A : Type 0}
      → ConfigFile Other Value
      → Result SourceError (A × ConfigFile Other Value)
      → ConfigFile Other Value
  second_of d (ok r) = r.1
  second_of d (err m) = d

  abbrev counted : ℕ → ConfigFile Other Value → Result SourceError (ℕ × ConfigFile Other Value)
  counted n g = ok (n, g)

  removed-Sound :
      RoundTrips o
      → (k : Option Other) (f f' : ConfigFile Other Value) (picks : MemorySourceEntry → Bool)
        (n : ℕ)
      → Sound k f
      → remove_where o picks f ≡ ok (n, f')
      → Sound k f'
  unfolding remove_where
  removed-Sound round k f f' picks n (ss, h, u) e =
      let (ts, a, e') = bind-ok (list_sources o f) _ (n, f') e in
      go ts (same_list f ss ts h.0 a) (ltb 0 (length ts - length (keep (λ s. not (picks s)) ts))) e'
    where
      go :
          (ts : List MemorySourceEntry)
          → ss ≡ ts
          → (b : Bool)
          → (if b
              then write_all o (keep (λ s. not (picks s)) ts) f
                >>= counted (length ts - length (keep (λ s. not (picks s)) ts))
              else ok (0, f))
            ≡ ok (n, f')
          → Sound k f'
      go ts q false e = subst (Sound k) (ap (second_of f) e) (ss, h, u)
      go ts q true e =
          let (g, w, e') = bind-ok (write_all o (keep (λ s. not (picks s)) ts) f) _ (n, f') e in
          write-Sound round k f f' (keep (λ s. not (picks s)) ts) h.1
            (keep-UniqueIds (λ s. not (picks s)) ts (subst UniqueIds q u))
            (w ∙ ap (λ r. ok r) (ap (second_of f) e'))

  Step-Sound :
      RoundTrips o
      → (k : Option Other) (f f' : ConfigFile Other Value) → Step f f'
      → Sound k f
      → Sound k f'
  unfolding add update remove remove_composio_source_by_connection_id upsert_composio_source
      upsert_composio_sources_batch apply_all_in
  Step-Sound round k _ _ (adds f f' e r) (ss, h, u) =
      let (a, v, r') = bind-ok (validate_entry e) _ f' r in
      let (ts, l, r'') = bind-ok (list_sources o f) _ f' r' in
      go ts (same_list f ss ts h.0 l) (any (λ s. same_text s.id e.id) ts) refl r''
    where
      go :
          (ts : List MemorySourceEntry)
          → ss ≡ ts
          → (b : Bool) → any (λ s. same_text s.id e.id) ts ≡ b
          → (if b then err already_exists else write_all o (ts ++ (e ∷ [])) f) ≡ ok f'
          → Sound k f'
      go ts q true d w = ground (arith, ap is_ok w)
      go ts q false d w =
          write-Sound round k f f' (ts ++ (e ∷ [])) h.1
            (snoc-UniqueIds ts e (subst UniqueIds q u) (any-Fresh e.id ts d)) w
  Step-Sound round k _ _ (updates f f' id p r) (ss, h, u) =
      let (ts, l, r') = bind-ok (list_sources o f) _ f' r in
      let (us, a, w) = bind-ok (patch_first id p ts) _ f' r' in
      write-Sound round k f f' us h.1
        (patch_first-UniqueIds id p ts us a (subst UniqueIds (same_list f ss ts h.0 l) u)) w
  Step-Sound round k _ _ (removes f f' id b r) s =
      let ((n, g), a, w) = bind-ok (remove_where o (λ x. same_text x.id id) f) _ (b, f') r in
      subst (Sound k) (ap (second_of f) w)
        (removed-Sound round k f g (λ x. same_text x.id id) n s a)
  Step-Sound round k _ _ (disconnects f f' connection n r) s =
      removed-Sound round k f f' (is_connection connection) n s r
  Step-Sound round k _ _ (upserts f f' id toolkit connection label fresh r) (ss, h, u) =
      let (ts, l, w) = bind-ok (list_sources o f) _ f' r in
      write-Sound round k f f' (upsert_composio_entry id toolkit connection label ts) h.1
        (upsert-UniqueIds id toolkit connection label ts
          (subst UniqueIds (same_list f ss ts h.0 l) u) (fresh ts l))
        w
  Step-Sound round k _ _ (batches f f' ts n fresh r) (ss, h, u) = go (is_nil ts) r
    where
      go :
          (b : Bool)
          → (if b
              then ok (0, f)
              else (list_sources o f >>= (λ xs.
                  write_all o (upsert_targets ts xs) f
                  >>= counted (min (length ts) (u32_mod - 1)))))
            ≡ ok (n, f')
          → Sound k f'
      go true r = subst (Sound k) (ap (second_of f) r) (ss, h, u)
      go false r =
          let (xs, l, r') =
            bind-ok (list_sources o f)
              (λ xs.
                write_all o (upsert_targets ts xs) f >>= counted (min (length ts) (u32_mod - 1)))
              (n, f') r in
          let (g, w, r'') =
            bind-ok (write_all o (upsert_targets ts xs) f) (counted (min (length ts) (u32_mod - 1)))
              (n, f') r' in
          write-Sound round k f f' (upsert_targets ts xs) h.1
            (upsert_targets-UniqueIds ts xs (subst UniqueIds (same_list f ss xs h.0 l) u)
              (fresh xs l))
            (w ∙ ap (λ g. ok g) (ap (second_of f) r''))
  Step-Sound round k _ _ (opens_all f f' ts r) (ss, h, u) =
      let (xs, l, r') = bind-ok (list_sources o f) _ (ts, f') r in
      let (g, w, r'') = bind-ok (write_all o (all_in xs) f) _ (ts, f') r' in
      write-Sound round k f f' (all_in xs) h.1
        (subst (Pairs (λ a b. a ≢ b)) (ap ids (same_list f ss xs h.0 l) ∙ sym (all_in-ids xs)) u)
        (w ∙ ap (λ g. ok g) (ap (second_of f) r''))

  -- From a file whose sources have different ids, however many operations succeed one after
  -- another, the sources are listed, their ids are different, and the other keys of the file are those
  -- it had. A source that is inserted by an upsert is taken to get a new id, and the toml crate
  -- to read back what it writes.
  pub Reach-Sound :
      RoundTrips o
      → (k : Option Other) (f f' : ConfigFile Other Value) → Reach f f'
      → Sound k f
      → Sound k f'
  Reach-Sound round k _ _ (stays f) s = s
  Reach-Sound round k _ _ (goes f g h r x) s =
      Step-Sound round k g h x (Reach-Sound round k f g r s)
