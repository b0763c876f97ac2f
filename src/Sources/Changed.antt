-- ===== src/Sources/Changed.antt =====
-- How the upsert and the patch of memory/sources/registry.rs change a list of sources.
use tinycortex.Sources.Patch.{MemorySourcePatch, apply_to, validate_for_kind}
use tinycortex.Base.{
  ◌>>=◌, ◌≡◌, ◌∙◌, ◌≢◌, ◌⊎◌, ◌∷◌, ◌++◌, if◌then◌else◌, [], List, Text, Pairs, refl, ap, inl, inr,
  sym, Bool, true, false, subst, same_text, arith, All, ok, is_ok, Result, err, bind-ok,
  same_text_eq,
}
use tinycortex.Sources.Entry.{MemorySourceEntry, validate_entry, SourceError}
use tinycortex.Sources.Edits.{
  is_connection, new_composio, upsert_composio_entry, Target, upsert_targets, patch_first,
}
use tinycortex.Sources.Ids.{ids, ids-append, UniqueIds, Fresh, snoc-UniqueIds}

-- An upsert gives the first source of the connection the label and changes nothing else, whatever
-- caps it has, or, without such a source, puts a new one at the end, with the caps of its toolkit.
pub upsert_composio_entry_lem :
    (id toolkit connection label : Text) (ss : List MemorySourceEntry)
    → ((before : List MemorySourceEntry) × (s : MemorySourceEntry) × (after : List
          MemorySourceEntry)
        × (ss ≡ before ++ (s ∷ after))
        × (is_connection connection s ≡ true)
        × All (λ b. is_connection connection b ≡ false) before
        × (upsert_composio_entry id toolkit connection label ss
            ≡ before ++ (record s { label = label } ∷ after)))
      ⊎ (All (λ b. is_connection connection b ≡ false) ss
          × (upsert_composio_entry id toolkit connection label ss
              ≡ ss ++ (new_composio id toolkit connection label ∷ [])))
unfolding upsert_composio_entry
upsert_composio_entry_lem id toolkit connection label [] = inr (tt, refl)
upsert_composio_entry_lem id toolkit connection label (s ∷ ss) =
    go (is_connection connection s) refl (upsert_composio_entry_lem id toolkit connection label ss)
  where
    rest : List MemorySourceEntry
    rest = upsert_composio_entry id toolkit connection label ss

    Goal : List MemorySourceEntry → List MemorySourceEntry → Type 0
    Goal xs r =
        ((before : List MemorySourceEntry) × (t : MemorySourceEntry) × (after : List
            MemorySourceEntry)
          × (xs ≡ before ++ (t ∷ after))
          × (is_connection connection t ≡ true)
          × All (λ b. is_connection connection b ≡ false) before
          × (r ≡ before ++ (record t { label = label } ∷ after)))
        ⊎ (All (λ b. is_connection connection b ≡ false) xs
            × (r ≡ xs ++ (new_composio id toolkit connection label ∷ [])))

    go :
        (b : Bool)
        → is_connection connection s ≡ b
        → Goal ss rest
        → Goal (s ∷ ss) (if b then record s { label = label } ∷ ss else s ∷ rest)
    go true e h = inl ([], s, ss, refl, e, tt, refl)
    go false e (inl (before, t, after, p, c, n, r)) =
        inl (s ∷ before, t, after, ap (λ z. s ∷ z) p, c, (e, n), ap (λ z. s ∷ z) r)
    go false e (inr (n, r)) = inr ((e, n), ap (λ z. s ∷ z) r)

pub upsert-UniqueIds :
    (id toolkit connection label : Text) (ss : List MemorySourceEntry)
    → UniqueIds ss
    → Fresh id ss
    → UniqueIds (upsert_composio_entry id toolkit connection label ss)
upsert-UniqueIds id toolkit connection label ss h n =
    elim (upsert_composio_entry_lem id toolkit connection label ss) [
      | inl (before, s, after, p, c, none_before, r) ↦
          subst (Pairs (λ a b. a ≢ b))
            (ap ids p
              ∙ ids-append before (s ∷ after)
              ∙ sym (ids-append before (record s { label = label } ∷ after))
              ∙ ap ids (sym r))
            h
      | inr (none_there, r) ↦
          subst UniqueIds (sym r) (snoc-UniqueIds ss (new_composio id toolkit connection label) h n)
    ]

-- The ids of the targets are new, each after the targets before it.
abbrev pub FreshTargets : List Target → List MemorySourceEntry → Type 0
FreshTargets [] ss = Unit
FreshTargets ((id, (toolkit, (connection, label))) ∷ ts) ss =
    Fresh id ss × FreshTargets ts (upsert_composio_entry id toolkit connection label ss)

pub upsert_targets-UniqueIds :
    (ts : List Target) (ss : List MemorySourceEntry)
    → UniqueIds ss
    → FreshTargets ts ss
    → UniqueIds (upsert_targets ts ss)
unfolding upsert_targets
upsert_targets-UniqueIds [] ss h n = h
upsert_targets-UniqueIds ((id, (toolkit, (connection, label))) ∷ ts) ss h n =
    upsert_targets-UniqueIds ts (upsert_composio_entry id toolkit connection label ss)
      (upsert-UniqueIds id toolkit connection label ss h n.0) n.1

-- A patch that is accepted replaces the first source of the id, since none before it has the id, by
-- one that is valid and has the same id and kind, and changes no other source.
pub patch_first_lem :
    (id : Text) (p : MemorySourcePatch) (ss ss' : List MemorySourceEntry)
    → patch_first id p ss ≡ ok ss'
    → (before : List MemorySourceEntry) × (s : MemorySourceEntry) × (after : List MemorySourceEntry)
      × (ss ≡ before ++ (s ∷ after))
      × (s.id ≡ id)
      × All (λ b. same_text b.id id ≡ false) before
      × (ss' ≡ before ++ (apply_to p s ∷ after))
      × (validate_for_kind p s.kind ≡ ok tt)
      × (validate_entry (apply_to p s) ≡ ok tt)
      × ((apply_to p s).id ≡ s.id)
      × ((apply_to p s).kind ≡ s.kind)
unfolding patch_first apply_to
patch_first_lem id p [] ss' e = ground (arith, ap is_ok e)
patch_first_lem id p (s ∷ ss) ss' e = go (same_text s.id id) refl (patch_first_lem id p ss) e
  where
    Found : List MemorySourceEntry → List MemorySourceEntry → Type 0
    Found xs r =
        (before : List MemorySourceEntry) × (t : MemorySourceEntry) × (after : List
          MemorySourceEntry)
        × (xs ≡ before ++ (t ∷ after))
        × (t.id ≡ id)
        × All (λ b. same_text b.id id ≡ false) before
        × (r ≡ before ++ (apply_to p t ∷ after))
        × (validate_for_kind p t.kind ≡ ok tt)
        × (validate_entry (apply_to p t) ≡ ok tt)
        × ((apply_to p t).id ≡ t.id)
        × ((apply_to p t).kind ≡ t.kind)

    list_of :
        List MemorySourceEntry
        → Result SourceError (List MemorySourceEntry)
        → List MemorySourceEntry
    list_of d (ok r) = r
    list_of d (err m) = d

    go :
        (b : Bool)
        → same_text s.id id ≡ b
        → ((r : List MemorySourceEntry) → patch_first id p ss ≡ ok r → Found ss r)
        → (if b
            then (validate_for_kind p s.kind
                >>= (λ u. validate_entry (apply_to p s) >>= (λ v. ok (apply_to p s ∷ ss))))
            else (patch_first id p ss >>= (λ r. ok (s ∷ r))))
          ≡ ok ss'
        → Found (s ∷ ss) ss'
    go true d ih e =
        let (u, a, e') =
          bind-ok (validate_for_kind p s.kind)
            (λ u. validate_entry (apply_to p s) >>= (λ v. ok (apply_to p s ∷ ss))) ss' e in
        let (v, b, e'') =
          bind-ok (validate_entry (apply_to p s)) (λ v. ok (apply_to p s ∷ ss)) ss' e' in
        ([], s, ss, refl, same_text_eq s.id id d, tt, sym (ap (list_of []) e''), a, b, refl, refl)
    go false d ih e =
        let (r, a, e') = bind-ok (patch_first id p ss) (λ r. ok (s ∷ r)) ss' e in
        let (before, t, after, q, i, none_before, w, x, y, z, k) = ih r a in
        (
          s ∷ before,
          t,
          after,
          ap (λ z. s ∷ z) q,
          i,
          (d, none_before),
          sym (ap (list_of []) e') ∙ ap (λ z. s ∷ z) w,
          x,
          y,
          z,
          k,
        )

pub patch_first-UniqueIds :
    (id : Text) (p : MemorySourcePatch) (ss ss' : List MemorySourceEntry)
    → patch_first id p ss ≡ ok ss'
    → UniqueIds ss
    → UniqueIds ss'
patch_first-UniqueIds id p ss ss' e h =
    let (before, s, after, q, i, none_before, r, x, y, z, k) = patch_first_lem id p ss ss' e in
    subst (Pairs (λ a b. a ≢ b))
      (ap ids q
        ∙ ids-append before (s ∷ after)
        ∙ ap (λ w. ids before ++ (w ∷ ids after)) (sym z)
        ∙ sym (ids-append before (apply_to p s ∷ after))
        ∙ ap ids (sym r))
      h
