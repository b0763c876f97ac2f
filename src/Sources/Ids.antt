-- ===== src/Sources/Ids.antt =====
-- The ids of the sources in memory/sources/registry.rs stay different.
use tinycortex.Base.{
  ◌≡◌, ◌∙◌, ◌≢◌, ◌⊎◌, ◌||◌, ◌∷◌, ◌++◌, if◌then◌else◌, [], List, Text, map, Pairs, refl, ap, In,
  In-append, inl, inr, sym, Bool, keep, true, false, subst, any, same_text, arith, same_text_refl,
}
use tinycortex.Sources.Entry.{MemorySourceEntry}
use tinycortex.Sources.Edits.{all_in}

abbrev pub ids : List MemorySourceEntry → List Text
ids ss = map (λ s. s.id) ss

-- No two sources have the same id.
abbrev pub UniqueIds : List MemorySourceEntry → Type 0
UniqueIds ss = Pairs (λ a b. a ≢ b) (ids ss)

pub ids-append : (ss ts : List MemorySourceEntry) → ids (ss ++ ts) ≡ ids ss ++ ids ts
ids-append [] ts = refl
ids-append (s ∷ ss) ts = ap (λ z. s.id ∷ z) (ids-append ss ts)

Pairs-snoc :
    (xs : List Text) (x : Text)
    → Pairs (λ a b. a ≢ b) xs
    → ¬ In x xs
    → Pairs (λ a b. a ≢ b) (xs ++ (x ∷ []))
Pairs-snoc [] x h n = ((λ y m. elim m [ ]), tt)
Pairs-snoc (y ∷ xs) x h n = (
  (λ z m. elim (In-append z xs (x ∷ []) m) [
    | inl k ↦ h.0 z k
    | inr k ↦ elim k [ inl e ↦ λ q. n (inl (sym (q ∙ e))) | inr e ↦ elim e [ ] ]
  ]),
  Pairs-snoc xs x h.1 (λ m. n (inr m)),
)

In-ids_keep :
    (p : MemorySourceEntry → Bool) (ss : List MemorySourceEntry) (x : Text)
    → In x (ids (keep p ss))
    → In x (ids ss)
In-ids_keep p [] x m = m
In-ids_keep p (s ∷ ss) x m = go (p s) (In-ids_keep p ss x) m
  where
    go :
        (b : Bool)
        → (In x (ids (keep p ss)) → In x (ids ss))
        → In x (ids (if b then s ∷ keep p ss else keep p ss))
        → In x (ids (s ∷ ss))
    go true ih (inl e) = inl e
    go true ih (inr k) = inr (ih k)
    go false ih k = inr (ih k)

pub keep-UniqueIds :
    (p : MemorySourceEntry → Bool) (ss : List MemorySourceEntry)
    → UniqueIds ss
    → UniqueIds (keep p ss)
keep-UniqueIds p [] h = tt
keep-UniqueIds p (s ∷ ss) h = go (p s) (keep-UniqueIds p ss h.1)
  where
    go : (b : Bool) → UniqueIds (keep p ss) → UniqueIds (if b then s ∷ keep p ss else keep p ss)
    go true k = ((λ y m. h.0 y (In-ids_keep p ss y m)), k)
    go false k = k

-- No source has the id.
abbrev pub Fresh : Text → List MemorySourceEntry → Type 0
Fresh id ss = ¬ In id (ids ss)

pub snoc-UniqueIds :
    (ss : List MemorySourceEntry) (e : MemorySourceEntry)
    → UniqueIds ss
    → Fresh e.id ss
    → UniqueIds (ss ++ (e ∷ []))
snoc-UniqueIds ss e h n =
    subst (Pairs (λ a b. a ≢ b)) (sym (ids-append ss (e ∷ []))) (Pairs-snoc (ids ss) e.id h n)

pub any-Fresh :
    (id : Text) (ss : List MemorySourceEntry)
    → any (λ s. same_text s.id id) ss ≡ false
    → Fresh id ss
any-Fresh id [] h m = m
any-Fresh id (s ∷ ss) h m = go (same_text s.id id) refl h m (any-Fresh id ss)
  where
    go :
        (b : Bool)
        → same_text s.id id ≡ b
        → b || any (λ x. same_text x.id id) ss ≡ false
        → (id ≡ s.id) ⊎ In id (ids ss)
        → (any (λ x. same_text x.id id) ss ≡ false → ¬ In id (ids ss))
        → ⊥
    go true e k n ih = ground (arith, k)
    go false e k (inl p) ih =
        ground (arith, sym (same_text_refl id) ∙ ap (λ x. same_text x id) p ∙ e)
    go false e k (inr n) ih = ih k n

pub all_in-ids : (ss : List MemorySourceEntry) → ids (all_in ss) ≡ ids ss
unfolding all_in
all_in-ids [] = refl
all_in-ids (s ∷ ss) = ap (λ z. s.id ∷ z) (all_in-ids ss)
