-- ===== src/Retrieval/Losers.antt =====
-- Which revisions `filter_superseded_doc_versions` of memory/retrieval/cover.rs leaves out.
use tinycortex.Base.{
  ◌≡◌, ◌∷◌, ◌&&◌, ◌||◌, [], ◌∙◌, ◌↔◌, ◌⊎◌, if◌then◌else◌, Option, ℕ, true, none, arith, some, refl,
  false, Text, same_text, ap, same_text_eq, same_text_refl, List, In, Bool, inl, inr, subst, sym,
}
use tinycortex.Retrieval.Cover.{SummaryNode, holds}
use tinycortex.Retrieval.Planned.{holds-In}
use tinycortex.Retrieval.Versions.{is_older, is_doc, max_version, loses, winners_after}

older_trans : (a b c : Option ℕ) → is_older a b ≡ true → is_older b c ≡ true → is_older a c ≡ true
unfolding is_older
older_trans none none c h k = ground (arith, h)
older_trans none (some y) none h k = ground (arith, k)
older_trans none (some y) (some z) h k = refl
older_trans (some x) none c h k = ground (arith, h)
older_trans (some x) (some y) none h k = ground (arith, k)
older_trans (some x) (some y) (some z) h k = ground (arith, h, k)

older_least : (a b c : Option ℕ) → is_older a c ≡ true → is_older b c ≡ false → is_older a b ≡ true
unfolding is_older
older_least none none none h k = h
older_least none none (some z) h k = ground (arith, k)
older_least none (some y) c h k = refl
older_least (some x) b none h k = ground (arith, h)
older_least (some x) none (some z) h k = ground (arith, k)
older_least (some x) (some y) (some z) h k = ground (arith, h, k)

is_doc-eq : (doc : Text) (s : SummaryNode) → (is_doc doc s ≡ true) ↔ (s.doc_id ≡ some doc)
unfolding is_doc
is_doc-eq doc s = go s.doc_id
  where
    go :
        (d : Option Text)
        → ((elim d [ none ↦ false | some e ↦ same_text e doc ]) ≡ true) ↔ (d ≡ some doc)
    go none = ((λ h. ground (arith, h)), λ e. ground (arith, e))
    go (some e) = (
      (λ h. ap (λ z. some z) (same_text_eq e doc h)),
      λ h. ap (λ x. elim x [ none ↦ false | some y ↦ same_text y doc ]) h ∙ same_text_refl doc,
    )

-- Another revision of the document among the nodes is newer; a missing version is the oldest.
abbrev pub Newer : List SummaryNode → Text → Option ℕ → Type 0
Newer es doc v =
    (t : SummaryNode) × In t es × (t.doc_id ≡ some doc) × (is_older v t.version_ms ≡ true)

max_version-Newer :
    (es : List SummaryNode) (doc : Text) (v : Option ℕ)
    → (is_older v (max_version doc es) ≡ true) ↔ Newer es doc v
unfolding max_version
max_version-Newer [] doc none = unfold is_older in ((λ h. ground (arith, h)), λ x. elim x.1 [ ])
max_version-Newer [] doc (some w) = unfold is_older in ((λ h. ground (arith, h)), λ x. elim x.1 [ ])
max_version-Newer (s ∷ ss) doc v = (
  to (is_doc doc s) refl (is_older rest s.version_ms) refl (max_version-Newer ss doc v),
  from (is_doc doc s) refl (is_older rest s.version_ms) refl (max_version-Newer ss doc v),
)
  where
    rest : Option ℕ
    rest = max_version doc ss

    to :
        (a : Bool)
        → is_doc doc s ≡ a
        → (b : Bool) → is_older rest s.version_ms ≡ b
        → ((is_older v rest ≡ true) ↔ Newer ss doc v)
        → is_older v (if a && b then s.version_ms else rest) ≡ true
        → Newer (s ∷ ss) doc v
    to true p true q ih h = (s, inl refl, (is_doc-eq doc s).0 p, h)
    to true p false q ih h = let (t, i, d, o) = ih.0 h in (t, inr i, d, o)
    to false p b q ih h = let (t, i, d, o) = ih.0 h in (t, inr i, d, o)

    from :
        (a : Bool)
        → is_doc doc s ≡ a
        → (b : Bool) → is_older rest s.version_ms ≡ b
        → ((is_older v rest ≡ true) ↔ Newer ss doc v)
        → Newer (s ∷ ss) doc v
        → is_older v (if a && b then s.version_ms else rest) ≡ true
    from true p true q ih (t, inl e, d, o) = subst (λ z. is_older v z.version_ms ≡ true) e o
    from true p true q ih (t, inr i, d, o) = older_trans v rest s.version_ms (ih.1 (t, i, d, o)) q
    from true p false q ih (t, inl e, d, o) =
        older_least v rest s.version_ms (subst (λ z. is_older v z.version_ms ≡ true) e o) q
    from true p false q ih (t, inr i, d, o) = ih.1 (t, i, d, o)
    from false p b q ih (t, inl e, d, o) =
        ground (arith, sym ((is_doc-eq doc s).1 (subst (λ z. z.doc_id ≡ some doc) e d)) ∙ p)
    from false p b q ih (t, inr i, d, o) = ih.1 (t, i, d, o)

-- A newest revision of the document stands among the earlier nodes.
abbrev pub Won : List SummaryNode → List SummaryNode → Text → Type 0
Won es before doc =
    (w : SummaryNode) × In w before × (w.doc_id ≡ some doc) × (¬ Newer es doc w.version_ms)

-- A revision loses if a newer one of its document is eligible, or if an earlier node is as new.
abbrev pub Loser : List SummaryNode → List SummaryNode → SummaryNode → Type 0
Loser es before s =
    (doc : Text) × (s.doc_id ≡ some doc) × (Newer es doc s.version_ms ⊎ Won es before doc)

abbrev pub Winners : List SummaryNode → List Text → List SummaryNode → Type 0
Winners es winners before = (doc : Text) → In doc winners ↔ Won es before doc

some-eq : (a b : Text) → some a ≡ some b → a ≡ b
some-eq a b e = ap (λ x. elim x [ none ↦ a | some y ↦ y ]) e

or_right : (a b : Bool) → b ≡ true → a || b ≡ true
or_right true b h = refl
or_right false b h = h

pub loses-Loser :
    (es : List SummaryNode) (winners : List Text) (before : List SummaryNode) (s : SummaryNode)
    → Winners es winners before
    → (loses es winners s ≡ true) ↔ Loser es before s
unfolding loses
loses-Loser es winners before s inv = go s.doc_id refl
  where
    go :
        (d : Option Text)
        → s.doc_id ≡ d
        → ((elim d [
          | none ↦ false
          | some doc ↦ is_older s.version_ms (max_version doc es) || holds winners doc
        ])
            ≡ true)
          ↔ Loser es before s
    go none e = ((λ h. ground (arith, h)), λ l. ground (arith, sym e ∙ l.1))
    go (some doc) e = (to (is_older s.version_ms (max_version doc es)) refl, from)
      where
        to :
            (b : Bool)
            → is_older s.version_ms (max_version doc es) ≡ b
            → b || holds winners doc ≡ true
            → Loser es before s
        to true o h = (doc, e, inl ((max_version-Newer es doc s.version_ms).0 o))
        to false o h = (doc, e, inr ((inv doc).0 ((holds-In winners doc).0 h)))

        from :
            Loser es before s
            → is_older s.version_ms (max_version doc es) || holds winners doc ≡ true
        from (d, f, inl n) =
            rw
              ((max_version-Newer es doc s.version_ms).1
                (subst (λ z. Newer es z s.version_ms) (some-eq d doc (sym f ∙ e)) n))
              refl
        from (d, f, inr w) =
            or_right (is_older s.version_ms (max_version doc es)) (holds winners doc) (
              (holds-In winners doc).1
                ((inv doc).1 (subst (Won es before) (some-eq d doc (sym f ∙ e)) w)))

pub winners_after-Winners :
    (es : List SummaryNode) (winners : List Text) (before : List SummaryNode) (s : SummaryNode)
    → Winners es winners before
    → Winners es (winners_after (loses es winners s) s winners) (s ∷ before)
unfolding winners_after
winners_after-Winners es winners before s inv =
    go s.doc_id refl (loses es winners s) (loses-Loser es winners before s inv)
  where
    go :
        (d : Option Text)
        → s.doc_id ≡ d
        → (b : Bool) → ((b ≡ true) ↔ Loser es before s)
        → Winners es
            (elim d [ none ↦ winners | some doc ↦ if b then winners else doc ∷ winners ])
            (s ∷ before)
    go none e b l doc = ((λ m. let (w, i, d, n) = (inv doc).0 m in (w, inr i, d, n)), λ x. from x)
      where
        from : Won es (s ∷ before) doc → In doc winners
        from (w, inl p, d, n) = ground (arith, sym e ∙ subst (λ z. z.doc_id ≡ some doc) p d)
        from (w, inr i, d, n) = (inv doc).1 (w, i, d, n)
    go (some k) e true l doc =
        ((λ m. let (w, i, d, n) = (inv doc).0 m in (w, inr i, d, n)), λ x. from x (l.0 refl))
      where
        from : Won es (s ∷ before) doc → Loser es before s → In doc winners
        from (w, inr i, d, n) x = (inv doc).1 (w, i, d, n)
        from (w, inl p, d, n) (j, f, inl newer) = absurd (
            subst (λ z. ¬ Newer es doc z.version_ms) p n
              (subst (λ z. Newer es z s.version_ms)
                (some-eq j doc (sym f ∙ subst (λ z. z.doc_id ≡ some doc) p d)) newer))
        from (w, inl p, d, n) (j, f, inr won) = (inv doc).1 (
            subst (Won es before) (some-eq j doc (sym f ∙ subst (λ z. z.doc_id ≡ some doc) p d))
              won)
    go (some k) e false l doc = (to, from)
      where
        to : In doc (k ∷ winners) → Won es (s ∷ before) doc
        to (inl p) = (
          s,
          inl refl,
          e ∙ ap (λ z. some z) (sym p),
          λ newer. ground (arith, l.1 (doc, (e ∙ ap (λ z. some z) (sym p)), inl newer)),
        )
        to (inr m) = let (w, i, d, n) = (inv doc).0 m in (w, inr i, d, n)

        from : Won es (s ∷ before) doc → In doc (k ∷ winners)
        from (w, inl p, d, n) = inl (some-eq doc k (sym (subst (λ z. z.doc_id ≡ some doc) p d) ∙ e))
        from (w, inr i, d, n) = inr ((inv doc).1 (w, i, d, n))
