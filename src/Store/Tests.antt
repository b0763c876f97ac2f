-- ===== src/Store/Tests.antt =====
-- The theorems on the key-value store, run where the values are texts and personal data is a key that
-- starts with the digit 7.
use mathlib.Core.List.{Perm}
use tinycortex.Store.Records.{Records}
use tinycortex.Store.Listed.{in_namespace}
use tinycortex.Store.Newest.{Newest}
use tinycortex.Store.Listed.{records_for_scope-Newest}
use tinycortex.Store.Listing.{MemoryKvRecord, records_for_scope}
use tinycortex.Base.{
  ◌≡◌, ◌∷◌, ◌==◌, [], Text, Bool, false, some, List, ok, refl, same_text, ◌++◌, none,
}
use tinycortex.Store.Kv.{
  Outside, KvStore, no_rows, set_global, get_global, delete_global, get_namespace,
  sanitize_namespace,
}
use tinycortex.Store.Map.{
  Command, run_all, meaning, no_entries, put_global, put_scoped, drop_global,
}
use tinycortex.Store.Refinement.{run_all-meaning}
use tinycortex.Store.Redaction.{set_global-get_global}

abbrev starts_with_7 : Text → Bool
starts_with_7 [] = false
starts_with_7 (c ∷ cs) = c == 55

abbrev plain : Outside Text
plain = record {
  to_string = λ v. v;
  from_str = λ v. some v;
  sanitize_json = λ v. v;
  has_likely_secret = λ k. false;
  has_likely_pii = starts_with_7;
  redact_pii = λ k. 88 ∷ [];
  global_namespace = 103 ∷ [];
}

abbrev writes : List (Command Text)
writes =
    put_global (97 ∷ []) (1 ∷ []) 5
    ∷ put_scoped (32 ∷ 35 ∷ []) (55 ∷ 56 ∷ []) (2 ∷ []) 6
    ∷ drop_global (97 ∷ [])
    ∷ drop_global (98 ∷ [])
    ∷ []

run_all-meaning_example :
    ((run_all plain writes no_rows).0 ≡ (meaning plain writes (no_entries plain)).0)
    × ((k : Text)
        → get_global plain k (run_all plain writes no_rows).1
          ≡ ok ((meaning plain writes (no_entries plain)).1.globals k))
    × ((n k : Text)
        → get_namespace plain n k (run_all plain writes no_rows).1
          ≡ ok ((meaning plain writes (no_entries plain)).1.scoped (sanitize_namespace plain n, k)))
run_all-meaning_example = run_all-meaning plain (λ v. refl) writes

redacted_elsewhere : same_text (55 ∷ []) (88 ∷ []) ≡ false
unfolding same_text
redacted_elsewhere = refl

set_global-get_global_example :
    (s' : KvStore) × (set_global plain (55 ∷ []) (1 ∷ []) 5 no_rows ≡ ok s')
    × (get_global plain (55 ∷ []) s' ≡ get_global plain (55 ∷ []) no_rows)
    × ((delete_global plain (55 ∷ []) s').0 ≡ (delete_global plain (55 ∷ []) no_rows).0)
set_global-get_global_example =
    set_global-get_global plain (55 ∷ []) (1 ∷ []) 5 no_rows refl refl redacted_elsewhere

records_for_scope-Newest_example :
    let (replies, s) = run_all plain writes no_rows in
    (rs : List (MemoryKvRecord Text)) × (records_for_scope plain (32 ∷ 35 ∷ []) s ≡ ok rs)
    × Newest (λ r. r.updated_at) rs
    × ((own : List (MemoryKvRecord Text)) × (others : List (MemoryKvRecord Text)) × Records plain
          (λ p. some p.0)
          (λ p. p.1)
          own
          (in_namespace plain (32 ∷ 35 ∷ []) s)
        × Records plain (λ k. none) (λ k. k) others s.kv_global
        × Perm rs (own ++ others))
records_for_scope-Newest_example = records_for_scope-Newest plain (λ v. refl) writes (32 ∷ 35 ∷ [])
