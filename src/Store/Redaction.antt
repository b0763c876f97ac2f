-- ===== src/Store/Redaction.antt =====
-- A consequence of the redaction of names in memory/store/kv.rs: reads do not redact.
use tinycortex.Base.{◌≡◌, ◌∙◌, Text, ℕ, false, true, same_text, ok, refl, ap, sym}
use tinycortex.Store.Rows.{delete_row-count, find_value, find_value-upsert, upsert, is_some}
use tinycortex.Store.Kv.{
  Outside, KvStore, stored_name, set_global, get_global, delete_global, parse_found,
}
use tinycortex.Store.Refinement.{same_text-Decides}

module _ {Json : Type 0} (o : Outside Json) where
  -- A write under a global key that holds personal data, and that redaction changes, succeeds, but
  -- no read under that key sees it: the read gives what it gave before the write, and a delete of
  -- the key reports what it reported before.
  pub set_global-get_global :
      (key : Text) (v : Json) (now : ℕ) (s : KvStore)
      → o.has_likely_secret key ≡ false
      → o.has_likely_pii key ≡ true
      → same_text key (o.redact_pii key) ≡ false
      → (s' : KvStore) × (set_global o key v now s ≡ ok s')
        × (get_global o key s' ≡ get_global o key s)
        × ((delete_global o key s').0 ≡ (delete_global o key s).0)
  unfolding set_global get_global delete_global stored_name
  set_global-get_global key v now s a b c = (
    next,
    rw (a, b) refl,
    ap (parse_found o) unseen,
    delete_row-count same_text key next.kv_global
        ∙ ap is_some unseen
        ∙ sym (delete_row-count same_text key s.kv_global),
  )
    where
      next : KvStore
      next = record s {
        kv_global =
            upsert same_text (o.redact_pii key) (o.to_string (o.sanitize_json v)) now s.kv_global;
      }

      unseen : find_value same_text key next.kv_global ≡ find_value same_text key s.kv_global
      unseen =
          find_value-upsert same_text same_text-Decides key (o.redact_pii key)
            (o.to_string (o.sanitize_json v)) now s.kv_global
          ∙ (rw c refl)
