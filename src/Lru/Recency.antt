-- ===== src/Lru/Recency.antt =====
-- What the list promises, with no nodes, no index and no iterators: the entries in the order of
-- their last use, and when each was last written.
use enhanced_proxy.Common.{
  ℕ, Option, none, some, List, [], ◌∷◌, ◌++◌, ltb, if◌then◌else◌, length, Str, str_eq,
}
use enhanced_proxy.Lru.{has_expired}

-- The least recently used entry stands first.
pub record Recency : Type 0 where
  pub capacity : ℕ
  pub expired_time : ℕ
  pub entries : List (Str × Str)
  pub written : Str → Option ℕ

unfoldable pub lookup : Str → List (Str × Str) → Option Str
lookup url [] = none
lookup url ((k, v) ∷ l) = if str_eq k url then some v else lookup url l

unfoldable pub without : Str → List (Str × Str) → List (Str × Str)
without url [] = []
without url ((k, v) ∷ l) = if str_eq k url then l else (k, v) ∷ without url l

abbrev pub note : (Str → Option ℕ) → Str → Option ℕ → Str → Option ℕ
note w url t k = if str_eq url k then t else w k

-- A read makes a fresh entry the most recent one and drops an expired one.
unfoldable pub get : ℕ → Str → Recency → Str × Recency
get now url r = elim (lookup url r.entries) [
  | none ↦ ([], r)
  | some content ↦ elim (r.written url) [
    | none ↦ ([], r)
    | some time ↦
        if has_expired now time r.expired_time
        then ([], record r { entries = without url r.entries; written = note r.written url none })
        else (content, record r { entries = without url r.entries ++ ((url, content) ∷ []) })
  ]
]

-- A write makes the entry the most recent one. A new url in a full list is what the program
-- cannot handle: no state follows.
unfoldable pub put : ℕ → Str → Str → Recency → Option Recency
put now url content r =
    let r' = record r {
      entries = without url r.entries ++ ((url, content) ∷ []);
      written = note r.written url (some now);
    } in
    elim (lookup url r.entries) [
      | none ↦ if ltb (length r.entries) r.capacity then some r' else none
      | some _ ↦ some r'
    ]
