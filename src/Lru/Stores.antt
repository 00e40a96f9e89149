-- ===== src/Lru/Stores.antt =====
-- An entry that stays in the list while other urls are written, entries are read and the list is
-- copied.
use enhanced_proxy.Common.{
  ℕ, ◌+◌, ◌-◌, ◌^◌, ◌≤◌, ◌<◌, ◌≡◌, refl, false, some, arith, Str, str_eq, str_eq_refl, str_eq_iff,
  inl, inr, Bool-cases, Option-cases, length,
}
use enhanced_proxy.Lru.{Node, Cell, Lru, has_expired, copy, put, get}
use enhanced_proxy.Lru.Nodes.{find, remove, find-append, find-remove, find-url}
use enhanced_proxy.Lru.Valid.{IsValid, found, pair_cell, absent}
use enhanced_proxy.Lru.Reads.{put-cases, put-other}
use enhanced_proxy.Lru.Copies.{copy-IsValid, find-copy}
use enhanced_proxy.Lru.Gets.{shown, IsPast, get-cases}

-- The list has the content for the url, written at the time `since` or later.
pub record Stores (url content : Str) (since : ℕ) (lru : Lru) : Type 0 where
  pub node : Node
  pub cell : Cell
  pub at : lru.map url ≡ some node
  pub there : find url lru.list ≡ some cell
  pub same : cell.content ≡ content
  pub later : since ≤ node.time

module _ {url content : Str} {since : ℕ} {lru : Lru} (s : Stores url content since lru) (now : ℕ)
    (past : IsPast now lru) (within : now - since ≤ lru.expired_time) (range : now < 2 ^ 64) where
  not_expired : has_expired now s.node.time lru.expired_time ≡ false
  not_expired = ground (arith, s.later, past url s.node s.at)

  pub Stores-shown : shown now url lru ≡ content
  Stores-shown = rw (s.at, s.there, not_expired) s.same

  pub get-Stores :
      (other : Str) {found_content : Str} {lru' : Lru}
      → IsValid lru
      → get now other lru ≡ some (found_content, lru')
      → Stores url content since lru'
  get-Stores other v done = elim (get-cases v now other done) [
    | inl same ↦ rw same s
    | inr (inl (n, c, e, x, f, same)) ↦ rw same (elim (Bool-cases (str_eq other url)) [
      | inl u ↦ absurd (ground (arith, not_expired, x, e, s.at, str_eq_iff other url, u))
      | inr u ↦ record {
        node = s.node;
        cell = s.cell;
        at = ground (arith, s.at, u);
        there = ground (arith, s.there, u, find-remove other url lru.list v.distinct);
        same = s.same;
        later = s.later;
      }
    ])
    | inr (inr (c, f, same)) ↦ rw same (record {
      node = s.node;
      cell = s.cell;
      at = s.at;
      there = ground (
        arith,
        s.there,
        f,
        find-append url (remove other lru.list) c,
        find-remove other url lru.list v.distinct,
        find-url c other lru.list f,
        str_eq_iff other url,
      );
      same = s.same;
      later = s.later;
    })
  ]

-- The copied entries have the time of the copying.
pub copy-Stores :
    {url content : Str} {since : ℕ} {lru : Lru} (now : ℕ)
    → IsValid lru
    → since ≤ now
    → Stores url content since lru
    → Stores url content since (copy now lru)
copy-Stores {url} {content} {since} {lru} now v le s =
    let (v', entries, times) = copy-IsValid now v in
    elim (Option-cases ((copy now lru).map url)) [
      | inl e ↦ absurd (ground (arith, times url, s.at, e))
      | inr (n, e) ↦
          let (c, f, a) = found v' url n e in
          record {
            node = n;
            cell = c;
            at = e;
            there = f;
            same = ground (arith, find-copy now url lru, s.there, s.same, f);
            later = ground (arith, times url, s.at, e);
          }
    ]

module _ (now : ℕ) (url content : Str) {lru lru' : Lru} (v : IsValid lru)
    (fits : length lru.list ≤ lru.max_size) (small : lru.max_size + 1 < 2 ^ 31)
    (done : put now url content lru ≡ some lru') where
  pub put-Stores : Stores url content now lru'
  put-Stores = elim (put-cases now url content v fits small done) [
    | inl (e, room, same) ↦ rw same (record {
      node = record { time = now; position = lru.next };
      cell = pair_cell lru url content;
      at = ground (arith, str_eq_refl url);
      there = ground (
        arith,
        find-append url lru.list (pair_cell lru url content),
        absent v url e,
        str_eq_refl url,
      );
      same = refl;
      later = omega arith;
    })
    | inr (c, f, same) ↦ rw same (record {
      node = record { time = now; position = c.address };
      cell = record c { content = content };
      at = ground (arith, str_eq_refl url);
      there = ground (
        arith,
        find-append url (remove url lru.list) (record c { content = content }),
        find-remove url url lru.list v.distinct,
        find-url c url lru.list f,
        str_eq_refl url,
      );
      same = refl;
      later = omega arith;
    })
  ]

  pub put_other-Stores :
      {kept kept_content : Str} {since : ℕ}
      → str_eq url kept ≡ false
      → Stores kept kept_content since lru
      → Stores kept kept_content since lru'
  put_other-Stores {kept} ne s =
      let (map, list) = put-other now url content v fits small done kept ne in
      record {
        node = s.node;
        cell = s.cell;
        at = ground (arith, map, s.at);
        there = ground (arith, list, s.there);
        same = s.same;
        later = s.later;
      }
