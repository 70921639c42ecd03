-- ===== src/Operations/Latest.antt =====
-- What LoadInstance leaves in the cache.
use birb_nest.Prelude.{
  ℕ, suc, ◌≡◌, refl, sym, ◌∙◌, ap, Bool, true, false, inl, inr, Option, none, some, List, [], ◌∷◌,
  length, Text, text_eq, leb, if◌then◌else◌, arith, Bool-cases, Option-cases,
}
use birb_nest.Prelude.Maps.{Dict, lookup, insert, lookup-insert}
use birb_nest.Keys.{KeyBuilder, new_key_builder, cache_key}
use birb_nest.Cache.{Bytes, ok, err, Done, Cache, IsCache}
use birb_nest.Instance.{Context}
use birb_nest.Registry.{Store, Codec, Got, Saved}
use birb_nest.Database.{Json, Row, select}
use birb_nest.Database.Repository.{Db}
use birb_nest.Operations.{Source, arrived, World}
use birb_nest.Operations.Load.{
  Formats, Loaded, flush_limit, after_flush, flush_full, flush_rest, go_on, unless_unread,
  load_rows, mark_loaded, rest_flushed, rows_loaded, queried, migrating, known, load_instance,
}

-- The batch over what is in the cache.
abbrev shadowed : Option Bytes → Option Bytes → Option Bytes
shadowed none o = o
shadowed (some v) o = some v

-- The rows of the instance that the query comes to.
abbrev pub rows_read : {J : Type 0} → Source J → Text → Db J → List (Row J)
rows_read src id db = arrived src.arriving (select (λ r. text_eq r.instance_id id) db.rows)

module _ {J : Type 0} (json : Json J) (kb : KeyBuilder) where
  -- What a cache key holds after the rows are written in their order over `o`.
  abbrev pub latest : Text → List (Row J) → Option Bytes → Option Bytes
  latest k [] o = o
  latest k (r ∷ rs) o =
      latest k rs (if text_eq (cache_key kb (r.key ∷ [])) k then some (json.print r.value) else o)

insert-shadowed :
    (j k : Text) (v : Bytes) (batch : Dict Bytes) (o : Option Bytes)
    → shadowed (lookup k (insert j v batch)) o
      ≡ (if text_eq j k then some v else shadowed (lookup k batch) o)
insert-shadowed j k v batch o = elim (Bool-cases (text_eq j k)) [
  | inl e ↦ rw (lookup-insert j k v batch, e) refl
  | inr e ↦ rw (lookup-insert j k v batch, e) refl
]

module _ {C : Type 0} (cache : Cache C) {stored : C → Text → Option Bytes}
    (law : IsCache cache stored) where
  set_multiple-stored :
      (batch : Dict Bytes) (k : Text) (c : C)
      → (cache.set_multiple batch 0 c).0 ≡ ok tt
      → stored (cache.set_multiple batch 0 c).1 k ≡ shadowed (lookup k batch) (stored c k)
  set_multiple-stored batch k c h = elim (Option-cases (lookup k batch)) [
    | inl e ↦ rw e (law.set_multiple_other batch 0 k c e)
    | inr (v, e) ↦ rw e (law.set_multiple_done batch 0 k c v h e)
  ]

  flush_rest-stored :
      (batch : Dict Bytes) (k : Text) (c : C)
      → (flush_rest cache batch c).0 ≡ ok tt
      → stored (flush_rest cache batch c).1 k ≡ shadowed (lookup k batch) (stored c k)
  unfolding flush_rest lookup
  flush_rest-stored [] k c h = refl
  flush_rest-stored (item ∷ batch) k c h = set_multiple-stored (item ∷ batch) k c h

  -- A flush that goes well changes nothing of what the batch over the cache holds.
  flushed-stored :
      (batch : Dict Bytes) (k : Text) (c : C) (o : Done × C)
      → o ≡ cache.set_multiple batch 0 c
      → (after_flush cache o).0 ≡ ok tt
      → shadowed (lookup k (after_flush cache o).1) (stored (after_flush cache o).2 k)
        ≡ shadowed (lookup k batch) (stored c k)
  unfolding after_flush lookup
  flushed-stored batch k c (ok tt, c') e h =
      ap (λ x. stored x.1 k) e ∙ set_multiple-stored batch k c (sym (ap (λ x. x.0) e))
  flushed-stored batch k c (err x, c') e h = ground arith

  when_full-stored :
      (full : Bool) (batch : Dict Bytes) (k : Text) (c : C)
      → let o =
          if full then after_flush cache (cache.set_multiple batch 0 c) else (ok tt, batch, c) in
        o.0 ≡ ok tt
        → shadowed (lookup k o.1) (stored o.2 k) ≡ shadowed (lookup k batch) (stored c k)
  when_full-stored true batch k c h = flushed-stored batch k c _ refl h
  when_full-stored false batch k c h = refl

  flush_full-stored :
      (batch : Dict Bytes) (k : Text) (c : C)
      → (flush_full cache batch c).0 ≡ ok tt
      → shadowed (lookup k (flush_full cache batch c).1) (stored (flush_full cache batch c).2 k)
        ≡ shadowed (lookup k batch) (stored c k)
  unfolding flush_full
  flush_full-stored batch k c h = when_full-stored (leb flush_limit (length batch)) batch k c h

  -- What the batch over the cache holds, when the load goes well.
  abbrev Leaves : Text → Option Bytes → Loaded C → Type 0
  Leaves k o l =
      (n : ℕ) (b : Dict Bytes) → l.0 ≡ inr (n, b) → shadowed (lookup k b) (stored l.1 k) ≡ o

  go_on-Leaves :
      (next : Dict Bytes → C → Loaded C) (k : Text) (f : Option Bytes → Option Bytes)
      (prior : Option Bytes) (o : Done × Dict Bytes × C)
      → ((b : Dict Bytes) (c : C) → Leaves k (f (shadowed (lookup k b) (stored c k))) (next b c))
      → (o.0 ≡ ok tt → shadowed (lookup k o.1) (stored o.2 k) ≡ prior)
      → Leaves k (f prior) (go_on cache next o)
  unfolding go_on
  go_on-Leaves next k f prior (ok tt, b, c) ih p n b' h = ih b c n b' h ∙ ap f (p refl)
  go_on-Leaves next k f prior (err e, b, c) ih p n b' h = ground arith

  unless_unread-Leaves :
      (k : Text) (o : Option Bytes) (x : Option Text) (c : C) (l : Loaded C)
      → Leaves k o l
      → Leaves k o (unless_unread cache x c l)
  unfolding unless_unread
  unless_unread-Leaves k o (some e) c l p n b h = ground arith
  unless_unread-Leaves k o none c l p n b h = p n b h

  module _ {J : Type 0} (json : Json J) (kb : KeyBuilder) (unread : Row J → Option Text) where
    load_rows-Leaves :
        (k : Text) (rs : List (Row J)) (count : ℕ) (batch : Dict Bytes) (c : C)
        → Leaves k
            (latest json kb k rs (shadowed (lookup k batch) (stored c k)))
            (load_rows cache json kb unread rs count batch c)
    unfolding load_rows
    load_rows-Leaves k [] count batch c n b h = grind arith
    load_rows-Leaves k (r ∷ rs) count batch c n b h =
        unless_unread-Leaves k _ (unread r) c _
          (go_on-Leaves _ k (latest json kb k rs) _ _ (load_rows-Leaves k rs (suc count))
            (λ q. flush_full-stored _ k c q ∙ insert-shadowed _ k _ batch (stored c k)))
          n b h

module _ {S C J : Type 0} (codec : Codec) (store : Store S) (cache : Cache C) (json : Json J)
    (formats : Formats) {stored : C → Text → Option Bytes} (law : IsCache cache stored) where
  rest_flushed-stored :
      (now count : ℕ) (inst : Context) (w : World S C J) (k : Text) (o : Option Bytes)
      (f : Done × C)
      → (f.0 ≡ ok tt → stored f.1 k ≡ o)
      → (rest_flushed codec store cache json formats now count inst w f).0 ≡ none
      → stored (rest_flushed codec store cache json formats now count inst w f).1.cache k ≡ o
  unfolding rest_flushed mark_loaded
  rest_flushed-stored now count inst w k o (ok tt, c) p h = p refl
  rest_flushed-stored now count inst w k o (err e, c) p h = ground arith

  rows_loaded-stored :
      (now : ℕ) (inst : Context) (w : World S C J) (k : Text) (o : Option Bytes) (l : Loaded C)
      → Leaves cache law k o l
      → (rows_loaded codec store cache json formats now inst w l).0 ≡ none
      → stored (rows_loaded codec store cache json formats now inst w l).1.cache k ≡ o
  unfolding rows_loaded
  rows_loaded-stored now inst w k o (inl e, c) p h = ground arith
  rows_loaded-stored now inst w k o (inr (n, b), c) p h =
      rest_flushed-stored now n inst w k o (flush_rest cache b c)
        (λ q. flush_rest-stored cache law b k c q ∙ p n b refl) h

  queried-stored :
      (now : ℕ) (src : Source J) (id : Text) (x : Option Text) (inst : Context) (w : World S C J)
      (k : Text)
      → (queried codec store cache json formats now src id x inst w).0 ≡ none
      → stored (queried codec store cache json formats now src id x inst w).1.cache k
        ≡ latest json (new_key_builder id) k (rows_read src id w.db) (stored w.cache k)
  unfolding queried lookup
  queried-stored now src id (some e) inst w k h = ground arith
  queried-stored now src id none inst w k h =
      rows_loaded-stored now inst w k _ _
        (load_rows-Leaves cache law json (new_key_builder id) src.unread k _ 0 [] w.cache) h

  migrating-stored :
      (later : ℕ) (src : Source J) (id : Text) (db : Db J) (c : C) (k : Text) (o : Saved S)
      → (migrating codec store cache json formats later src id db c o).0 ≡ none
      → stored (migrating codec store cache json formats later src id db c o).1.cache k
        ≡ latest json (new_key_builder id) k (rows_read src id db) (stored c k)
  unfolding migrating
  migrating-stored later src id db c k (some e, inst, r) h = ground arith
  migrating-stored later src id db c k (none, inst, r) h =
      queried-stored later src id src.refused inst _ k h

  known-stored :
      (now later : ℕ) (src : Source J) (id : Text) (db : Db J) (c : C) (k : Text) (o : Got S)
      → (known codec store cache json formats now later src id db c o).0 ≡ none
      → stored (known codec store cache json formats now later src id db c o).1.cache k
        ≡ latest json (new_key_builder id) k (rows_read src id db) (stored c k)
  unfolding known
  known-stored now later src id db c k (inl e, r) h = ground arith
  known-stored now later src id db c k (inr inst, r) h = migrating-stored later src id db c k _ h

  -- After a LoadInstance that returns no error, each key of the cache holds the value of the last
  -- row of the instance with that cache key, among the rows that the query came to, printed as the
  -- database prints it and whatever its TTL is; a key of no such row holds what it held. The cache
  -- must do what it says.
  pub load_instance-stored :
      (now later : ℕ) (src : Source J) (id : Text) (w : World S C J) (k : Text)
      → (load_instance codec store cache json formats now later src id w).0 ≡ none
      → stored (load_instance codec store cache json formats now later src id w).1.cache k
        ≡ latest json (new_key_builder id) k (rows_read src id w.db) (stored w.cache k)
  unfolding load_instance
  load_instance-stored now later src id w k h = known-stored now later src id w.db w.cache k _ h
