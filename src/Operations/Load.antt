-- ===== src/Operations/Load.antt =====
-- internal/operations/instance_ops.go: LoadInstance and DeleteInstance.
use birb_nest.Prelude.{
  ℕ, suc, ◌⊎◌, inl, inr, Option, none, some, List, [], ◌∷◌, length, Text, lit, text_eq, leb,
  if◌then◌else◌,
}
use birb_nest.Prelude.Maps.{Dict, insert}
use birb_nest.Keys.{KeyBuilder, new_key_builder, cache_key}
use birb_nest.Cache.{Bytes, ok, err, Done, Cache}
use birb_nest.Instance.{Context, InstanceError, status_active, status_migrating, status_deleting}
use birb_nest.Registry.{Registry, Store, Codec, Got, Saved}
use birb_nest.Registry
use birb_nest.Database.{Json, Row, select, delete_where}
use birb_nest.Database.Repository.{Db}
use birb_nest.Operations.{
  OpError, not_registered, status_failed, unregister_failed, cache_failed, failed, Source, arrived,
  World,
}

-- RFC3339 of a time, and %d.
pub record Formats : Type 0 where
  pub time : ℕ → Text
  pub number : ℕ → Text

-- The rows read, and the batch that is not written yet.
abbrev pub Loaded : Type 0 → Type 0
Loaded C = (OpError ⊎ (ℕ × Dict Bytes)) × C

abbrev pub flush_limit : ℕ
flush_limit = 1000

module _ {C : Type 0} (cache : Cache C) where
  unfoldable pub after_flush : Done × C → Done × Dict Bytes × C
  after_flush (ok tt, c) = (ok tt, [], c)
  after_flush (err e, c) = (err e, [], c)

  -- Flush the batch when it is full.
  unfoldable pub flush_full : Dict Bytes → C → Done × Dict Bytes × C
  unfolding after_flush
  flush_full batch c =
      if leb flush_limit (length batch)
      then after_flush (cache.set_multiple batch 0 c)
      else (ok tt, batch, c)

  -- Flush remaining items.
  unfoldable pub flush_rest : Dict Bytes → C → Done × C
  flush_rest [] c = (ok tt, c)
  flush_rest (item ∷ batch) c = cache.set_multiple (item ∷ batch) 0 c

  unfoldable pub go_on : (Dict Bytes → C → Loaded C) → Done × Dict Bytes × C → Loaded C
  go_on next (ok tt, batch, c) = next batch c
  go_on next (err e, batch, c) = (inl (cache_failed e), c)

  unfoldable pub unless_unread : Option Text → C → Loaded C → Loaded C
  unless_unread (some e) c next = (inl (failed (lit "failed to scan row") e), c)
  unless_unread none c next = next

  module _ {J : Type 0} (json : Json J) (kb : KeyBuilder) (unread : Row J → Option Text) where
    -- The loop over the rows.
    unfoldable pub load_rows : List (Row J) → ℕ → Dict Bytes → C → Loaded C
    unfolding flush_full go_on unless_unread
    load_rows [] count batch c = (inr (count, batch), c)
    load_rows (r ∷ rs) count batch c = unless_unread (unread r) c (
        go_on (load_rows rs (suc count))
          (flush_full (insert (cache_key kb (r.key ∷ [])) (json.print r.value) batch) c))

module _ {S C J : Type 0} (codec : Codec) (store : Store S) (cache : Cache C) (json : Json J)
    (formats : Formats) where
  unfoldable pub outcome : (InstanceError → OpError) → Option InstanceError → Option OpError
  outcome wrap none = none
  outcome wrap (some e) = some (wrap e)

  -- The last update of the status and the metadata.
  unfoldable pub mark_loaded : ℕ → ℕ → Context → World S C J → Option OpError × World S C J
  unfolding outcome
  mark_loaded now count inst w =
      let (e, inst', r) =
        Registry.update codec store now
          (record inst {
            status = status_active;
            metadata =
                insert (lit "loaded_keys") (formats.number count)
                  (insert (lit "last_loaded") (formats.time now) inst.metadata);
          })
          w.registry in
      (outcome status_failed e, record w { registry = r })

  unfoldable pub rest_flushed :
      ℕ → ℕ → Context → World S C J → Done × C → Option OpError × World S C J
  unfolding mark_loaded
  rest_flushed now count inst w (err e, c) = (some (cache_failed e), record w { cache = c })
  rest_flushed now count inst w (ok tt, c) = mark_loaded now count inst (record w { cache = c })

  unfoldable pub rows_loaded : ℕ → Context → World S C J → Loaded C → Option OpError × World S C J
  unfolding flush_rest rest_flushed
  rows_loaded now inst w (inl e, c) = (some e, record w { cache = c })
  rows_loaded now inst w (inr (count, batch), c) =
      rest_flushed now count inst w (flush_rest cache batch c)

  unfoldable pub queried :
      ℕ → Source J → Text → Option Text → Context → World S C J → Option OpError × World S C J
  unfolding rows_loaded load_rows
  queried now src id (some e) inst w = (some (failed (lit "failed to query instance data") e), w)
  queried now src id none inst w = rows_loaded now inst w (
      load_rows cache json (new_key_builder id) src.unread
        (arrived src.arriving (select (λ r. text_eq r.instance_id id) w.db.rows)) 0 [] w.cache)

  unfoldable pub migrating : ℕ → Source J → Text → Db J → C → Saved S → Option OpError × World S C J
  unfolding queried
  migrating later src id db c (some e, inst, r) =
      (some (status_failed e), record { db = db; cache = c; registry = r })
  migrating later src id db c (none, inst, r) =
      queried later src id src.refused inst (record { db = db; cache = c; registry = r })

  unfoldable pub known : ℕ → ℕ → Source J → Text → Db J → C → Got S → Option OpError × World S C J
  unfolding migrating
  known now later src id db c (inl e, r) =
      (some (not_registered e), record { db = db; cache = c; registry = r })
  known now later src id db c (inr inst, r) =
      migrating later src id db c
        (Registry.update codec store now (record inst { status = status_migrating }) r)

  -- `now` is the time of the first calls of the registry, `later` that of the last.
  unfoldable pub load_instance :
      ℕ → ℕ → Source J → Text → World S C J → Option OpError × World S C J
  unfolding known
  load_instance now later src id w =
      known now later src id w.db w.cache (Registry.get codec store now id w.registry)

  unfoldable pub unregistered :
      Db J → C → Option InstanceError × Registry S → Option OpError × World S C J
  unfolding outcome
  unregistered db c (e, r) =
      (outcome unregister_failed e, record { db = db; cache = c; registry = r })

  unfoldable pub erased : Option Text → Text → Db J → C → Registry S → Option OpError × World S C J
  unfolding unregistered
  erased (some e) id db c r = (
    some (failed (lit "failed to delete from database") e),
    record { db = db; cache = c; registry = r },
  )
  erased none id db c r =
      unregistered (record db { rows = delete_where (λ r'. text_eq r'.instance_id id) db.rows }) c
        (Registry.delete codec store id r)

  unfoldable pub deleting : Option Text → Text → Db J → C → Saved S → Option OpError × World S C J
  unfolding erased
  deleting fault id db c (some e, inst, r) =
      (some (status_failed e), record { db = db; cache = c; registry = r })
  deleting fault id db c (none, inst, r) = erased fault id db c r

  unfoldable pub found : ℕ → Option Text → Text → Db J → C → Got S → Option OpError × World S C J
  unfolding deleting
  found now fault id db c (inl e, r) =
      (some (not_registered e), record { db = db; cache = c; registry = r })
  found now fault id db c (inr inst, r) =
      deleting fault id db c
        (Registry.update codec store now (record inst { status = status_deleting }) r)

  -- The cached entries stay, until their TTL.
  unfoldable pub delete_instance :
      ℕ → Option Text → Text → World S C J → Option OpError × World S C J
  unfolding found
  delete_instance now fault id w =
      found now fault id w.db w.cache (Registry.get codec store now id w.registry)
