-- ===== src/Operations/Tests.antt =====
-- The operations on instances at a concrete table, registry and cache.
use birb_nest.Prelude.{
  ◌≡◌, ◌≢◌, refl, true, inr, none, some, [], ◌∷◌, Text, lit, text_eq, if◌then◌else◌, arith,
}
use birb_nest.Prelude.Maps.{Dict, lookup, insert}
use birb_nest.Prelude.Int.{pos}
use birb_nest.Cache.{Bytes, Cache, IsCache}
use birb_nest.Cache.Redis.{redis_cache}
use birb_nest.Cache.Redis.Laws.{redis_cache-IsCache}
use birb_nest.Cache.Memory.{Entries, holds, memory, memory-IsRedis}
use birb_nest.Keys.{new_key_builder, cache_key, build_key}
use birb_nest.Instance.{new_context, validate, update_last_active, clone}
use birb_nest.Prelude.Strings.{trim_space, contains, has_prefix, is_space, join}
use birb_nest.Registry.{Registry, new_registry, register}
use birb_nest.Registry
use birb_nest.Registry.Forms.{plain, dict_store, dict_store-IsStore}
use birb_nest.Database.{Json, Row, row_at, select, is_at}
use birb_nest.Database.Repository.{Db}
use birb_nest.Database.Rows.{IsKeyed}
use birb_nest.Operations.{failed, Source, World, arrived}
use birb_nest.Operations.Load.{
  Formats, load_instance, delete_instance, after_flush, flush_full, flush_rest, go_on, known,
  load_rows, mark_loaded, migrating, outcome, queried, rest_flushed, rows_loaded, unless_unread,
}
use birb_nest.Operations.Backup.{backup_instance, backup_rows, restore_lines, restore_instance}
use birb_nest.Operations.Latest.{latest, rows_read, load_instance-stored}
use birb_nest.Operations.Whole.{load_instance-row_at}
use birb_nest.Operations.Removal.{delete_instance_done}
use birb_nest.Operations.Restore.{moved}
use birb_nest.Operations.Transfer.{Orders, restore-backup}
use birb_nest.Operations.Forms.{numbers, numbers-ReadsLines}

abbrev texts : Json Text
texts = record { read = λ b. some b; print = λ j. j }

abbrev cache : Cache Entries
cache = redis_cache memory 3600

abbrev formats : Formats
formats = record { time = λ n. lit "now"; number = λ n. n ∷ [] }

abbrev row : Text → Text → Row Text
row key id = record {
  key = key;
  value = lit "1";
  instance_id = id;
  created_at = 5;
  updated_at = 6;
  version = 3;
  ttl = some (pos 1);
  metadata = some (lit "{}");
}

abbrev table : Db Text
table = record {
  rows = row (lit "a") (lit "x") ∷ row (lit "a") (lit "y") ∷ row (lit "b") (lit "x") ∷ [];
  metrics = [];
}

abbrev world : World (Dict Bytes) Entries Text
world = record {
  db = table;
  cache = [];
  registry = (register plain dict_store 100 (new_context 100 (lit "x")) (new_registry [])).2;
}

abbrev whole : Source Text
whole = record { refused = none; unread = λ r. none; arriving = none }

table-IsKeyed : IsKeyed table.rows
unfolding is_at text_eq
table-IsKeyed = ((refl, (refl, tt)), ((refl, tt), (tt, tt)))

loaded : (load_instance plain dict_store cache texts formats 200 300 whole (lit "x") world).0 ≡ none
unfolding load_instance Registry.get text_eq Registry.get_from_mem_cache lookup register validate
    new_context insert new_registry update_last_active Registry.update arrived select cache_key
    new_key_builder trim_space clone build_key after_flush flush_full flush_rest go_on known
    load_rows mark_loaded migrating outcome queried rest_flushed rows_loaded unless_unread contains
    has_prefix is_space join Registry.build_key Registry.update_mem_cache
    birb_nest.Cache.Redis.set_multiple
loaded = refl

load_instance-stored_example :
    holds
      (load_instance plain dict_store cache texts formats 200 300 whole (lit "x") world).1.cache
      (lit "instance:x:cache:b")
    ≡ latest texts
        (new_key_builder (lit "x"))
        (lit "instance:x:cache:b")
        (rows_read whole (lit "x") table)
        none
unfolding lookup
load_instance-stored_example =
    load_instance-stored plain dict_store cache texts formats
      (redis_cache-IsCache memory memory-IsRedis 3600) 200 300 whole (lit "x") world
      (lit "instance:x:cache:b") loaded

load_instance-row_at_example :
    holds
      (load_instance plain dict_store cache texts formats 200 300 whole (lit "x") world).1.cache
      (cache_key (new_key_builder (lit "x")) (lit "b" ∷ []))
    ≡ some (lit "1")
unfolding row_at is_at text_eq
load_instance-row_at_example =
    load_instance-row_at plain dict_store cache texts formats
      (redis_cache-IsCache memory memory-IsRedis 3600) 200 300 whole (lit "b") (lit "x")
      (row (lit "b") (lit "x")) world refl table-IsKeyed refl loaded

removed_now :
    (delete_instance plain dict_store cache texts formats 200 none (lit "x") world).0 ≡ none
unfolding delete_instance Registry.get text_eq Registry.get_from_mem_cache lookup register validate
    new_context insert new_registry update_last_active Registry.update Registry.delete
removed_now = refl

delete_instance_done_example :
    let after = (delete_instance plain dict_store cache texts formats 200 none (lit "x") world).1 in
    ((key other : Text)
      → row_at key other after.db.rows
        ≡ (if text_eq (lit "x") other then none else row_at key other table.rows))
    × (after.cache ≡ [])
    × ((Registry.get plain dict_store 900 (lit "x") after.registry).0
        ≢ inr (new_context 100 (lit "x")))
delete_instance_done_example =
    delete_instance_done plain dict_store cache texts formats dict_store-IsStore 200 900 none
      (lit "x") world (new_context 100 (lit "x")) removed_now

-- A line that is no entry.
refused_line :
    (restore_instance texts numbers true 9 (λ e. none) (lit "z") none none ([] ∷ []) table).0
    ≡ some (failed (lit "failed to decode entry") (lit "too short"))
unfolding restore_instance restore_lines
refused_line = refl

as_given : Orders {J = Text} (λ rs. rs)
as_given = record { keeps = λ test b rs a. a; keyed = λ rs v. v; found = λ key id rs v. refl }

backed_up_now : (backup_instance texts numbers (λ rs. rs) whole (lit "x") table).0 ≡ none
unfolding backup_instance backup_rows arrived select text_eq
backed_up_now = refl

z_is_free : (key : Text) → row_at key (lit "z") table.rows ≡ none
unfolding row_at is_at text_eq
z_is_free key = ground arith

restore-backup_example :
    let after =
      restore_instance texts numbers true 9
        (λ e. none)
        (lit "z")
        none
        none
        (backup_instance texts numbers (λ rs. rs) whole (lit "x") table).1
        table in
    (after.0 ≡ none)
    × ((key other : Text)
        → row_at key other after.1.rows ≡ (
            if text_eq (lit "z") other
            then elim (row_at key (lit "x") table.rows) [
              | none ↦ none
              | some r ↦ some (moved (lit "z") r)
            ]
            else row_at key other table.rows))
restore-backup_example =
    restore-backup texts numbers (numbers-ReadsLines texts) (λ j. refl) (λ rs. rs) as_given true 9
      whole (lit "x") (lit "z") table table refl table-IsKeyed (refl, (refl, (refl, tt))) z_is_free
      backed_up_now

-- A connection that fails before the first row makes an empty backup, and no error.
cut_backup :
    backup_instance texts numbers (λ rs. rs) (record whole { arriving = some 0 }) (lit "x") table
    ≡ (none, [])
unfolding backup_instance backup_rows arrived select text_eq
cut_backup = refl
