-- ===== src/Registry/Steps.antt =====
-- A registry with its callers and refreshing goroutines, step by step. No lock is held between a call
-- of the store and the change of the memory cache that follows it, so they are steps of their own.
use birb_nest.Prelude.{ℕ, ◌≡◌, ◌⊎◌, inl, inr, Option, none, some, List, [], ◌∷◌, ◌++◌, Text}
use birb_nest.Prelude.Maps.{remove}
use birb_nest.Cache.{Bytes}
use birb_nest.Instance.{Context}
use birb_nest.Registry.{
  Registry, Store, Codec, ListFilter, build_key, default_ttl, new_registry, clear_memory_cache,
  register, get, get_or_create, update, delete, touch, list, refresh_read, refresh_write,
  update_mem_cache, should_update_activity,
}

-- A registry; for each goroutine in refreshTTL between its read and its write, the ID and the bytes
-- read; and for each Get or Register between the store and the memory cache, the ID and the context
-- that the store answered with or took.
pub record System (S : Type 0) : Type 0 where
  pub registry : Registry S
  pub in_flight : List (Text × Bytes)
  pub pending : List (Text × Context)

-- A goroutine that read nothing is done.
abbrev pub taken : Text → Option Bytes → List (Text × Bytes) → List (Text × Bytes)
taken id none flight = flight
taken id (some b) flight = (id, b) ∷ flight

-- A call of the registry, at a time.
pub data Call : Type 0 where
  do_get do_get_or_create do_touch : ℕ → Text → Call
  do_register do_update : ℕ → Context → Call
  do_delete : Text → Call
  do_list : ℕ → ListFilter → Call
  do_clear : Call

module _ {S : Type 0} (codec : Codec) (store : Store S) where
  unfoldable pub perform : Call → Registry S → Registry S
  perform (do_get now id) r = (get codec store now id r).1
  perform (do_get_or_create now id) r = (get_or_create codec store now id r).1
  perform (do_register now c) r = (register codec store now c r).2
  perform (do_update now c) r = (update codec store now c r).2
  perform (do_delete id) r = (delete codec store id r).1
  perform (do_touch now id) r = (touch codec store now id r).1
  perform (do_list now f) r = (list codec store now f r).1
  perform do_clear r = clear_memory_cache r

  -- The first half of a refresh, with the IDs that stay to be refreshed, and the second.
  unfoldable pub begin_refresh : Text → List Text → System S → System S
  begin_refresh id ids s = record s {
    registry = record (s.registry) {
      world = (refresh_read codec store id s.registry.world).1;
      refreshing = ids;
    };
    in_flight = taken id (refresh_read codec store id s.registry.world).0 s.in_flight;
  }

  unfoldable pub end_refresh : Text → Bytes → List (Text × Bytes) → System S → System S
  end_refresh id b flight s = record s {
    registry = record (s.registry) {
      world = refresh_write codec store id (some b) s.registry.world;
    };
    in_flight = flight;
  }

  -- A Get that has an answer of the store and has not yet put it into the memory cache.
  unfoldable pub read_as : Text → Text ⊎ Context → List (Text × Context) → List (Text × Context)
  read_as id (inl e) p = p
  read_as id (inr c) p = (id, c) ∷ p

  unfoldable pub answered : Text → Text ⊎ Bytes → List (Text × Context) → List (Text × Context)
  unfolding read_as
  answered id (inl e) p = p
  answered id (inr b) p = read_as id (codec.unmarshal b) p

  unfoldable pub begin_fetch : Text → System S → System S
  unfolding answered
  begin_fetch id s = record s {
    registry = record (s.registry) {
      world = (store.get (build_key id) s.registry.world).1;
      refreshing = s.registry.refreshing ++ (id ∷ []);
    };
    pending = answered id (store.get (build_key id) s.registry.world).0 s.pending;
  }

  -- A Register whose context the store has taken.
  unfoldable pub stored_as : Context → Option Text × S → System S → System S
  stored_as c (some e, w) s = record s { registry = record (s.registry) { world = w } }
  stored_as c (none, w) s = record s {
    registry = record (s.registry) { world = w };
    pending = (c.instance_id, c) ∷ s.pending;
  }

  unfoldable pub begin_save : Context → Text ⊎ Bytes → System S → System S
  unfolding stored_as
  begin_save c (inl e) s = s
  begin_save c (inr b) s =
      stored_as c (store.set (build_key c.instance_id) b default_ttl s.registry.world) s

  -- updateMemCache of a Get or a Register, which is its last step.
  unfoldable pub remember : ℕ → Context → List (Text × Context) → System S → System S
  remember now c others s = record s {
    registry = update_mem_cache now c s.registry;
    pending = others;
  }

  -- The first of the three steps of Delete, and the others.
  unfoldable pub begin_delete : Text → System S → System S
  begin_delete id s = record s {
    registry = record (s.registry) { world = (store.delete (build_key id) s.registry.world).1 };
  }

  unfoldable pub forget : Text → System S → System S
  forget id s = record s {
    registry = record (s.registry) { mem_cache = remove id s.registry.mem_cache };
  }

  unfoldable pub forget_activity : Text → System S → System S
  forget_activity id s = record s {
    registry = record (s.registry) { last_activity = remove id s.registry.last_activity };
  }

  -- shouldUpdateActivity of UpdateLastActive, which then makes a Get and a Register.
  unfoldable pub note_activity : ℕ → Text → System S → System S
  note_activity now id s = record s { registry = (should_update_activity now id s.registry).1 }

  -- A whole call that nothing comes between, a part of one, or half of a refresh.
  pub data Step : System S → System S → Type 0 where
    call : (s : System S) (x : Call) → Step s (record s { registry = perform x s.registry })
    fetch_starts : (s : System S) (id : Text) → Step s (begin_fetch id s)
    save_starts : (s : System S) (c : Context) → Step s (begin_save c (codec.marshal c) s)
    remembers :
        (s : System S) (now : ℕ) (id : Text) (c : Context) (xs ys : List (Text × Context))
        → s.pending ≡ xs ++ ((id, c) ∷ ys)
        → Step s (remember now c (xs ++ ys) s)
    delete_starts : (s : System S) (id : Text) → Step s (begin_delete id s)
    forgets : (s : System S) (id : Text) → Step s (forget id s)
    forgets_activity : (s : System S) (id : Text) → Step s (forget_activity id s)
    notes_activity : (s : System S) (now : ℕ) (id : Text) → Step s (note_activity now id s)
    refresh_starts :
        (s : System S) (id : Text) (xs ys : List Text)
        → s.registry.refreshing ≡ xs ++ (id ∷ ys)
        → Step s (begin_refresh id (xs ++ ys) s)
    refresh_ends :
        (s : System S) (id : Text) (b : Bytes) (xs ys : List (Text × Bytes))
        → s.in_flight ≡ xs ++ ((id, b) ∷ ys)
        → Step s (end_refresh id b (xs ++ ys) s)

  pub data Reach (s : System S) : System S → Type 0 where
    here : Reach s s
    next : {t u : System S} → Reach s t → Step t u → Reach s u

abbrev pub started : {S : Type 0} → S → System S
started w = record { registry = new_registry w; in_flight = []; pending = [] }
