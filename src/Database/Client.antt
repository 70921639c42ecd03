-- ===== src/Database/Client.antt =====
-- internal/database/interface.go: PostgreSQLClient. Whether bytes are JSON, and bytes as a JSON
-- string in base64, are encoding/json's and a parameter.
use birb_nest.Prelude.{ℕ, Bool, ◌⊎◌, inl, inr, Option, none, [], Text, text_eq, if◌then◌else◌}
use birb_nest.Cache.{Bytes}
use birb_nest.Instance.{Carried, extract_instance_id}
use birb_nest.Database.{Json, CacheEntry}
use birb_nest.Database.Repository.{
  RepoError, Db, get_with_instance, set_with_instance, delete_with_instance, exists_with_instance,
}

-- What the client knows: the documents that PostgreSQL reads, json.Valid, which takes some that
-- PostgreSQL does not, json.Marshal of a byte slice, and its own instance.
pub record Client (J : Type 0) : Type 0 where
  pub json : Json J
  pub valid : Bytes → Bool
  pub quoted : Bytes → Bytes
  pub instance_id : Text

unfoldable pub value_of :
    {J : Type 0} → (RepoError ⊎ CacheEntry) × Db J → (RepoError ⊎ Bytes) × Db J
value_of (inl e, db) = (inl e, db)
value_of (inr c, db) = (inr c.value, db)

module _ {J : Type 0} (c : Client J) where
  unfoldable pub get :
      ℕ → Option Text → Option Text → Text → Text → Db J → (RepoError ⊎ Bytes) × Db J
  unfolding value_of
  get now fault fault' key id db = value_of (get_with_instance c.json now fault fault' key id db)

  -- A value that is not JSON is stored as a JSON string.
  unfoldable pub as_json : Bytes → Bytes
  as_json value = if c.valid value then value else c.quoted value

  unfoldable pub set : ℕ → Option Text → Text → Text → Bytes → Db J → Option RepoError × Db J
  unfolding as_json
  set now fault key id value db =
      set_with_instance c.json now fault key id (as_json value) none none db

  unfoldable pub delete : Option Text → Text → Text → Db J → Option RepoError × Db J
  delete fault key id db = delete_with_instance c.json fault key id db

  unfoldable pub exists : ℕ → Option Text → Text → Text → Db J → RepoError ⊎ Bool
  exists now fault key id db = exists_with_instance c.json now fault key id db

  -- The instance of the methods that read it from the context.
  unfoldable pub context_instance : Carried → Text
  unfolding extract_instance_id
  context_instance ctx =
      let id = extract_instance_id ctx in if text_eq id [] then c.instance_id else id

  unfoldable pub get_from_context :
      ℕ → Option Text → Option Text → Carried → Text → Db J → (RepoError ⊎ Bytes) × Db J
  get_from_context now fault fault' ctx key db = get now fault fault' key (context_instance ctx) db

  unfoldable pub set_from_context :
      ℕ → Option Text → Carried → Text → Bytes → Db J → Option RepoError × Db J
  set_from_context now fault ctx key value db = set now fault key (context_instance ctx) value db

  unfoldable pub delete_from_context : Option Text → Carried → Text → Db J → Option RepoError × Db J
  delete_from_context fault ctx key db = delete fault key (context_instance ctx) db

  unfoldable pub exists_from_context : ℕ → Option Text → Carried → Text → Db J → RepoError ⊎ Bool
  exists_from_context now fault ctx key db = exists now fault key (context_instance ctx) db
