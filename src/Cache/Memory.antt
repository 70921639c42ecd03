-- ===== src/Cache/Memory.antt =====
-- A Redis client over an association list, which shows that what is asked of a client can be met.
use birb_nest.Prelude.{
  ℕ, ◌≡◌, refl, ◌∙◌, false, Option, none, some, List, [], ◌∷◌, map, length, arith, Text,
  text_eq_refl, if◌then◌else◌,
}
use birb_nest.Prelude.Maps.{Dict, lookup, insert, remove, lookup-insert, lookup-remove}
use birb_nest.Cache.{Bytes, elem}
use birb_nest.Cache.Redis.{Reply, value, nothing, Client, IsRedis}

abbrev pub Entries : Type 0
Entries = Dict Bytes

abbrev pub holds : Entries → Text → Option Bytes
holds s k = lookup k s

abbrev reply_of : Option Bytes → Reply Bytes
reply_of none = nothing
reply_of (some v) = value v

abbrev remove_all : List Text → Entries → Entries
remove_all [] s = s
remove_all (k ∷ ks) s = remove k (remove_all ks s)

abbrev insert_all : Dict Bytes → Entries → Entries
insert_all [] s = s
insert_all ((k, v) ∷ items) s = insert k v (insert_all items s)

abbrev count_of : Option Bytes → ℕ
count_of none = 0
count_of (some v) = 1

abbrev pub memory : Client Entries
memory = record {
  get = λ k s. (reply_of (lookup k s), s);
  set = λ k v ttl s. (value tt, insert k v s);
  del = λ ks s. (value (length ks), remove_all ks s);
  exists = λ k s. (value (count_of (lookup k s)), s);
  mget = λ ks s. (value (map (holds s) ks), s);
  set_all = λ items ttl s. (value tt, insert_all items s);
}

get_value :
    (k : Text) (s : Entries) (v : Bytes) → reply_of (lookup k s) ≡ value v → lookup k s ≡ some v
get_value k s v h = ground arith

get_nothing : (k : Text) (s : Entries) → reply_of (lookup k s) ≡ nothing → lookup k s ≡ none
get_nothing k s h = ground arith

lookup-remove_all :
    (ks : List Text) (j : Text) (s : Entries)
    → lookup j (remove_all ks s) ≡ (if elem j ks then none else lookup j s)
unfolding elem
lookup-remove_all [] j s = refl
lookup-remove_all (k ∷ ks) j s =
    ground (arith, lookup-remove k j (remove_all ks s), lookup-remove_all ks j s)

lookup-insert_all :
    (items : Dict Bytes) (j : Text) (s : Entries)
    → lookup j (insert_all items s)
      ≡ (elim (lookup j items) [ some v ↦ some v | none ↦ lookup j s ])
unfolding lookup
lookup-insert_all [] j s = refl
lookup-insert_all ((k, v) ∷ items) j s =
    ground (arith, lookup-insert k j v (insert_all items s), lookup-insert_all items j s)

del_other :
    (ks : List Text) (j : Text) (s : Entries)
    → elem j ks ≡ false
    → lookup j (remove_all ks s) ≡ lookup j s
del_other ks j s h = ground (arith, lookup-remove_all ks j s)

exists_value :
    (k : Text) (s : Entries) (n : ℕ)
    → value (count_of (lookup k s)) ≡ value n
    → n ≡ (elim (lookup k s) [ none ↦ 0 | some v ↦ 1 ])
exists_value k s n h = ground arith

pub memory-IsRedis : IsRedis memory holds
memory-IsRedis = record {
  get_keeps = λ k j s. refl;
  get_value = get_value;
  get_nothing = get_nothing;
  set_other = λ k j v ttl s h. lookup-insert k j v s ∙ rw h;
  set_done = λ k v ttl s h. lookup-insert k k v s ∙ rw (text_eq_refl k);
  del_other = del_other;
  del_done = λ ks j s n h e. lookup-remove_all ks j s ∙ rw e;
  exists_keeps = λ k j s. refl;
  exists_value = exists_value;
  mget_keeps = λ ks j s. refl;
  mget_values = λ ks s vs h. ground arith;
  set_all_other = λ items ttl j s h. lookup-insert_all items j s ∙ rw h;
  set_all_done = λ items ttl j s v h l. lookup-insert_all items j s ∙ rw l;
}
