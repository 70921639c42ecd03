-- ===== src/Registry/Forms.antt =====
-- A store over an association list and a byte form of contexts, which show that what the registry
-- asks of them can be met.
use birb_nest.Prelude.{
  ℕ, zero, suc, ◌≡◌, refl, ap, ◌∙◌, Bool, true, false, ◌⊎◌, inl, inr, Option, none, some, [], ◌∷◌,
  ◌++◌, length, Text, lit, text_eq_refl, arith,
}
use birb_nest.Prelude.Maps.{Dict, lookup, insert, remove, lookup-insert, lookup-remove}
use birb_nest.Cache.{Bytes}
use birb_nest.Instance.{Context, ResourceQuota}
use birb_nest.Registry.{Store, Codec}
use birb_nest.Registry.Laws.{IsStore, RoundTrips}

abbrev answer_of : Option Bytes → Text ⊎ Bytes
answer_of none = inl (lit "key not found")
answer_of (some b) = inr b

abbrev pub held : Dict Bytes → Text → Option Bytes
held s k = lookup k s

abbrev pub dict_store : Store (Dict Bytes)
dict_store = record {
  get = λ k s. (answer_of (lookup k s), s);
  set = λ k v ttl s. (none, insert k v s);
  delete = λ k s. (none, remove k s);
}

answer_found :
    (k : Text) (s : Dict Bytes) (v : Bytes) → answer_of (lookup k s) ≡ inr v → lookup k s ≡ some v
answer_found k s v h = ground arith

pub dict_store-IsStore : IsStore dict_store held
dict_store-IsStore = record {
  get_keeps = λ k j s. refl;
  get_found = answer_found;
  set_other = λ k j v ttl s h. lookup-insert k j v s ∙ rw h;
  set_done = λ k v ttl s h. lookup-insert k k v s ∙ rw (text_eq_refl k);
  set_failed = λ k v ttl s e h. cc;
  delete_other = λ k j s h. lookup-remove k j s ∙ rw h;
  delete_done = λ k s h. lookup-remove k k s ∙ rw (text_eq_refl k);
  delete_failed = λ k s e h. cc;
}

abbrev pub put_text : Text → Bytes → Bytes
put_text t rest = length t ∷ (t ++ rest)

abbrev put_items : Dict Text → Bytes → Bytes
put_items [] rest = rest
put_items ((k, v) ∷ m) rest = put_text k (put_text v (put_items m rest))

abbrev put_quota : Option ResourceQuota → Bytes → Bytes
put_quota none rest = rest
put_quota (some q) rest =
    q.max_memory_mb ∷ (q.max_storage_gb ∷ (q.max_cpu_cores ∷ (q.max_concurrent ∷ rest)))

abbrev pub first : ℕ → Bytes → Text × Bytes
first zero b = ([], b)
first (suc n) [] = ([], [])
first (suc n) (x ∷ b) = let (t, rest) = first n b in (x ∷ t, rest)

abbrev pub take_text : Bytes → Text × Bytes
take_text [] = ([], [])
take_text (n ∷ b) = first n b

abbrev take_items : ℕ → Bytes → Dict Text × Bytes
take_items zero b = ([], b)
take_items (suc n) b =
    let (k, b1) = take_text b in
    let (v, b2) = take_text b1 in let (m, b3) = take_items n b2 in ((k, v) ∷ m, b3)

abbrev take_quota : Bytes → Option ResourceQuota
take_quota (a ∷ (b ∷ (c ∷ (d ∷ rest)))) =
    some (record { max_memory_mb = a; max_storage_gb = b; max_cpu_cores = c; max_concurrent = d })
take_quota _ = none

abbrev bit : Bool → ℕ
bit false = 0
bit true = 1

abbrev is_set : ℕ → Bool
is_set zero = false
is_set (suc n) = true

abbrev form_of : Context → Bytes
form_of c =
    c.created_at
    ∷ (c.last_active
        ∷ (bit c.is_permanent
            ∷ (length c.metadata
                ∷ put_text c.instance_id (
                    put_text c.game_type (
                      put_text c.region (
                        put_text c.status
                          (put_items c.metadata (put_quota c.resource_quota []))))))))

abbrev context_of : Bytes → Text ⊎ Context
context_of (created ∷ (active ∷ (permanent ∷ (n ∷ b)))) =
    let (id, b1) = take_text b in
    let (game, b2) = take_text b1 in
    let (region, b3) = take_text b2 in
    let (status, b4) = take_text b3 in
    let (m, b5) = take_items n b4 in
    inr (record {
      instance_id = id;
      game_type = game;
      region = region;
      created_at = created;
      last_active = active;
      status = status;
      metadata = m;
      resource_quota = take_quota b5;
      is_permanent = is_set permanent;
    })
context_of _ = inl (lit "too short")

abbrev pub plain : Codec
plain = record { marshal = λ c. inr (form_of c); unmarshal = context_of }

pub first_lem : (t : Text) (rest : Bytes) → first (length t) (t ++ rest) ≡ (t, rest)
first_lem [] rest = refl
first_lem (x ∷ t) rest = rw (first_lem t rest) refl

take_items_lem :
    (m : Dict Text) (rest : Bytes) → take_items (length m) (put_items m rest) ≡ (m, rest)
take_items_lem [] rest = refl
take_items_lem ((k, v) ∷ m) rest =
    rw
      (
        first_lem k (put_text v (put_items m rest)),
        first_lem v (put_items m rest),
        take_items_lem m rest,
      )
      refl

take_quota_lem : (q : Option ResourceQuota) → take_quota (put_quota q []) ≡ q
take_quota_lem none = refl
take_quota_lem (some q) = refl

is_set_lem : (b : Bool) → is_set (bit b) ≡ b
is_set_lem false = refl
is_set_lem true = refl

context_of_lem : (c : Context) → context_of (form_of c) ≡ inr c
context_of_lem c =
    rw
      (
        first_lem c.instance_id _,
        first_lem c.game_type _,
        first_lem c.region _,
        first_lem c.status _,
        take_items_lem c.metadata _,
        take_quota_lem c.resource_quota,
        is_set_lem c.is_permanent,
      )
      refl

same_form : (c : Context) (b : Bytes) → plain.marshal c ≡ inr b → b ≡ form_of c
same_form c b h = cc

pub plain-RoundTrips : RoundTrips plain
plain-RoundTrips c b h = ap context_of (same_form c b h) ∙ context_of_lem c
