-- ===== src/Operations/Forms.antt =====
-- A form of the lines of a backup that reads back, for the tests.
use birb_nest.Prelude.{
  ℕ, zero, suc, ◌≡◌, refl, ◌∙◌, ap, ◌⊎◌, inl, inr, Option, none, some, [], ◌∷◌, Text, lit,
}
use birb_nest.Prelude.Int.{ℤ, pos, negsuc}
use birb_nest.Cache.{Bytes}
use birb_nest.Registry.Forms.{put_text, take_text, first_lem}
use birb_nest.Database.{Json}
use birb_nest.Operations.{Entry, Lines}
use birb_nest.Operations.Restore.{ReadsLines}

abbrev put_option : Option Bytes → Bytes → Bytes
put_option none rest = zero ∷ rest
put_option (some b) rest = suc zero ∷ put_text b rest

abbrev take_option : Bytes → Option Bytes × Bytes
take_option [] = (none, [])
take_option (zero ∷ rest) = (none, rest)
take_option (suc n ∷ rest) = let (b, rest') = take_text rest in (some b, rest')

abbrev put_ttl : Option ℤ → Bytes → Bytes
put_ttl none rest = zero ∷ (zero ∷ rest)
put_ttl (some (pos n)) rest = suc zero ∷ (n ∷ rest)
put_ttl (some (negsuc n)) rest = suc (suc zero) ∷ (n ∷ rest)

abbrev take_ttl : ℕ → ℕ → Option ℤ
take_ttl zero n = none
take_ttl (suc zero) n = some (pos n)
take_ttl (suc (suc k)) n = some (negsuc n)

abbrev line_of : Entry → Bytes
line_of e =
    e.version
    ∷ (e.created_at
        ∷ (e.updated_at
            ∷ put_ttl e.ttl (
                put_text e.instance_id
                  (put_text e.key (put_option e.value (put_option e.metadata []))))))

abbrev entry_in : Bytes → Text ⊎ Entry
entry_in (version ∷ (created ∷ (updated ∷ (k ∷ (n ∷ b))))) =
    let (id, b1) = take_text b in
    let (key, b2) = take_text b1 in
    let (value, b3) = take_option b2 in
    let (metadata, b4) = take_option b3 in
    inr (record {
      instance_id = id;
      key = key;
      value = value;
      version = version;
      ttl = take_ttl k n;
      metadata = metadata;
      created_at = created;
      updated_at = updated;
    })
entry_in _ = inl (lit "too short")

abbrev pub numbers : Lines
numbers = record { encode = λ e. inr (line_of e); decode = entry_in }

option_lem : (o : Option Bytes) (rest : Bytes) → take_option (put_option o rest) ≡ (o, rest)
option_lem none rest = refl
option_lem (some b) rest = rw (first_lem b rest) refl

entry_in-ttl :
    (e : Entry) (ttl : Option ℤ)
    → entry_in (line_of (record e { ttl = ttl })) ≡ inr (record e { ttl = ttl })
entry_in-ttl e none =
    rw (first_lem e.instance_id _, first_lem e.key _, option_lem e.value _, option_lem e.metadata _)
      refl
entry_in-ttl e (some (pos n)) =
    rw (first_lem e.instance_id _, first_lem e.key _, option_lem e.value _, option_lem e.metadata _)
      refl
entry_in-ttl e (some (negsuc n)) =
    rw (first_lem e.instance_id _, first_lem e.key _, option_lem e.value _, option_lem e.metadata _)
      refl

same_metadata : (m : Option Bytes) → elim m [ none ↦ none | some d ↦ some d ] ≡ m
same_metadata none = refl
same_metadata (some d) = refl

same_line : (e : Entry) (l : Bytes) → numbers.encode e ≡ inr l → l ≡ line_of e
same_line e l h = cc

pub numbers-ReadsLines : {J : Type 0} (json : Json J) → ReadsLines json numbers
numbers-ReadsLines json = record {
  compact = λ b. b;
  same = λ b. refl;
  decoded = λ e b l m h.
      ap entry_in (same_line (record e { value = some b; metadata = m }) l h)
      ∙ entry_in-ttl (record e { value = some b; metadata = m }) e.ttl
      ∙ rw (same_metadata m) refl;
}
