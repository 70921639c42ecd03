-- ===== src/Database/Tests.antt =====
-- The theorems of the database at concrete rows.
use birb_nest.Prelude.{
  ℕ, ◌≡◌, ◌≢◌, refl, true, false, inl, inr, Option, none, some, List, [], ◌∷◌, Text, lit, text_eq,
  ◌==◌, ◌||◌, ◌*◌, arith, if◌then◌else◌,
}
use birb_nest.Prelude.Int.{ℤ, pos}
use birb_nest.Cache.{elem}
use birb_nest.Database.{
  Json, Row, scan, over, is_expired, lasts, ended, is_at, row_at, select, delete_where, second,
}
use birb_nest.Prelude.{Bool}
use birb_nest.Database.Repository.{
  not_found, Db, get_with_instance, set_with_version, lasting, exists_with_instance, got, live,
  or_empty,
}
use birb_nest.Database.Queries.{keys_of, ended_keys, erased, cleanup_expired}
use birb_nest.Database.Client.{Client, as_json}
use birb_nest.Database.Client
use birb_nest.Database.History.{
  Call, set, get, delete, AnyCall, tenant, versioned_set, cleanup, perform_all, Keyed,
  perform_all-Keyed,
}
use birb_nest.Database.Isolation.{rows_of, perform_calls, perform_calls-Isolated}
use birb_nest.Database.Versions.{Outcome, set_with_version_twice}
use birb_nest.Database.Expiry.{exists-get, get-not_found}
use birb_nest.Database.Table.{
  table, act_all, perform_each, returned_each, expected_all, perform_each-act,
}
use birb_nest.Database.Cleanup.{Unended, cleanup_expired-keeps, cleanup_expired-shared}
use birb_nest.Database.RoundTrip.{set-get}

-- Documents are texts that start with a brace, a quote or a digit.
read_text : Text → Option Text
read_text [] = none
read_text (c ∷ s) = if c == 34 || c == 49 || c == 123 then some (c ∷ s) else none

abbrev texts : Json Text
unfolding read_text
texts = record { read = read_text; print = λ j. j }

is_json : Text → Bool
is_json [] = false
is_json (c ∷ s) = c == 34 || c == 49 || c == 123

abbrev one : Client Text
unfolding is_json
one = record {
  json = texts;
  valid = is_json;
  quoted = λ v. lit "\"eA==\"";
  instance_id = lit "main";
}

abbrev row : Text → Text → ℕ → Option ℤ → Row Text
row key id n ttl = record {
  key = key;
  value = lit "1";
  instance_id = id;
  created_at = 0;
  updated_at = 0;
  version = n;
  ttl = ttl;
  metadata = some (lit "{}");
}

-- Two instances with the key a, which is past its TTL of 1 s after 3 s in one of them.
abbrev two : Db Text
two = record {
  rows =
      row (lit "a") (lit "x") 4 (some (pos 1))
      ∷ row (lit "a") (lit "y") 4 none
      ∷ row (lit "b") (lit "x") 1 none
      ∷ [];
  metrics = [];
}

abbrev three : ℕ
three = 3 * second

y_is_not_x : ◌≢◌ {A = Text} (lit "y") (lit "x")
y_is_not_x = ground arith

abbrev calls : List Call
calls =
    set three none (lit "a") (lit "1") none none
    ∷ get three none none (lit "a")
    ∷ set three none (lit "c") (lit "?") none none
    ∷ delete none (lit "b")
    ∷ delete (some (lit "down")) (lit "a")
    ∷ []

abbrev history : List AnyCall
history =
    tenant (lit "x") (get three none none (lit "a"))
    ∷ cleanup three none 10
    ∷ versioned_set three none (lit "a") (lit "1") none none 4
    ∷ tenant (lit "y") (set three none (lit "z") (lit "1") none none)
    ∷ []

two-Keyed : Keyed texts two
unfolding is_at text_eq
two-Keyed = ((refl, (refl, tt)), ((refl, tt), (tt, tt)))

perform_all-Keyed_run : Keyed texts (perform_all texts true history two)
perform_all-Keyed_run = perform_all-Keyed texts true history two two-Keyed

perform_calls-Isolated_example :
    rows_of (lit "y") (perform_calls texts (lit "x") calls two) ≡ rows_of (lit "y") two
perform_calls-Isolated_example =
    perform_calls-Isolated texts (lit "x") (lit "y") calls two y_is_not_x

abbrev old_row : Row Text
old_row = row (lit "a") (lit "x") 4 none

abbrev versions : Db Text
versions = record { rows = old_row ∷ []; metrics = [] }

set_with_version_twice_example :
    let first = set_with_version texts false three none (lit "a") (lit "1") none none 4 versions in
    Outcome texts
      (lit "a")
      4
      false
      (lit "x")
      4
      (lit "1")
      (lit "{}")
      first
      (set_with_version texts false three none (lit "a") (lit "{}") none none 4 first.1)
unfolding or_empty texts read_text row_at is_at text_eq
set_with_version_twice_example =
    set_with_version_twice texts (lit "a") 4 false three three (lit "1") (lit "{}") none none none
      none (lit "1") (lit "{}") (lit "{}") (lit "{}") (lit "x") old_row versions refl refl refl refl
      refl refl

exists_now : exists_with_instance texts three none (lit "b") (lit "x") two ≡ inr true
unfolding exists_with_instance lasting row_at is_at lasts text_eq
exists_now = refl

exists-get_example :
    (r : Row Text) × (row_at (lit "b") (lit "x") two.rows ≡ some r)
    × (get_with_instance texts three none none (lit "b") (lit "x") two ≡ (inr (scan texts r), two))
exists-get_example = exists-get texts three none (lit "b") (lit "x") two exists_now

over_now : (get_with_instance texts three none none (lit "a") (lit "x") two).0 ≡ inl not_found
unfolding get_with_instance got live scan is_expired over row_at is_at text_eq
over_now = refl

get-not_found_example :
    let after = (get_with_instance texts three none none (lit "a") (lit "x") two).1 in
    (row_at (lit "a") (lit "x") after.rows ≡ none)
    × (exists_with_instance texts three none (lit "a") (lit "x") after ≡ inr false)
get-not_found_example = get-not_found texts three three (lit "a") (lit "x") two over_now

-- Get finds an entry with a TTL of 0 that Exists denies.
zero_ttl : Db Text
zero_ttl = record { rows = row (lit "a") (lit "x") 1 (some (pos 0)) ∷ []; metrics = [] }

exists_denies : exists_with_instance texts three none (lit "a") (lit "x") zero_ttl ≡ inr false
unfolding exists_with_instance lasting row_at is_at lasts zero_ttl text_eq
exists_denies = refl

get_finds :
    get_with_instance texts three none none (lit "a") (lit "x") zero_ttl
    ≡ (inr (scan texts (row (lit "a") (lit "x") 1 (some (pos 0)))), zero_ttl)
unfolding get_with_instance got live scan is_expired over row_at is_at zero_ttl text_eq
get_finds = refl

abbrev shared : List (Text × Call)
shared =
    (lit "x", get three none none (lit "a"))
    ∷ (lit "y", set three none (lit "a") (lit "1") none none)
    ∷ []

perform_each-act_example :
    (table (perform_each texts shared two).rows ≡ act_all texts shared (table two.rows))
    × (returned_each texts shared two ≡ expected_all texts shared (table two.rows))
perform_each-act_example = perform_each-act texts shared two

b-Unended : Unended three (lit "b") two.rows
unfolding ended text_eq
b-Unended = (refl, (refl, (refl, tt)))

cleanup_expired-keeps_example :
    row_at (lit "b") (lit "x") (cleanup_expired three none 10 two).1.rows
    ≡ row_at (lit "b") (lit "x") two.rows
cleanup_expired-keeps_example =
    cleanup_expired-keeps three none 10 (lit "b") (lit "x") two b-Unended

cleanup_expired-shared_example :
    let after = (cleanup_expired three none 10 two).1 in
    ((other : Text) → row_at (lit "a") other after.rows ≡ none)
    × ((key other : Text)
        → Unended three key two.rows
        → row_at key other after.rows ≡ row_at key other two.rows)
unfolding row_at is_at text_eq ended
cleanup_expired-shared_example =
    cleanup_expired-shared three 10 (lit "a") (lit "x") _ two refl refl (omega arith)

-- The row of y, which has no TTL, goes with that of x.
cleanup_takes_live : row_at (lit "a") (lit "y") (cleanup_expired three none 10 two).1.rows ≡ none
unfolding cleanup_expired erased ended_keys select ended keys_of delete_where elem row_at is_at
    text_eq
cleanup_takes_live = refl

set-get_example :
    let after = Client.set one three none (lit "n") (lit "x") (lit "1") two in
    (after.0 ≡ none)
    × (Client.get one three none none (lit "n") (lit "x") after.1 ≡ (inr (lit "1"), after.1))
unfolding as_json texts one
set-get_example =
    set-get one three three none (lit "n") (lit "x") (lit "1") (lit "1") (lit "{}") two refl refl
      refl
