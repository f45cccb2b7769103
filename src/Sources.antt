-- ===== src/Sources.antt =====
-- src/db/sources.py and src/core/api_keys.py: the event sources of an account and their keys. SHA-256 is
-- an argument, as are the random parts of a key and the row id that the database makes.
pub mod Keys
pub mod Access
mod Examples
use sentinai_project.Common.{
  ℕ, ◌+◌, ◌-◌, ◌<◌, String, Option, none, some, is_some, Bool, true, false, List, [], ◌∷◌, ◌++◌,
  ◌||◌, ◌&&◌, not, ◌==◌, ltb, leb, if◌then◌else◌, length, take, drop, any_of, find_row,
  update_where, str_eq, Text, codes, text_eq, starts_with, in_range, Result, ok, err,
}
use sentinai_project.Ingest.{Source}

abbrev pub all_of : (ℕ → Bool) → Text → Bool
all_of p [] = true
all_of p (c ∷ s) = p c && all_of p s

abbrev pub is_hex : ℕ → Bool
is_hex c = in_range b'0' b'9' c || in_range b'a' b'f' c

abbrev pub is_secret_char : ℕ → Bool
is_secret_char c =
    in_range b'A' b'Z' c || in_range b'a' b'z' c || in_range b'0' b'9' c || c == b'_' || c == b'-'

-- `$`: the end, or a line feed at the end.
abbrev pub is_end : Text → Bool
is_end [] = true
is_end (c ∷ []) = c == 10
is_end (c ∷ d ∷ s) = false

-- Exactly `n` characters of a class stand at the beginning.
abbrev pub begins_with : (ℕ → Bool) → ℕ → Text → Bool
begins_with p n s = length (take n s) == n && all_of p (take n s)

-- KEY_PATTERN, whose group has 12 characters.
unfoldable pub is_key : Text → Bool
is_key key =
    starts_with (codes "snl_") key
    && begins_with is_hex 8 (drop 4 key)
    && starts_with (codes "_") (drop 12 key)
    && begins_with is_secret_char 43 (drop 13 key)
    && is_end (drop 56 key)

unfoldable pub prefix_of : Option Text → Option Text
unfolding is_key
prefix_of none = none
prefix_of (some key) = if is_key key then some (take 12 key) else none

abbrev pub key_text : Option Text → Text
key_text none = []
key_text (some key) = key

-- The random parts are token_hex(4) and token_urlsafe(32).
unfoldable pub generate_key : (Text → Text) → Text → Text → Text × Text × Text
generate_key hash_key hex secret =
    let prefix = codes "snl_" ++ hex in
    let key = prefix ++ (codes "_" ++ secret) in (key, prefix, hash_key key)

abbrev pub matches : (Text → Text) → Text → Text → Bool
matches hash_key key stored_hash = text_eq (hash_key key) stored_hash

-- The characters after the first of a name, of which there are at most 31.
abbrev pub is_name_char : ℕ → Bool
is_name_char c = in_range b'a' b'z' c || in_range b'0' b'9' c || c == b'_' || c == b'-'

abbrev pub is_first_char : ℕ → Bool
is_first_char c = in_range b'a' b'z' c || in_range b'0' b'9' c

unfoldable pub name_end : ℕ → Text → Bool
name_end n [] = true
name_end n (c ∷ s) =
    let rest = name_end (n - 1) s in if ltb 0 n && is_name_char c then rest else is_end (c ∷ s)

-- NAME_PATTERN
unfoldable pub is_name : Text → Bool
unfolding name_end
is_name [] = false
is_name (c ∷ s) = is_first_char c && name_end 31 s

abbrev pub is_source : String → String → Source → Bool
is_source account source_id r = str_eq r.account_id account && str_eq r.id source_id

abbrev pub has_prefix : Text → Source → Bool
has_prefix prefix r = text_eq r.key_prefix prefix

pub data SourceError : Type 0 where
  bad_name name_taken revoked key_taken : SourceError

-- The IntegrityError of the unique constraints.
unfoldable pub is_taken : Source → List Source → Bool
is_taken row table =
    any_of
      (λ r.
        (str_eq r.account_id row.account_id && text_eq r.name row.name)
        || text_eq r.key_prefix row.key_prefix
        || str_eq r.id row.id)
      table

unfoldable pub create_source :
    (Text → Text)
    → Text
    → Text
    → String
    → ℕ
    → String
    → Text
    → Option String
    → List Source
    → Result SourceError (Source × Text) × List Source
unfolding is_taken generate_key
create_source hash_key hex secret row_id now account name created_by table =
    let (key, prefix, key_hash) = generate_key hash_key hex secret in
    let row : Source = record {
      id = row_id;
      account_id = account;
      name = name;
      key_prefix = prefix;
      key_hash = key_hash;
      created_at = now;
      created_by = created_by;
      revoked_at = none;
      last_used_at = none;
      last_event_at = none;
    } in
    if not (is_name name)
    then (err bad_name, table)
    else if is_taken row table
    then (err name_taken, table)
    else (ok (row, key), table ++ row ∷ [])

abbrev pub revoke_row : ℕ → Source → Source
revoke_row now r = if is_some r.revoked_at then r else record r { revoked_at = some now }

unfoldable pub revoke_source : ℕ → String → String → List Source → Bool × List Source
revoke_source now account source_id table = (
  is_some (find_row (is_source account source_id) table),
  update_where (is_source account source_id) (revoke_row now) table,
)

abbrev pub rotate_row : Text → Text → Source → Source
rotate_row prefix key_hash r = record r { key_prefix = prefix; key_hash = key_hash }

-- The row that was found, or none. Another row with the prefix is an IntegrityError, which nothing
-- catches.
unfoldable pub rotate_found :
    Text × Text × Text
    → String
    → String
    → List Source
    → Option Source
    → Result SourceError (Option Text) × List Source
rotate_found (key, prefix, key_hash) account source_id table none = (ok none, table)
rotate_found (key, prefix, key_hash) account source_id table (some r) =
    if is_some r.revoked_at
    then (err revoked, table)
    else if any_of (λ x. not (is_source account source_id x) && has_prefix prefix x) table
    then (err key_taken, table)
    else (
      ok (some key),
      update_where (is_source account source_id) (rotate_row prefix key_hash) table,
    )

unfoldable pub rotate_key :
    (Text → Text)
    → Text
    → Text
    → String
    → String
    → List Source
    → Result SourceError (Option Text) × List Source
unfolding rotate_found generate_key
rotate_key hash_key hex secret account source_id table =
    rotate_found (generate_key hash_key hex secret) account source_id table
      (find_row (is_source account source_id) table)

-- One minute.
abbrev pub touch_interval : ℕ
touch_interval = 60_000_000

unfoldable pub is_touched : ℕ → Option ℕ → Bool
is_touched now none = true
is_touched now (some used) = ltb (used + touch_interval) now

unfoldable pub touch : ℕ → Source → Source
unfolding is_touched
touch now r = if is_touched now r.last_used_at then record r { last_used_at = some now } else r

-- The row with the prefix of a key.
unfoldable pub authenticate_row :
    (Text → Text) → ℕ → Text → List Source → Option Source → Option Source × List Source
unfolding touch
authenticate_row hash_key now key table none = (none, table)
authenticate_row hash_key now key table (some r) =
    if not (matches hash_key key r.key_hash) || is_some r.revoked_at
    then (none, table)
    else (some (touch now r), update_where (λ x. str_eq x.id r.id) (touch now) table)

unfoldable pub authenticate_prefix :
    (Text → Text) → ℕ → Text → List Source → Option Text → Option Source × List Source
unfolding authenticate_row
authenticate_prefix hash_key now key table none = (none, table)
authenticate_prefix hash_key now key table (some prefix) =
    authenticate_row hash_key now key table (find_row (has_prefix prefix) table)

unfoldable pub authenticate :
    (Text → Text) → ℕ → Option Text → List Source → Option Source × List Source
unfolding authenticate_prefix
authenticate hash_key now key table =
    authenticate_prefix hash_key now (key_text key) table (prefix_of key)
