-- ===== src/Sources/Access.antt =====
-- Which source a key gives access to, and that a revoked or rotated key gives none.
use sentinai_project.Common.{
  ◌||◌, not, any_of, ◌&&◌, ℕ, ◌≡◌, refl, sym, ap, ◌∙◌, inl, inr, String, Option, none, some,
  is_some, Bool, true, false, List, [], ◌∷◌, find_row, update_where, All, Text, text_eq_sound,
  text_eq_refl, ok, find_row-All, Bool-cases,
}
use sentinai_project.Ingest.{Source}
use sentinai_project.Sources.{
  prefix_of, key_text, has_prefix, is_source, matches, touch, is_touched, authenticate,
  authenticate_prefix, authenticate_row, revoke_source, revoke_row, rotate_key, rotate_row,
  generate_key,
}

-- What an update leaves in the rows that it selects.
update_where-All {ℓ κ} :
    {A : Type ℓ} (P : A → Type κ) (p : A → Bool) (f : A → A) (xs : List A)
    → ((x : A) → p x ≡ true → P (f x))
    → ((x : A) → p x ≡ false → P x)
    → All P (update_where p f xs)
update_where-All P p f [] k l = tt
update_where-All P p f (x ∷ xs) k l = elim (Bool-cases (p x)) [
  | inl e ↦ rw e (k x e, update_where-All P p f xs k l)
  | inr e ↦ rw e (l x e, update_where-All P p f xs k l)
]

-- The row has the prefix of the key, which is well formed, and the hash of the key, and it is not
-- revoked; it is returned with its time of last use.
pub record IsAuthentic (hash_key : Text → Text) (now : ℕ) (key : Option Text) (table : List Source)
    (r : Source) : Type 0 where
  pub row : Source
  pub prefix : Text
  pub shaped : prefix_of key ≡ some prefix
  pub found : find_row (has_prefix prefix) table ≡ some row
  pub hashed : hash_key (key_text key) ≡ row.key_hash
  pub active : is_some row.revoked_at ≡ false
  pub returned : r ≡ touch now row

module _ (hash_key : Text → Text) (now : ℕ) where
  authenticate_row-IsAuthentic :
      (key : Option Text) (prefix : Text) (table : List Source) (o : Option Source) {r : Source}
      → prefix_of key ≡ some prefix
      → find_row (has_prefix prefix) table ≡ o
      → (authenticate_row hash_key now (key_text key) table o).0 ≡ some r
      → IsAuthentic hash_key now key table r
  unfolding authenticate_row
  authenticate_row-IsAuthentic key prefix table none s f h = cc
  authenticate_row-IsAuthentic key prefix table (some row) {r} s f h =
      elim (Bool-cases (matches hash_key (key_text key) row.key_hash)) [
        | inr m ↦ cc (rw m at h)
        | inl m ↦ elim (Bool-cases (is_some row.revoked_at)) [
          | inl v ↦ cc (rw (m, v) at h)
          | inr v ↦ record {
            row = row;
            prefix = prefix;
            shaped = s;
            found = f;
            hashed = text_eq_sound (hash_key (key_text key)) row.key_hash m;
            active = v;
            returned = some_eq (rw (m, v) at h);
          }
        ]
      ]
    where
      some_eq : some (touch now row) ≡ some r → r ≡ touch now row
      some_eq h = cc

  authenticate_prefix-IsAuthentic :
      (key : Option Text) (table : List Source) (o : Option Text) {r : Source}
      → prefix_of key ≡ o
      → (authenticate_prefix hash_key now (key_text key) table o).0 ≡ some r
      → IsAuthentic hash_key now key table r
  unfolding authenticate_prefix
  authenticate_prefix-IsAuthentic key table none s h = cc
  authenticate_prefix-IsAuthentic key table (some prefix) s h =
      authenticate_row-IsAuthentic key prefix table (find_row (has_prefix prefix) table) s refl h

  -- If a key gives access to a source, it is well formed, its public prefix is that of the row
  -- that the query for this prefix finds, its hash is the one stored there, the source is not
  -- revoked, and what is returned is this row, with its time of last use renewed or not.
  pub authenticate-IsAuthentic :
      (key : Option Text) (table : List Source) {r : Source}
      → (authenticate hash_key now key table).0 ≡ some r
      → IsAuthentic hash_key now key table r
  unfolding authenticate
  authenticate-IsAuthentic key table h =
      authenticate_prefix-IsAuthentic key table (prefix_of key) refl h

  is_source-touch :
      (account source_id : String) (r : Source)
      → is_source account source_id (touch now r) ≡ is_source account source_id r
  unfolding touch
  is_source-touch account source_id r = elim (Bool-cases (is_touched now r.last_used_at)) [
    | inl e ↦ rw e refl
    | inr e ↦ rw e refl
  ]

-- If it is the source, it is revoked.
abbrev IsShut : String → String → Source → Type 0
IsShut account source_id x = is_source account source_id x ≡ true → is_some x.revoked_at ≡ true

-- If it is the source, it has the hash.
abbrev IsKeyed : String → String → Text → Source → Type 0
IsKeyed account source_id key_hash x = is_source account source_id x ≡ true → x.key_hash ≡ key_hash

-- When a source has been revoked, at any time and whatever its state was, no key gives access to
-- it.
pub revoke_source-authenticate :
    (hash_key : Text → Text) (time now : ℕ) (account source_id : String) (key : Option Text)
    (table : List Source) {r : Source}
    → (authenticate hash_key now key (revoke_source time account source_id table).1).0 ≡ some r
    → is_source account source_id r ≡ false
unfolding revoke_source
revoke_source-authenticate hash_key time now account source_id key table {r} h =
    let a = authenticate-IsAuthentic hash_key now key _ h in
    let same : is_source account source_id r ≡ is_source account source_id a.row =
      ap (is_source account source_id) a.returned
      ∙ is_source-touch hash_key now account source_id a.row in
    elim (Bool-cases (is_source account source_id r)) [
      | inr e ↦ e
      | inl e ↦ cc (
        let v = find_row-All _ (IsShut account source_id) _ shut a.found (sym same ∙ e) in v,
        a.active,
      )
    ]
  where
    revoked : (x : Source) → is_some (revoke_row time x).revoked_at ≡ true
    revoked x = elim (Bool-cases (is_some x.revoked_at)) [ inl e ↦ rw e e | inr e ↦ rw e refl ]

    shut :
        All
          (IsShut account source_id)
          (update_where (is_source account source_id) (revoke_row time) table)
    shut =
        update_where-All (IsShut account source_id) (is_source account source_id) (revoke_row time)
          table (λ x _ _. revoked x) (λ x n y. cc)

module _ (hash_key : Text → Text) (hex secret : Text) (now : ℕ) (account source_id : String) where
  abbrev new_key : Text × Text × Text
  new_key = generate_key hash_key hex secret

  abbrev rotated : List Source → List Source
  rotated table = update_where (is_source account source_id) (rotate_row new_key.1 new_key.2) table

  rotated-found :
      (table : List Source) {r : Source}
      → find_row (is_source account source_id) table ≡ some r
      → All (λ x. has_prefix new_key.1 x ≡ false) table
      → find_row (has_prefix new_key.1) (rotated table) ≡ some (rotate_row new_key.1 new_key.2 r)
  rotated-found [] h n = cc
  rotated-found (x ∷ table) {r} h n = elim (Bool-cases (is_source account source_id x)) [
    | inl e ↦
        rw (e, text_eq_refl new_key.1)
          (ap (λ y. some (rotate_row new_key.1 new_key.2 y)) (some_eq (rw e at h)))
    | inr e ↦ rw (e, n.0) (rotated-found table (rw e at h) n.1)
  ]
    where
      some_eq : some x ≡ some r → x ≡ r
      some_eq h = cc

  new_key-works :
      (table : List Source) {r : Source}
      → find_row (is_source account source_id) table ≡ some r
      → is_some r.revoked_at ≡ false
      → prefix_of (some new_key.0) ≡ some new_key.1
      → All (λ x. has_prefix new_key.1 x ≡ false) table
      → (authenticate hash_key now (some new_key.0) (rotated table)).0
        ≡ some (touch now (rotate_row new_key.1 new_key.2 r))
  unfolding authenticate authenticate_prefix authenticate_row generate_key
  new_key-works table {r} h v p n =
      rw (p, rotated-found table h n, text_eq_refl (hash_key new_key.0), v) refl

  no_other :
      (table : List Source)
      → All (λ x. has_prefix new_key.1 x ≡ false) table
      → any_of (λ x. not (is_source account source_id x) && has_prefix new_key.1 x) table ≡ false
  no_other [] n = refl
  no_other (x ∷ table) n =
      rw (n.0, no_other table n.1) (and_false (not (is_source account source_id x)))
    where
      and_false : (b : Bool) → (b && false || false) ≡ false
      and_false true = refl
      and_false false = refl

  -- If the source is there and not revoked, the new key has the shape of a key with the new
  -- prefix, and no row has that prefix yet, then rotate_key returns the new key, that key gives
  -- access to the source, and every key that still gives access to it has the hash of the new key.
  pub rotate_key-authenticate :
      (table : List Source) {r : Source}
      → find_row (is_source account source_id) table ≡ some r
      → is_some r.revoked_at ≡ false
      → prefix_of (some new_key.0) ≡ some new_key.1
      → All (λ x. has_prefix new_key.1 x ≡ false) table
      → let (reply, after) = rotate_key hash_key hex secret account source_id table in
        (reply ≡ ok (some new_key.0))
        × ((authenticate hash_key now (some new_key.0) after).0
            ≡ some (touch now (rotate_row new_key.1 new_key.2 r)))
        × ((key : Option Text) (s : Source)
            → (authenticate hash_key now key after).0 ≡ some s
            → is_source account source_id s ≡ true
            → hash_key (key_text key) ≡ hash_key new_key.0)
  unfolding rotate_key
  rotate_key-authenticate table {r} h v p n =
      rw (h, v, no_other table n)
        (
          refl,
          new_key-works table h v p n,
          λ key s o e.
              let a = authenticate-IsAuthentic hash_key now key (rotated table) o in
              let same =
                ap (is_source account source_id) a.returned
                ∙ is_source-touch hash_key now account source_id a.row in
              a.hashed
              ∙ find_row-All _ (IsKeyed account source_id new_key.2) _ keyed a.found (sym same ∙ e),
        )
    where
      keyed : All (IsKeyed account source_id new_key.2) (rotated table)
      keyed =
          update_where-All (IsKeyed account source_id new_key.2) (is_source account source_id)
            (rotate_row new_key.1 new_key.2) table (λ x _ _. refl) (λ x m y. cc)
