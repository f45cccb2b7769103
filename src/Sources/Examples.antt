-- ===== src/Sources/Examples.antt =====
-- A source with a key, which is rotated and revoked. The hash is the key itself.
use sentinai_project.Common.{
  ◌≡◌, refl, Option, some, none, true, false, [], ◌∷◌, ◌++◌, Text, codes, ok, err,
}
use sentinai_project.Ingest.{Source}
use sentinai_project.Sources.{
  bad_name, is_key, generate_key, prefix_of, name_end, is_name, is_source, key_text, rotate_row,
  touch, authenticate, authenticate_prefix, authenticate_row, is_touched, create_source, is_taken,
  rotate_key, revoke_source,
}
use sentinai_project.Sources.Keys.{prefix_of-generate_key}
use sentinai_project.Sources.Access.{
  IsAuthentic, authenticate-IsAuthentic, revoke_source-authenticate, rotate_key-authenticate,
}

abbrev identity : Text → Text
identity t = t

abbrev secret : Text
secret = codes "0123456789012345678901234567890123456789012"

abbrev key : Text
key = codes "snl_0000abcd_" ++ secret

abbrev shop : Source
shop = record {
  id = "s1";
  account_id = "a";
  name = codes "shop";
  key_prefix = codes "snl_0000abcd";
  key_hash = key;
  created_at = 1;
  created_by = none;
  revoked_at = none;
  last_used_at = none;
  last_event_at = none;
}

refused :
    (create_source identity (codes "0000abcd") secret "s2" 1 "a" (codes "Shop") none []).0
    ≡ err bad_name
unfolding create_source is_name
refused = refl

created :
    (create_source identity (codes "0000abcd") secret "s1" 1 "a" (codes "shop") none []).0
    ≡ ok (shop, key)
unfolding create_source is_name name_end is_taken generate_key
created = refl

prefix_of-generate_key_example :
    prefix_of (some (codes "snl_" ++ (codes "0000abcd" ++ (codes "_" ++ secret))))
    ≡ some (codes "snl_0000abcd")
unfolding generate_key
prefix_of-generate_key_example =
    prefix_of-generate_key identity (codes "0000abcd") secret (record { long = refl; clean = refl })
      (record { long = refl; clean = refl })

authenticate-IsAuthentic_example : IsAuthentic identity 9 (some key) (shop ∷ []) (touch 9 shop)
unfolding authenticate authenticate_prefix authenticate_row prefix_of is_key touch is_touched
authenticate-IsAuthentic_example = authenticate-IsAuthentic identity 9 (some key) (shop ∷ []) refl

abbrev other : Source
other = record shop {
  id = "s2";
  key_prefix = codes "snl_00000001";
  key_hash = codes "snl_00000001_" ++ secret;
}

-- The key of `other` still works when `shop` is revoked.
revoke_source-authenticate_example : is_source "a" "s1" (touch 9 other) ≡ false
unfolding authenticate authenticate_prefix authenticate_row prefix_of is_key touch is_touched
    revoke_source
revoke_source-authenticate_example =
    revoke_source-authenticate identity 5 9 "a" "s1" (some (codes "snl_00000001_" ++ secret))
      (shop ∷ other ∷ []) refl

abbrev new_key : Text × Text × Text
new_key = (codes "snl_ffff0000_" ++ secret, codes "snl_ffff0000", codes "snl_ffff0000_" ++ secret)

rotate_key-authenticate_example :
    let (reply, after) = rotate_key identity (codes "ffff0000") secret "a" "s1" (shop ∷ []) in
    (reply ≡ ok (some new_key.0))
    × ((authenticate identity 9 (some new_key.0) after).0
        ≡ some (touch 9 (rotate_row new_key.1 new_key.2 shop)))
    × ((k : Option Text) (s : Source)
        → (authenticate identity 9 k after).0 ≡ some s
        → is_source "a" "s1" s ≡ true
        → identity (key_text k) ≡ identity new_key.0)
unfolding generate_key prefix_of is_key
rotate_key-authenticate_example =
    rotate_key-authenticate identity (codes "ffff0000") secret 9 "a" "s1" (shop ∷ []) refl refl refl
      (refl, tt)
