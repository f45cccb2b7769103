-- ===== src/Channels/Examples.antt =====
-- A channel that is added, shown, and sent back as it was shown.
use sentinai_project.Common.{◌≡◌, refl, some, none, true, false, [], ◌∷◌, ◌++◌, codes, find_row}
use sentinai_project.Channels.{
  NotificationChannel, Cipher, ChannelView, Updates, mask_mark, mask_url, masked_url, is_channel,
  update_channel, delete_channel, current_autonomy_mode,
}
use sentinai_project.Channels.Masked.{IsRenamed, update_channel-masked}

abbrev cipher : Cipher
cipher = record {
  encrypt = λ t. some (0 ∷ t);
  decrypt = λ t. elim t [ [] ↦ none | ◌∷◌ _ s ↦ some s ];
  urlsplit = λ _. (codes "https", codes "h.io");
  is_safe = λ _. true;
}

abbrev hook : ChannelView
hook = record {
  id = "";
  name = codes "ops";
  type_of = codes "slack";
  url = codes "https://h.io/a/secret";
  severities = codes "critical" ∷ [];
  enabled = true;
}

abbrev row : NotificationChannel
row = record {
  id = "c1";
  account_id = "a";
  name = codes "ops";
  type_of = codes "slack";
  url_encrypted = 0 ∷ codes "https://h.io/a/secret";
  severities = codes "critical" ∷ [];
  enabled = true;
}

shown :
    mask_url cipher (codes "https://h.io/a/secret")
    ≡ codes "https://h.io/" ++ (mask_mark ++ codes "cret")
unfolding mask_url
shown = refl

gone : (delete_channel (some "a") "c1" (row ∷ [])).1 ≡ []
unfolding delete_channel
gone = refl

kept_mode : current_autonomy_mode (codes "auto_pr") (some (codes "x")) ≡ codes "auto_pr"
unfolding current_autonomy_mode
kept_mode = refl

abbrev renamed : Updates
renamed = record {
  name = some (codes "team");
  severities = none;
  enabled = some false;
  url = some (codes "https://h.io/" ++ (mask_mark ++ codes "cret"));
}

update_channel-masked_example :
    (r : NotificationChannel) × (find_row
        (is_channel "a" "c1")
        (update_channel cipher (some "a") "c1" renamed (row ∷ [])).1
      ≡ some r)
    × IsRenamed renamed row r
unfolding masked_url mask_url
update_channel-masked_example =
    update_channel-masked cipher "a" "c1" renamed (row ∷ []) refl refl refl
