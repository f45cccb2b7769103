-- ===== src/Channels/Masked.antt =====
-- What becomes of a URL between the form that is shown and the one that is stored.
use sentinai_project.Common.{
  ◌-◌, ◌≡◌, refl, ap, ◌∙◌, arith, String, Option, none, some, or_else, Bool, true, ◌&&◌, not, List,
  [], ◌∷◌, ◌++◌, ltb, if◌then◌else◌, length, drop, filter_rows, find_row, Text, codes, contains,
  Bool-cases, Option-cases, inl, inr, find_row-update_where, map_some, eq_refl,
}
use sentinai_project.Channels.{
  NotificationChannel, Cipher, ChannelView, Updates, mask_mark, mask_url, is_empty, masked_url,
  is_channel, new_token, edited, save_edited, edit_found, update_channel, add_channel,
  add_encrypted, channel_view, of_account, delivery_channels, real_views,
}

contains_behind : (p s : Text) → contains mask_mark s ≡ true → contains mask_mark (p ++ s) ≡ true
contains_behind [] s h = h
contains_behind (c ∷ p) s h = ground (arith, contains_behind p s h)

-- What is shown for a URL has the mark in it.
mask_url-mark : (k : Cipher) (url : Text) → contains mask_mark (mask_url k url) ≡ true
unfolding mask_url
mask_url-mark k url =
    let (scheme, netloc) = k.urlsplit url in
    let tail = if ltb 16 (length url) then drop (length url - 4) url else [] in
    let end = codes "/" ++ (mask_mark ++ tail) in
    elim (Bool-cases (not (is_empty scheme) && not (is_empty netloc))) [
      | inl e ↦ rw e (
          contains_behind scheme (codes "://" ++ (netloc ++ end))
            (contains_behind (codes "://") (netloc ++ end) (contains_behind netloc end refl)))
      | inr e ↦ rw e refl
    ]

-- A field that an update may name: the value that it names, or else the old one.
pub record IsUpdated {ℓ} {A : Type ℓ} (given : Option A) (old new : A) : Type ℓ where
  pub named : (v : A) → given ≡ some v → new ≡ v
  pub unnamed : given ≡ none → new ≡ old

-- A row with the changes of an update, and with its URL and what identifies it as they were.
pub record IsRenamed (u : Updates) (old new : NotificationChannel) : Type 0 where
  pub id : new.id ≡ old.id
  pub account : new.account_id ≡ old.account_id
  pub type_of : new.type_of ≡ old.type_of
  pub url : new.url_encrypted ≡ old.url_encrypted
  pub name : IsUpdated u.name old.name new.name
  pub severities : IsUpdated u.severities old.severities new.severities
  pub enabled : IsUpdated u.enabled old.enabled new.enabled

or_else-IsUpdated {ℓ} :
    {A : Type ℓ} (given : Option A) (old : A) → IsUpdated given old (or_else given old)
or_else-IsUpdated none old = record { named = λ v h. cc; unnamed = λ _. refl }
or_else-IsUpdated (some v) old = record { named = λ v' h. cc; unnamed = λ h. cc }

edited-IsRenamed :
    (u : Updates) (r : NotificationChannel) → IsRenamed u r (edited u r.url_encrypted r)
edited-IsRenamed u r = record {
  id = refl;
  account = refl;
  type_of = refl;
  url = refl;
  name = or_else-IsUpdated u.name r.name;
  severities = or_else-IsUpdated u.severities r.severities;
  enabled = or_else-IsUpdated u.enabled r.enabled;
}

-- If a channel is there and its URL can be decrypted, then after an update that sends the masked
-- URL back as it was shown the channel is there with the same id, account, type and encrypted URL;
-- its name, severities and enabled flag are the update's where it names them, and as before where
-- it does not.
pub update_channel-masked :
    (k : Cipher) (account channel_id : String) (u : Updates) (table : List NotificationChannel)
    {r : NotificationChannel} {url : Text}
    → find_row (is_channel account channel_id) table ≡ some r
    → k.decrypt r.url_encrypted ≡ some url
    → u.url ≡ some (masked_url k r)
    → (row : NotificationChannel) × (find_row
          (is_channel account channel_id)
          (update_channel k (some account) channel_id u table).1
        ≡ some row)
      × IsRenamed u r row
unfolding update_channel edit_found save_edited new_token masked_url
update_channel-masked k account channel_id u table {r} {url} h d e = (
  edited u r.url_encrypted r,
  rw (h, e, d, mask_url-mark k url)
      (find_row-update_where (is_channel account channel_id) (edited u r.url_encrypted) table
          (λ x s. s)
        ∙ ap (map_some (edited u r.url_encrypted)) h),
  edited-IsRenamed u r,
)

-- A row whose URL can be decrypted is delivered, behind the others.
real_views-append :
    (k : Cipher) (rows : List NotificationChannel) (r : NotificationChannel) {url : Text}
    → k.decrypt r.url_encrypted ≡ some url
    → real_views k (rows ++ r ∷ []) ≡ real_views k rows ++ channel_view r url ∷ []
unfolding real_views
real_views-append k [] r h = rw h refl
real_views-append k (x ∷ rows) r {url} h = elim (Option-cases (k.decrypt x.url_encrypted)) [
  | inl e ↦ rw e (real_views-append k rows r h)
  | inr (t, e) ↦ rw e (ap (λ vs. channel_view x t ∷ vs) (real_views-append k rows r h))
]

filter_rows-snoc :
    (p : NotificationChannel → Bool) (rows : List NotificationChannel) (r : NotificationChannel)
    → p r ≡ true
    → filter_rows p (rows ++ r ∷ []) ≡ filter_rows p rows ++ r ∷ []
filter_rows-snoc p [] r h = rw h refl
filter_rows-snoc p (x ∷ rows) r h = elim (Bool-cases (p x)) [
  | inl e ↦ rw e (ap (λ rs. x ∷ rs) (filter_rows-snoc p rows r h))
  | inr e ↦ rw e (filter_rows-snoc p rows r h)
]

-- If the URL is safe and what encrypt makes of it can be decrypted, an added channel is delivered
-- with its URL behind the others.
pub add_channel-delivered :
    (k : Cipher) (account row_id : String) (given : ChannelView) (table : List NotificationChannel)
    {token : Text}
    → k.is_safe given.url ≡ true
    → k.encrypt given.url ≡ some token
    → k.decrypt token ≡ some given.url
    → delivery_channels k (some account) (add_channel k (some account) row_id given table).1
      ≡ delivery_channels k (some account) table ++ record given { id = row_id } ∷ []
unfolding add_channel add_encrypted delivery_channels
add_channel-delivered k account row_id given table {token} s e d =
    let row : NotificationChannel = record {
      id = row_id;
      account_id = account;
      name = given.name;
      type_of = given.type_of;
      url_encrypted = token;
      severities = given.severities;
      enabled = given.enabled;
    } in
    rw (s, e, filter_rows-snoc (of_account account) table row (eq_refl account))
      (real_views-append k (filter_rows (of_account account) table) row d)
