-- ===== src/Channels.antt =====
-- The notification channels and the autonomy mode of AppState in src/core/state.py, with mask_url of
-- src/core/crypto.py and the queries of src/db/repository.py. Encryption, urlsplit and the check of a
-- URL are arguments.
pub mod Masked
mod Examples
use sentinai_project.Common.{
  ℕ, ◌+◌, ◌-◌, String, Option, none, some, or_else, is_some, Bool, true, false, List, [], ◌∷◌, ◌++◌,
  ◌&&◌, not, ltb, if◌then◌else◌, length, drop, filter_rows, find_row, update_where, str_eq, Text,
  codes, contains, is_member, Result, ok, err,
}

-- NotificationChannel of src/db/models.py.
pub record NotificationChannel : Type 0 where
  pub id : String
  pub account_id : String
  pub name : Text
  pub type_of : Text
  pub url_encrypted : Text
  pub severities : List Text
  pub enabled : Bool

-- encrypt and decrypt raise SecretKeyError, and validate_channel_url raises UnsafeUrlError, with none;
-- urlsplit gives scheme and netloc.
pub record Cipher : Type 0 where
  pub encrypt : Text → Option Text
  pub decrypt : Text → Option Text
  pub urlsplit : Text → Text × Text
  pub is_safe : Text → Bool

pub record ChannelView : Type 0 where
  pub id : String
  pub name : Text
  pub type_of : Text
  pub url : Text
  pub severities : List Text
  pub enabled : Bool

pub record Updates : Type 0 where
  pub name : Option Text
  pub severities : Option (List Text)
  pub enabled : Option Bool
  pub url : Option Text

pub data ChannelError : Type 0 where
  no_account unsafe_url no_key : ChannelError

-- MASK_MARK, the ellipsis.
abbrev pub mask_mark : Text
mask_mark = 0x2026 ∷ []

abbrev pub is_empty : Text → Bool
is_empty [] = true
is_empty (c ∷ s) = false

unfoldable pub mask_url : Cipher → Text → Text
mask_url k url =
    let (scheme, netloc) = k.urlsplit url in
    let tail = if ltb 16 (length url) then drop (length url - 4) url else [] in
    if not (is_empty scheme) && not (is_empty netloc)
    then scheme ++ (codes "://" ++ (netloc ++ (codes "/" ++ (mask_mark ++ tail))))
    else mask_mark ++ tail

abbrev pub channel_view : NotificationChannel → Text → ChannelView
channel_view row url = record {
  id = row.id;
  name = row.name;
  type_of = row.type_of;
  url = url;
  severities = row.severities;
  enabled = row.enabled;
}

abbrev masked_or : Cipher → Option Text → Text
masked_or k none = codes "(encrypted)"
masked_or k (some url) = mask_url k url

unfoldable pub masked_url : Cipher → NotificationChannel → Text
masked_url k row = masked_or k (k.decrypt row.url_encrypted)

abbrev pub is_channel : String → String → NotificationChannel → Bool
is_channel account channel_id r = str_eq r.account_id account && str_eq r.id channel_id

-- list_channels: the table is in the order of creation.
abbrev pub of_account : String → NotificationChannel → Bool
of_account account r = str_eq r.account_id account

unfoldable masked_views : Cipher → List NotificationChannel → List ChannelView
masked_views k [] = []
masked_views k (r ∷ rows) = channel_view r (masked_url k r) ∷ masked_views k rows

-- Without an account the list is empty.
unfoldable pub channels : Cipher → Option String → List NotificationChannel → List ChannelView
unfolding masked_views
channels k none table = []
channels k (some account) table = masked_views k (filter_rows (of_account account) table)

abbrev with_url : NotificationChannel → Option Text → List ChannelView → List ChannelView
with_url r none views = views
with_url r (some url) views = channel_view r url ∷ views

unfoldable pub real_views : Cipher → List NotificationChannel → List ChannelView
real_views k [] = []
real_views k (r ∷ rows) = with_url r (k.decrypt r.url_encrypted) (real_views k rows)

unfoldable pub delivery_channels :
    Cipher → Option String → List NotificationChannel → List ChannelView
unfolding real_views
delivery_channels k none table = []
delivery_channels k (some account) table = real_views k (filter_rows (of_account account) table)

-- The row of the data, with the token and the id that the database makes.
unfoldable pub add_encrypted :
    Cipher
    → Option String
    → String
    → ChannelView
    → List NotificationChannel
    → Option Text
    → Result ChannelError ChannelView × List NotificationChannel
add_encrypted k account row_id given table none = (err no_key, table)
add_encrypted k none row_id given table (some token) = (err no_account, table)
add_encrypted k (some account) row_id given table (some token) =
    let row : NotificationChannel = record {
      id = row_id;
      account_id = account;
      name = given.name;
      type_of = given.type_of;
      url_encrypted = token;
      severities = given.severities;
      enabled = given.enabled;
    } in
    (ok (channel_view row (mask_url k given.url)), table ++ row ∷ [])

unfoldable pub add_channel :
    Cipher
    → Option String
    → String
    → ChannelView
    → List NotificationChannel
    → Result ChannelError ChannelView × List NotificationChannel
unfolding add_encrypted
add_channel k account row_id given table =
    if not (k.is_safe given.url)
    then (err unsafe_url, table)
    else add_encrypted k account row_id given table (k.encrypt given.url)

abbrev token_of : Option Text → Result ChannelError Text
token_of none = err no_key
token_of (some token) = ok token

-- A masked URL sent back by a client keeps the token.
unfoldable pub new_token : Cipher → Text → Option Text → Result ChannelError Text
new_token k token none = ok token
new_token k token (some url) =
    if contains mask_mark url
    then ok token
    else if not (k.is_safe url)
    then err unsafe_url
    else token_of (k.encrypt url)

abbrev pub edited : Updates → Text → NotificationChannel → NotificationChannel
edited u token r = record r {
  name = or_else u.name r.name;
  severities = or_else u.severities r.severities;
  enabled = or_else u.enabled r.enabled;
  url_encrypted = token;
}

-- The commit, which an exception does not reach.
unfoldable pub save_edited :
    Cipher
    → String
    → String
    → Updates
    → List NotificationChannel
    → NotificationChannel
    → Result ChannelError Text
    → Result ChannelError (Option ChannelView) × List NotificationChannel
save_edited k account channel_id u table r (err e) = (err e, table)
save_edited k account channel_id u table r (ok token) = (
  ok (some (channel_view (edited u token r) (masked_url k (edited u token r)))),
  update_where (is_channel account channel_id) (edited u token) table,
)

unfoldable pub edit_found :
    Cipher
    → String
    → String
    → Updates
    → List NotificationChannel
    → Option NotificationChannel
    → Result ChannelError (Option ChannelView) × List NotificationChannel
unfolding save_edited new_token
edit_found k account channel_id u table none = (ok none, table)
edit_found k account channel_id u table (some r) =
    save_edited k account channel_id u table r (new_token k r.url_encrypted u.url)

unfoldable pub update_channel :
    Cipher
    → Option String
    → String
    → Updates
    → List NotificationChannel
    → Result ChannelError (Option ChannelView) × List NotificationChannel
unfolding edit_found
update_channel k none channel_id u table = (err no_account, table)
update_channel k (some account) channel_id u table =
    edit_found k account channel_id u table (find_row (is_channel account channel_id) table)

unfoldable pub delete_channel :
    Option String
    → String
    → List NotificationChannel
    → Result ChannelError Bool × List NotificationChannel
delete_channel none channel_id table = (err no_account, table)
delete_channel (some account) channel_id table = (
  ok (is_some (find_row (is_channel account channel_id) table)),
  filter_rows (λ r. not (is_channel account channel_id r)) table,
)

abbrev pub autonomy_modes : List Text
autonomy_modes = codes "propose_only" ∷ codes "auto_pr" ∷ []

-- current_autonomy_mode, with the mode that is remembered and what the database gives: none where it
-- fails or has none.
unfoldable pub current_autonomy_mode : Text → Option Text → Text
current_autonomy_mode remembered none = remembered
current_autonomy_mode remembered (some stored) =
    if is_member stored autonomy_modes then stored else remembered
