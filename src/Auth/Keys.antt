-- ===== src/Auth/Keys.antt =====
-- cas/crates/openweights-cas-core/src/handlers/admin/keys.rs: the keys of a session's user, whose id
-- is an argument.
use open_weights.Base.{
  ℕ, Bool, false, ◌&&◌, ◌||◌, Option, none, some, List, [], ◌∷◌, ◌++◌, map, ◌==◌, ltb,
  if◌then◌else◌, Str, length, take,
}
use open_weights.ShardParse.{is_empty}
use open_weights.Store.{
  Uuid, ApiKeyScope, upload, download, ok, err, bad_request, not_found, db, other,
}
use open_weights.Auth.{
  codes, ApiKeyRow, AuthCrates, AuthState, A, pure, throw, ◌>>=◌, ◌>>◌, of_option, query,
  contains_scope,
}
use open_weights.Auth.Cache.{is_none}
use open_weights.Auth.XetJwt.{find_by_hash}

pub data ConsoleScope : Type 0 where
  read write read_write admin : ConsoleScope

unfoldable pub to_db_scopes : ConsoleScope → List ApiKeyScope
to_db_scopes read = download ∷ []
to_db_scopes write = upload ∷ []
to_db_scopes read_write = download ∷ upload ∷ []
to_db_scopes ConsoleScope.admin = ApiKeyScope.admin ∷ []

unfoldable pub from_db_scopes : List ApiKeyScope → ConsoleScope
from_db_scopes scopes =
    if contains_scope ApiKeyScope.admin scopes
    then ConsoleScope.admin
    else if contains_scope upload scopes && contains_scope download scopes
    then read_write
    else if contains_scope upload scopes
    then write
    else read

pub record CreateKeyResponse : Type 0 where
  pub id : Uuid
  pub name : Str
  pub scope : ConsoleScope
  pub masked_prefix : Str
  pub plaintext_key : Str
  pub created_at : ℕ

pub record KeyListItem : Type 0 where
  pub id : Uuid
  pub name : Option Str
  pub scope : ConsoleScope
  pub masked_prefix : Option Str
  pub created_at : ℕ
  pub last_used_at : Option ℕ

unfoldable pub item_of : ApiKeyRow → KeyListItem
item_of r = record {
  id = r.id;
  name = r.label;
  scope = from_db_scopes r.scopes;
  masked_prefix = r.masked_prefix;
  created_at = r.created_at;
  last_used_at = r.last_used_at;
}

-- `ORDER BY created_at DESC`
unfoldable pub insert_newest : ApiKeyRow → List ApiKeyRow → List ApiKeyRow
insert_newest r [] = r ∷ []
insert_newest r (q ∷ rows) =
    if ltb r.created_at q.created_at then q ∷ insert_newest r rows else r ∷ q ∷ rows

unfoldable pub keys_of : ℕ → List ApiKeyRow → List ApiKeyRow
unfolding insert_newest
keys_of user_id [] = []
keys_of user_id (r ∷ rows) =
    let rest = keys_of user_id rows in
    if r.user_id == user_id && is_none r.revoked_at then insert_newest r rest else rest

-- Whether the statement of `revoke_key` touches the row.
abbrev pub is_revocable : Uuid → ℕ → ApiKeyRow → Bool
is_revocable id user_id r = r.id == id && (r.user_id == user_id && is_none r.revoked_at)

unfoldable pub revoke_rows : Uuid → ℕ → ℕ → List ApiKeyRow → List ApiKeyRow
revoke_rows id user_id now [] = []
revoke_rows id user_id now (r ∷ rows) =
    (if is_revocable id user_id r then record r { revoked_at = some now } else r)
    ∷ revoke_rows id user_id now rows

unfoldable pub revocable : Uuid → ℕ → List ApiKeyRow → Bool
revocable id user_id [] = false
revocable id user_id (r ∷ rows) = is_revocable id user_id r || revocable id user_id rows

abbrev pub response_of : ApiKeyRow → Str → ConsoleScope → Str → CreateKeyResponse
response_of row name scope plaintext = record {
  id = row.id;
  name = name;
  scope = scope;
  masked_prefix = take 8 plaintext ++ codes "...";
  plaintext_key = plaintext;
  created_at = row.created_at;
}

module _ {Lru : Type 0} (c : AuthCrates Lru) where
  unfoldable pub new_row : ℕ → Str → ConsoleScope → Str → AuthState Lru → ApiKeyRow
  new_row user_id name scope plaintext w = record {
    id = c.gen_random_uuid w.api_keys;
    user_id = user_id;
    key_hash = c.sha256 plaintext;
    scopes = to_db_scopes scope;
    label = some name;
    masked_prefix = some (take 8 plaintext ++ codes "...");
    created_at = w.now_unix;
    revoked_at = none;
    last_used_at = none;
  }

  -- The hash is unique in the table.
  unfoldable pub insert_absent : ApiKeyRow → Option ApiKeyRow → A Lru (Unit {0})
  insert_absent row (some _) w = (err db, w)
  insert_absent row none w = (ok tt, record w { api_keys = w.api_keys ++ row ∷ [] })

  unfoldable pub insert_key : ApiKeyRow → A Lru (Unit {0})
  insert_key row w = insert_absent row (find_by_hash row.key_hash w.api_keys) w

  unfoldable pub create_row : ℕ → Str → ConsoleScope → Str → A Lru CreateKeyResponse
  create_row user_id name scope plaintext = query λ w.
      let row = new_row user_id name scope plaintext w in
      (insert_key row >> pure (response_of row name scope plaintext)) w

  -- `raw` is what `getrandom` gives.
  unfoldable pub create_key : ℕ → Str → ConsoleScope → Option Str → A Lru CreateKeyResponse
  create_key user_id requested scope raw =
      let name = c.trim requested in
      if is_empty name
      then throw (bad_request "name must not be empty")
      else if ltb 80 (length name)
      then throw (bad_request "name must be <= 80 chars")
      else (of_option other raw >>= λ bytes. create_row user_id name scope (c.b64_url_encode bytes))

  unfoldable pub list_keys : ℕ → A Lru (List KeyListItem)
  list_keys user_id = query λ w. (ok (map item_of (keys_of user_id w.api_keys)), w)

  unfoldable pub revoke_key : ℕ → Uuid → A Lru (Unit {0})
  revoke_key user_id id = query λ w.
      if revocable id user_id w.api_keys
      then (ok tt, record w { api_keys = revoke_rows id user_id w.now_unix w.api_keys })
      else (err not_found, w)
