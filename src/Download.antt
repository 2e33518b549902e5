-- ===== src/Download.antt =====
-- The handlers of cas/crates/openweights-cas-core/src/handlers/reconstruction.rs and
-- reconstruction_v2.rs, from the request to the metered response. `hex` and the signer are as for
-- the builders; the extractor has already let `ctx` pass.
pub mod Request
pub mod Pinned
mod Tests
use open_weights.Base.{
  ℕ, ◌/◌, Bool, true, false, Option, none, some, List, [], ◌∷◌, leb, if◌then◌else◌, Str, BTreeMap,
}
use open_weights.Base.Maps.{get, insert, nat_ord, str_ord}
use open_weights.Coalesce.{Hash}
use open_weights.Hex.{decode_file_id_hex}
use open_weights.Reconstruction.{
  UrlMinter, ReconstructionRow, QueryReconstructionResponse, build_response,
}
use open_weights.ReconstructionV2.{QueryReconstructionResponseV2, build_v2_response}
use open_weights.RateLimit.{RateLimitClass, RateLimitDefaults}
use open_weights.Store.{
  AuthContext, World, ok, bad_request, not_found, range_not_satisfiable, reconstruction, M, pure,
  throw, ◌>>=◌, ◌>>◌, ignore, check,
}
use open_weights.Store.Shards.{log_usage, record_reconstruction}
use open_weights.Store.Files.{get_reconstruction, get_reconstructions_batch}
use open_weights.Download.Request.{reconstruction_range_start, parse_file_id_query}

abbrev pub unix_now : M ℕ
unix_now w = (ok (w.now_ms / 1000), w)

abbrev pub unwrap_or_else : {A : Type 0} → Option A → A → A
unwrap_or_else none a = a
unwrap_or_else (some a) b = a

abbrev pub ok_or : {A : Type 0} → Option A → M A → M A
ok_or none e = e
ok_or (some a) e = pure a

-- Step (3a): a range that starts at or after the end of the file.
unfoldable pub check_range : Option Str → ℕ → M (Unit {0})
unfolding reconstruction_range_start
check_range range total_size = elim (reconstruction_range_start range) [
  | none ↦ pure tt
  | some start ↦ if leb total_size start then throw range_not_satisfiable else pure tt
]

-- Where the handler for version 2 sends 501, or its response.
pub data ResponseV2 : Type 0 where
  flag_off : ResponseV2
  response : QueryReconstructionResponseV2 → ResponseV2

-- The statement of `record_usage_reconstruction_v2`.
unfoldable pub record_usage_reconstruction_v2 : AuthContext → Hash → M (Unit {0})
record_usage_reconstruction_v2 ctx file_id = log_usage (record {
  event = reconstruction;
  api_key_id = ctx.api_key_id;
  user_id = ctx.user_id;
  xorb_hash = some file_id;
  shard_hash = none;
  file_id = none;
  bytes = some 0;
})

-- Step (1) of the batch handler.
unfoldable pub decode_all : List Str → Option (List (Hash × Str))
decode_all [] = some []
decode_all (s ∷ ss) = elim (decode_file_id_hex s) [
  | none ↦ none
  | some h ↦ elim (decode_all ss) [ none ↦ none | some hs ↦ some ((h, s) ∷ hs) ]
]

unfoldable pub ids_of : List (Hash × Str) → List Hash
ids_of [] = []
ids_of ((h, s) ∷ hs) = h ∷ ids_of hs

unfoldable pub hex_for_id : BTreeMap Hash Str → List (Hash × Str) → BTreeMap Hash Str
hex_for_id m [] = m
hex_for_id m ((h, s) ∷ hs) = hex_for_id (insert h s m) hs

module _ (hex : Hash → Str) (signer : UrlMinter) (d : RateLimitDefaults) (ctx : AuthContext) where
  -- Both handlers' steps from the database on: the row, once the range is checked.
  unfoldable pub fetch_row : Hash → Option Str → M ReconstructionRow
  unfolding get_reconstruction check_range
  fetch_row file_id range = do
    found ← get_reconstruction file_id
    row ← ok_or found (throw not_found)
    check_range range row.file.total_size
    pure row

  unfoldable pub query_reconstruction_v1 : Str → Option Str → M QueryReconstructionResponse
  unfolding decode_file_id_hex fetch_row build_response record_reconstruction
  query_reconstruction_v1 file_id_hex range = do
    file_id ← ok_or (decode_file_id_hex file_id_hex) (throw (bad_request "invalid_file_id"))
    check d RateLimitClass.download ctx.api_key_id
    row ← fetch_row file_id range
    now ← unix_now
    ignore (record_reconstruction ctx file_id)
    pure (build_response hex signer ctx.api_key_id now row)

  -- After the flag gate.
  unfoldable pub answer_v2 : Str → Option Str → M ResponseV2
  unfolding decode_file_id_hex fetch_row build_v2_response record_usage_reconstruction_v2
  answer_v2 file_id_hex range = do
    file_id ← ok_or (decode_file_id_hex file_id_hex) (throw (bad_request "invalid_file_id"))
    row ← fetch_row file_id range
    now ← unix_now
    ignore (record_usage_reconstruction_v2 ctx file_id)
    pure (response (build_v2_response hex signer ctx.api_key_id now row))

  unfoldable pub query_reconstruction_v2 : Bool → Str → Option Str → M ResponseV2
  unfolding answer_v2
  query_reconstruction_v2 enabled file_id_hex range = do
    check d RateLimitClass.download ctx.api_key_id
    if enabled then answer_v2 file_id_hex range else pure flag_off

  -- Step (4) of the batch handler: the loop over the rows.
  unfoldable pub answer_rows :
      ℕ
      → BTreeMap Hash Str
      → List ReconstructionRow
      → BTreeMap Str QueryReconstructionResponse
      → M (BTreeMap Str QueryReconstructionResponse)
  unfolding build_response record_reconstruction
  answer_rows now names [] out = pure out
  answer_rows now names (row ∷ rows) out =
      let name = unwrap_or_else (get row.file.file_id names) (hex row.file.file_id) in
      let resp = build_response hex signer ctx.api_key_id now row in
      ignore (record_reconstruction ctx row.file.file_id)
      >> answer_rows now names rows (insert name resp out)

  unfoldable pub query_reconstructions_batch_v1 :
      Option Str → M (BTreeMap Str QueryReconstructionResponse)
  unfolding decode_all get_reconstructions_batch answer_rows parse_file_id_query
  query_reconstructions_batch_v1 raw = do
    let params = parse_file_id_query (unwrap_or_else raw [])
    ids ← ok_or (decode_all params) (throw (bad_request "invalid_file_id"))
    check d RateLimitClass.download ctx.api_key_id
    rows ← get_reconstructions_batch (ids_of ids)
    now ← unix_now
    answer_rows now (hex_for_id [] ids) rows []
