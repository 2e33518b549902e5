-- ===== src/ShardUpload/Atomic.antt =====
-- The transaction of `upload_shard`.
use open_weights.Base.{
  ℕ, ◌≡◌, ◌⊎◌, refl, ap, sym, subst, ◌∙◌, Bool, true, false, none, some, List, [], ◌∷◌, ◌++◌,
  if◌then◌else◌,
}
use open_weights.Coalesce.{Hash}
use open_weights.ShardParse.{ParsedFile, ParsedTerm}
use open_weights.Store.{
  AuthContext, FileRow, TermRow, UsageRow, pinning, shard_upload, Db, World, Result, ok, err, pure,
  ◌>>◌,
}
use open_weights.Store.Xorbs.{is_none}
use open_weights.Store.Shards.{find_shard, new_shard, record_shard_upload}
use open_weights.Store.Inserted.{HasFiles, HasTerms, find_shard-append, query-done}
use open_weights.Auth.Runs.{ok-injective, run_elim}

module _ (ctx : AuthContext) (h : Hash) (size : ℕ) where
  -- The line of the usage log.
  abbrev upload_row : UsageRow
  upload_row = record {
    event = shard_upload;
    api_key_id = ctx.api_key_id;
    user_id = ctx.user_id;
    xorb_hash = none;
    shard_hash = some h;
    file_id = none;
    bytes = some size;
  }

  abbrev log_upload : Db → Unit {0} × Db
  log_upload d = (tt, record d { usage_log = d.usage_log ++ upload_row ∷ [] })

  -- The shard was not in the tables `d`. In `d'` it is, as one that is being pinned, each of its files
  -- and terms has a row, and its upload is the last line of the usage log.
  pub record IsStored (files : List ParsedFile) (terms : List ParsedTerm) (d d' : Db) : Type 0 where
    pub is_new : find_shard h d.shards ≡ none
    pub row :
        find_shard h d'.shards
        ≡ some (record {
          shard_hash = h;
          sia_object_id = none;
          size_bytes = size;
          owner_user_id = ctx.user_id;
          owner_api_key_id = ctx.api_key_id;
          pin_state = pinning;
          pin_attempts = 0;
          last_pin_attempt_at = none;
        })
    pub files_stored : HasFiles files d'.reconstruction_files
    pub terms_stored : HasTerms terms d'.reconstruction_terms
    pub metered : d'.usage_log ≡ d.usage_log ++ upload_row ∷ []

  -- What an answer of the transaction says of the tables before and after it.
  abbrev pub IsCommitted : List ParsedFile → List ParsedTerm → Result Bool → Db → Db → Type 0
  IsCommitted files terms (ok true) d d' = IsStored files terms d d'
  IsCommitted files terms (ok false) d d' = (d' ≡ d) × (is_none (find_shard h d.shards) ≡ false)
  IsCommitted files terms (err e) d d' = (d' ≡ d) ⊎ IsStored files terms d d'

  module _ (files : List ParsedFile) (terms : List ParsedTerm) where
    abbrev inserted : Db → List FileRow → List TermRow → Db
    inserted d file_rows term_rows = record d {
      shards = d.shards ++ new_shard h size ctx.user_id ctx.api_key_id ∷ [];
      reconstruction_files = file_rows;
      reconstruction_terms = term_rows;
    }

    -- What `insert_shard_with_reconstruction` has done where it answers `was`.
    abbrev HasInserted : Bool → Db → Db → Type 0
    HasInserted true d d' =
        (file_rows : List FileRow) × (term_rows : List TermRow) × (find_shard h d.shards ≡ none)
        × (d' ≡ inserted d file_rows term_rows)
        × HasFiles files file_rows
        × HasTerms terms term_rows
    HasInserted false d d' = (d' ≡ d) × (is_none (find_shard h d.shards) ≡ false)

    metered :
        (was b : Bool) (d : Db) (v v' : World)
        → HasInserted was d v.tables
        → (if was then (record_shard_upload ctx h size >> pure true) else pure false) v ≡ (ok b, v')
        → IsCommitted files terms (ok b) d v'.tables
    unfolding record_shard_upload new_shard
    metered true b d v v' (file_rows, term_rows, new, added, fs, ts) e =
        run_elim (record_shard_upload ctx h size) (λ _. pure true) v e
          λ _ u run last.
            let logged = (query-done log_upload v u tt run).1 in
            subst (λ b. IsCommitted files terms (ok b) d v'.tables)
              (ok-injective _ _ (ap (λ r. r.0) last))
              (subst (λ x. IsStored files terms d x.tables) (ap (λ r. r.1) last)
                (subst (λ x. IsStored files terms d x) logged
                  (rw added (record {
                    is_new = new;
                    row =
                        find_shard-append h d.shards (new_shard h size ctx.user_id ctx.api_key_id)
                          new refl;
                    files_stored = fs;
                    terms_stored = ts;
                    metered = refl;
                  }))))
    metered false b d v v' (same, known) e =
        subst (λ b. IsCommitted files terms (ok b) d v'.tables) (ok-injective _ _ (ap (λ r. r.0) e))
          (sym (ap (λ r. (r.1).tables) e) ∙ same, known)
