-- ===== src/XorbUpload/Durable.antt =====
-- `upload_xorb` and the rule that a pinned row has the id of its Sia object.
use open_weights.Base.{
  ℕ, true, false, Option, none, some, List, [], ◌∷◌, ◌++◌, ◌⊎◌, inl, inr, length, ltb,
  if◌then◌else◌, Str, arith,
}
use open_weights.Coalesce.{Hash}
use open_weights.ShardParse.{Bytes}
use open_weights.RateLimit.{RateLimitDefaults, RateLimitClass}
use open_weights.Store.{
  AuthContext, World, SiaReply, accepted, refused, timed_out, unavailable, other_failure, other,
  pinned, pinning, M, pure, throw, ignore, ◌>>◌, check, upload_and_pin, bad_request, hash_mismatch,
}
use open_weights.Store.Xorbs.{set_pin_state, insert_pending}
use open_weights.Store.Shards.{record_xorb_upload, has_body}
use open_weights.Store.Preserves.{
  Preserves, run-Preserves, query-Preserves, pure-Preserves, throw-Preserves, bind-Preserves,
  if-Preserves, ignore-Preserves, check-Preserves, upload_and_pin-Preserves,
}
use open_weights.Store.Durable.{
  IsDurable, set_xorb_state-IsDurable, insert_pending-IsDurable, log_usage-IsDurable,
}
use open_weights.XorbUpload.{
  XorbCodec, UploadXorbResponse, insert_body, settle_xorb, pin_body, answer_known, store_xorb,
  upload_xorb, parse_path, max_xorb_bytes, verify_body, compute_xorb_hash_and_boundaries,
}

record_xorb_upload-IsDurable :
    (ctx : AuthContext) (h : Hash) (size : ℕ)
    → Preserves IsDurable (ignore (record_xorb_upload ctx h size))
unfolding record_xorb_upload
record_xorb_upload-IsDurable ctx h size = ignore-Preserves IsDurable _ (log_usage-IsDurable _)

insert_body-IsDurable : (h : Hash) (body : Bytes) → Preserves IsDurable (insert_body h body)
unfolding insert_body IsDurable
insert_body-IsDurable h body =
    query-Preserves IsDurable
      (λ d. (
        tt,
        if has_body h d.xorb_bodies
            then d
            else record d { xorb_bodies = d.xorb_bodies ++ (h, body) ∷ [] },
      ))
      λ d q. ground (arith, q)

module _ (ctx : AuthContext) (h : Hash) (size : ℕ) where
  -- The row keeps 'pinning', and the xorb is answered as inserted.
  pending-IsDurable : Preserves IsDurable {A = UploadXorbResponse} (
      ignore (set_pin_state h pinning none)
      >> ignore (record_xorb_upload ctx h size)
      >> pure (record { was_inserted = true }))
  pending-IsDurable =
      bind-Preserves IsDurable _ _
        (bind-Preserves IsDurable (ignore (set_pin_state h pinning none)) _
          (ignore-Preserves IsDurable _ (set_xorb_state-IsDurable h pinning none (ground arith)))
          λ _. record_xorb_upload-IsDurable ctx h size)
        λ _. pure-Preserves IsDurable (record { was_inserted = true })

  settle_xorb-IsDurable : (reply : SiaReply) → Preserves IsDurable (settle_xorb ctx h size reply)
  unfolding settle_xorb
  settle_xorb-IsDurable (accepted oid) =
      bind-Preserves IsDurable _ _
        (bind-Preserves IsDurable (set_pin_state h pinned (some oid)) _
          (set_xorb_state-IsDurable h pinned (some oid) (ground arith))
          λ _. record_xorb_upload-IsDurable ctx h size)
        λ _. pure-Preserves IsDurable (record { was_inserted = true })
  settle_xorb-IsDurable (refused unavailable) = pending-IsDurable
  settle_xorb-IsDurable (refused other_failure) =
      bind-Preserves IsDurable (ignore (set_pin_state h pinning none)) _
        (ignore-Preserves IsDurable _ (set_xorb_state-IsDurable h pinning none (ground arith)))
        λ _. throw-Preserves IsDurable _ other
  settle_xorb-IsDurable timed_out = pending-IsDurable

module _ (d : RateLimitDefaults) (ctx : AuthContext) (h : Hash) (body : Bytes) where
  pin_body-IsDurable : Preserves IsDurable (pin_body ctx h body)
  unfolding pin_body
  pin_body-IsDurable =
      bind-Preserves IsDurable (ignore (insert_body h body)) _
        (ignore-Preserves IsDurable _ (insert_body-IsDurable h body))
        λ _.
          bind-Preserves IsDurable (upload_and_pin body) _ (upload_and_pin-Preserves IsDurable body)
            (settle_xorb-IsDurable ctx h (length body))

  answer_known-IsDurable : Preserves IsDurable (answer_known ctx h body)
  unfolding answer_known
  answer_known-IsDurable =
      bind-Preserves IsDurable (ignore (record_xorb_upload ctx h (length body))) _
        (record_xorb_upload-IsDurable ctx h (length body))
        λ _. pure-Preserves IsDurable (record { was_inserted = false })

  store_xorb-IsDurable : (bs : List ℕ) → Preserves IsDurable (store_xorb d ctx h body bs)
  unfolding store_xorb
  store_xorb-IsDurable bs =
      bind-Preserves IsDurable (check d RateLimitClass.upload ctx.api_key_id) _
        (check-Preserves IsDurable d _ ctx.api_key_id)
        λ _.
          bind-Preserves IsDurable (insert_pending h (length body) ctx.user_id ctx.api_key_id bs) _
            (insert_pending-IsDurable h (length body) ctx.user_id ctx.api_key_id bs)
            λ was. if-Preserves IsDurable was _ _ pin_body-IsDurable answer_known-IsDurable

  verified-IsDurable :
      (r : Hash ⊎ List ℕ)
      → Preserves IsDurable (elim r as (λ _. M UploadXorbResponse) [
        | inl actual ↦ throw (hash_mismatch h actual)
        | inr bs ↦ store_xorb d ctx h body bs
      ])
  verified-IsDurable (inl actual) = throw-Preserves IsDurable _ _
  verified-IsDurable (inr bs) = store_xorb-IsDurable bs

module _ (codec : XorbCodec) (d : RateLimitDefaults) (ctx : AuthContext) (body : Bytes) where
  path-IsDurable :
      (path : Option Hash)
      → Preserves IsDurable (elim path as (λ _. M UploadXorbResponse) [
        | none ↦ throw (bad_request "invalid_xorb_hash")
        | some expected ↦
            if ltb max_xorb_bytes (length body)
            then throw (bad_request "xorb_too_large")
            else elim (verify_body codec expected body
                (compute_xorb_hash_and_boundaries codec body)) [
                  | inl actual ↦ throw (hash_mismatch expected actual)
                  | inr bs ↦ store_xorb d ctx expected body bs
                ]
      ])
  path-IsDurable none = throw-Preserves IsDurable _ _
  path-IsDurable (some expected) =
      if-Preserves IsDurable (ltb max_xorb_bytes (length body)) _ _ (throw-Preserves IsDurable _ _)
        (verified-IsDurable d ctx expected body _)

-- An upload of a xorb, whatever fails in it and whatever the adapter answers, leaves every pinned row
-- of both tables with the id of its Sia object, where every pinned row had one.
pub upload_xorb-IsDurable :
    (codec : XorbCodec) (d : RateLimitDefaults) (ctx : AuthContext) (prefix suffix : Str)
    (body : Bytes) (w : World)
    → IsDurable w.tables
    → IsDurable ((upload_xorb codec d ctx prefix suffix body w).1).tables
unfolding upload_xorb
upload_xorb-IsDurable codec d ctx prefix suffix body =
    run-Preserves IsDurable _ (path-IsDurable codec d ctx body (parse_path codec prefix suffix))
