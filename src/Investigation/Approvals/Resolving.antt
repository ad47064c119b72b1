-- ===== src/Investigation/Approvals/Resolving.antt =====
-- An approval request is decided once.
use deepticket.Prelude.{String, ◌≡◌, refl, ap₂, true, false, Option, some, eq_refl, subst, suc}
use deepticket.Prelude.Text.{◌<>◌}
use deepticket.Json.{Fields}
use deepticket.Env.{Env}
use deepticket.Exec.{ok, err, value_error}
use deepticket.Storage.Local.{Storage, get_json}
use deepticket.Storage.Laws.{get_json-set_json, get_json-zadd}
use deepticket.World.{World}
use deepticket.Investigation.Approvals.{
  ApprovalStatus, is_pending, approval_value, ApprovalRequest, to_dict, from_dict, approval_key,
  ns_approval, save, get_request, resolve, resolved,
}
use deepticket.Investigation.Approvals.RoundTrip.{without_blanks, from_dict-to_dict-request}

module _ ⦃env : Env⦄ where
  -- `request` is what the store reads under the project and the identifier, and both are its own.
  pub record HasRequest (p id : String) (request : ApprovalRequest) (s : Storage) : Type 0 where
    pub doc : Fields
    pub at : get_json s ns_approval (approval_key p id) ≡ some doc
    pub reads : from_dict doc ≡ ok request
    pub project_id : request.project_id ≡ p
    pub approval_id : request.approval_id ≡ id

  get_request-HasRequest :
      (p id : String) (request : ApprovalRequest) (w : World)
      → HasRequest p id request w.storage
      → get_request p id w ≡ (ok (some request), w)
  unfolding get_request
  get_request-HasRequest p id request w h = rw h.at (rw h.reads)

  save-HasRequest :
      (p id : String) (request : ApprovalRequest) (w : World)
      → request.project_id ≡ p
      → request.approval_id ≡ id
      → HasRequest p id (without_blanks request) (save request w).1.storage
  unfolding save
  save-HasRequest p id request w e f = record {
    doc = to_dict request;
    at =
        subst (λ j. get_json (save request w).1.storage ns_approval j ≡ some (to_dict request))
          (ap₂ approval_key e f) (simp (get_json-zadd, get_json-set_json, eq_refl));
    reads = from_dict-to_dict-request request;
    project_id = e;
    approval_id = f;
  }

  -- Deciding a pending request returns it with the decision as its status, the operator, the reason and the
  -- time read, all else as it was, and stores it so under its own key.
  pub resolve_pending :
      (p id : String) (status : ApprovalStatus) (by : String) (reason : Option String) (w : World)
      (request : ApprovalRequest)
      → HasRequest p id request w.storage
      → is_pending request.status ≡ true
      → let request' : ApprovalRequest = record {
        approval_id = request.approval_id;
        project_id = request.project_id;
        run_id = request.run_id;
        tool_name = request.tool_name;
        mcp_server = request.mcp_server;
        arguments = request.arguments;
        status = status;
        created_at = request.created_at;
        resolved_at = some (env.utc_now_iso w.ticks);
        resolved_by = some by;
        reason = reason;
      } in
        ((resolve p id status by reason w).0 ≡ ok request')
        × HasRequest p id (without_blanks request') (resolve p id status by reason w).1.storage
  unfolding resolve save
  resolve_pending p id status by reason w request h t =
      rw (get_request-HasRequest p id request w h) (
        rw t (
          refl,
          save-HasRequest p id (resolved request status (env.utc_now_iso w.ticks) by reason)
              (record w { ticks = suc w.ticks }) h.project_id h.approval_id,
        ))

  -- Deciding a request that is not pending raises ValueError and changes nothing.
  pub resolve_settled :
      (p id : String) (status : ApprovalStatus) (by : String) (reason : Option String) (w : World)
      (request : ApprovalRequest)
      → HasRequest p id request w.storage
      → is_pending request.status ≡ false
      → resolve p id status by reason w
        ≡ (err (value_error ("approval already resolved: " <> approval_value request.status)), w)
  unfolding resolve
  resolve_settled p id status by reason w request h t =
      rw (get_request-HasRequest p id request w h) (rw t)

  -- After a pending request is approved or rejected, every further decision on it raises ValueError with
  -- the first decision and changes nothing.
  pub resolve_once :
      (p id : String) (status status' : ApprovalStatus) (by by' : String)
      (reason reason' : Option String) (w : World) (request : ApprovalRequest)
      → HasRequest p id request w.storage
      → is_pending request.status ≡ true
      → is_pending status ≡ false
      → let after = (resolve p id status by reason w).1 in
        resolve p id status' by' reason' after
        ≡ (err (value_error ("approval already resolved: " <> approval_value status)), after)
  resolve_once p id status status' by by' reason reason' w request h t f =
      resolve_settled p id status' by' reason' _ _
        (resolve_pending p id status by reason w request h t).1 f
