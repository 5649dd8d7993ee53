-- ===== src/Controller/Device/Laws.antt =====
-- What the handlers of locks and of assets answer.
use clyman.Prelude.{
  String, ℤ, [], ◌∷◌, ltb_ℤ, Bool, ◌==◌, int_eq, ◌≡◌, if◌then◌else◌, pos, negsuc, true, false,
  arith,
}
use clyman.Outcome.{Outcome}
use clyman.Outcome.Io.{try_catch, Returns, bind-Returns}
use clyman.Floats.{Floats}
use clyman.Constants.{no_error, processing_error, not_found, asset_add, asset_del}
use clyman.Model.Object.{Object, new_object}
use clyman.Model.DataList.{DataList, new_data_list}
use clyman.Db.Interface.{DatabaseManager, DatabaseResponse}
use clyman.Controller.Handler.{Session, Response, init_response, failed, status_of_result}
use clyman.Controller.Status.{bare_text, MatchesResult, finish_result-MatchesResult}
use clyman.Controller.Device.{
  object_lock_request, asset_request, execute_lock, execute_asset, asset_object,
}

-- A new object with one asset.
abbrev pub with_asset : (fl : Floats) → String → Object fl.Float
with_asset fl asset =
    let o = new_object fl in record o { related = record o.related { asset_ids = asset ∷ [] } }

module _ (fl : Floats) {W : Type 0} (manager : DatabaseManager fl.Float W) where
  open fl use {Float, Double}
  open manager use {lock_object, unlock_object, update_assets}

  pub object_lock_request-MatchesResult :
      (t : ℤ) (id dev : String) → Returns MatchesResult (object_lock_request fl manager t id dev)
  unfolding object_lock_request
  object_lock_request-MatchesResult t id dev = bind-Returns MatchesResult (init_response t) _ (λ _.
      bind-Returns MatchesResult (try_catch (execute_lock fl manager t id dev) failed) _
        (λ _. finish_result-MatchesResult fl))

  pub asset_request-MatchesResult :
      (t : ℤ) (id asset : String) → Returns MatchesResult (asset_request fl manager t id asset)
  unfolding asset_request
  asset_request-MatchesResult t id asset = bind-Returns MatchesResult (init_response t) _ (λ _.
      bind-Returns MatchesResult (try_catch (execute_asset fl manager t id asset) failed) _
        (λ _. finish_result-MatchesResult fl))

  -- The body of the response to a database response.
  abbrev pub reported : ℤ → DatabaseResponse → DataList (Object Float)
  reported t r = record new_data_list {
    msg_type = t;
    err_code =
        if r.success
        then no_error
        else if ltb_ℤ no_error r.error_code
        then r.error_code
        else processing_error;
    err_msg = if r.success then "" else r.error_message;
  }

  -- 200 for a success, 404 where nothing was modified, 500 for another failure.
  abbrev pub reply : ℤ → DatabaseResponse → Response Double
  reply t r = record {
    status = if r.success then 200 else if r.error_code == not_found then 404 else 500;
    content_type = "application/json";
    body = bare_text (reported t r);
  }

  failure_status :
      (code : ℤ)
      → status_of_result (if ltb_ℤ no_error code then code else processing_error)
        ≡ (if code == not_found then 404 else 500)
  unfolding status_of_result
  failure_status (pos n) = ground arith
  failure_status (negsuc n) = ground arith

  asset_reply :
      (adds : Bool) (id asset : String) (s : Session (Object Float) Double W) (b : Bool)
      (text : String) (code : ℤ) (w : W)
      → update_assets (asset_object fl manager asset) id adds s.db
        ≡ (Outcome.ok (record { success = b; error_message = text; error_code = code }), w)
      → let r : DatabaseResponse = record {
        success = b;
        error_message = text;
        error_code = code;
      } in
        let t = if adds then asset_add else asset_del in
        asset_request fl manager t id asset s
        ≡ (Outcome.ok (reply t r), record s { db = w; body = reported t r })
  unfolding asset_request bare_text
  asset_reply true id asset s true text code w h = simp (h)
  asset_reply true id asset s false text code w h = simp (h, failure_status)
  asset_reply false id asset s true text code w h = simp (h)
  asset_reply false id asset s false text code w h = simp (h, failure_status)

  -- Adding or removing an asset is one update of the assets by an object that has this one asset and
  -- is otherwise new, and it is answered by the response to that as a lock is.
  pub asset_request-reply :
      (adds : Bool) (id asset : String) (s : Session (Object Float) Double W) (r : DatabaseResponse)
      (w : W)
      → update_assets (with_asset fl asset) id adds s.db ≡ (Outcome.ok r, w)
      → let t = if adds then asset_add else asset_del in
        asset_request fl manager t id asset s
        ≡ (Outcome.ok (reply t r), record s { db = w; body = reported t r })
  unfolding asset_object
  asset_request-reply adds id asset s r w h =
      asset_reply adds id asset s r.success r.error_message r.error_code w h
