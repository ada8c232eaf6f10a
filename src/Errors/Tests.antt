-- ===== src/Errors/Tests.antt =====
-- Errors as the API reports them.
use verustcode.Base.{◌≡◌, refl}
use verustcode.Errors.{
  error_text, http_status, wrap, new, db_query, review_not_found, err_not_found,
}

wrapped_text :
    error_text (wrap db_query "failed to load review" "locked")
    ≡ "[E5002] failed to load review: locked"
unfolding error_text wrap
wrapped_text = refl

missing_text : error_text (err_not_found "rule") ≡ "[E1002] rule not found"
unfolding error_text err_not_found
missing_text = refl

missing_status : http_status (new review_not_found "gone") ≡ 404
unfolding http_status new
missing_status = refl
