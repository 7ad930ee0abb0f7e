-- ===== src/Error/Duplicate.antt =====
-- src/errors.rs: the copy of an error and its response.
use rust_whois.Prelude.{◌≡◌, refl, Bool, true, false, if◌then◌else◌}
use rust_whois.Text.{codes}
use rust_whois.Error.{WhoisError, io_error, http_error, duplicate, into_response}

-- The only error whose copies get another response.
abbrev pub is_http_error : WhoisError → Bool
is_http_error (http_error e) = true
is_http_error _ = false

-- A copy of an error gets the same response as the error, unless the error is an `HttpError`, whose
-- copies get the response of an internal error; and a copy of a copy is the copy.
pub duplicate-into_response :
    (e : WhoisError)
    → (into_response (duplicate e)
        ≡ (if is_http_error e then (500, codes "Internal server error") else into_response e))
      × (duplicate (duplicate e) ≡ duplicate e)
unfolding duplicate into_response
duplicate-into_response (http_error e) = (refl, refl)
duplicate-into_response (io_error e) = (refl, refl)
duplicate-into_response _ = (refl, refl)
