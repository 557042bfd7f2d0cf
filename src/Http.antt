-- ===== src/Http.antt =====
-- What a handler of src/cmd sends back.
use kws.Prelude.{ℕ, Text}

-- http.Error with a status code, http.Redirect, or the content of a response that went well.
pub data Response (A : Type 0) : Type 0 where
  refused : ℕ → Response A
  redirected : Text → Response A
  answered : A → Response A

abbrev pub bad_request : ℕ
bad_request = 400

abbrev pub unauthorized : ℕ
unauthorized = 401

abbrev pub status_conflict : ℕ
status_conflict = 409

abbrev pub gone : ℕ
gone = 410

abbrev pub internal_server_error : ℕ
internal_server_error = 500
