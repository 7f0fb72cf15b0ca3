-- ===== src/Api/Responses.antt =====
-- The responses to service exceptions (app/api/errors.py).
use hub_meta_conversion_serv.Base.{ℕ, String, Option, none, some}
use hub_meta_conversion_serv.Errors.{
  Message, Exc, not_found, conflict, idempotency_conflict, upstream,
}

pub record ErrorReply : Type 0 where
  pub status : ℕ
  pub detail : Message
  pub code : Option String

-- The handler of the nearest class is the one that is called; `none` is an exception that this file
-- registers no handler for.
unfoldable pub error_reply : Exc → Option ErrorReply
error_reply (not_found m) = some (record { status = 404; detail = m; code = none })
error_reply (idempotency_conflict m) =
    some (record { status = 409; detail = m; code = some "idempotency_conflict" })
error_reply (conflict m) = some (record { status = 409; detail = m; code = none })
error_reply (upstream m) = some (record { status = 502; detail = m; code = some "upstream_error" })
error_reply _ = none
