-- ===== src/Http/Message.antt =====
-- What `net/http` hands to the client and takes from it, as far as the client looks.
use walletd_go.Base.{ℕ, String, Bytes, Option}
use walletd_go.Errors.Chain.{Err}

pub data Method : Type 0 where
  get head post : Method

pub record Request : Type 0 where
  pub method : Method
  pub target : Bytes
  -- the body, with its `Content-Type: application/json`, `ContentLength` and `GetBody`
  pub payload : Option Bytes
  pub accept : Bytes
  pub user_agent : Bytes
  -- the `Idempotency-Key` header
  pub idempotency_key : Option Bytes
  pub authorization : Bytes

pub record Response : Type 0 where
  pub status : ℕ
  -- `resp.Status`, such as "404 Not Found"
  pub status_line : String
  -- the `Retry-After` header, empty if there is none
  pub retry_after : Bytes
  -- the bytes of the body up to its end, or up to the error at which reading breaks off
  pub body : Bytes
  pub body_error : Option Err
