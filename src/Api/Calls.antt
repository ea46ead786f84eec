-- ===== src/Api/Calls.antt =====
-- The forms of a method: `var out V; err := c.do(…, &out); return out, err`, and its keyed one.
use walletd_go.Base.{Option, none, some, [], Bytes}
use walletd_go.Errors.Result.{Result, ok, err}
use walletd_go.Http.Message.{Method, get, post}
use walletd_go.Idempotency.{IdempotencyKey}
use walletd_go.Api.Values.{Values, encode}
use walletd_go.Client.Act.{Act}
use walletd_go.Client.World.{Env}
use walletd_go.Client.New.{Client}
use walletd_go.Client.Do.{Call, do_call, do_keyed}

-- What `encoding/json` makes of a type that a method returns: its zero value, and the decoder.
pub record Json (V : Type 0) : Type 0 where
  pub zero_value : V
  pub unmarshal : Bytes → Result V

-- `return out, err`: `out` has its zero value if nothing was stored in it.
unfoldable pub answered : {V : Type 0} → V → Result (Option V) → Result V
answered zero_value (ok none) = ok zero_value
answered zero_value (ok (some v)) = ok v
answered zero_value (err e) = err e

-- The call behind a method. The path is with its identifiers; the query is empty for a nil one.
abbrev pub call_of :
    {V : Type 0}
    → Method
    → Bytes
    → IdempotencyKey
    → Values
    → Option (Result Bytes)
    → Json V
    → Call V
call_of method path idem query input json = record {
  method = method;
  path = path;
  idem = idem;
  query = encode query;
  input = input;
  output = some json.unmarshal;
}

module _ {W V : Type 0} (env : Env W) (c : Client W) where
  abbrev returning : V → Result (Option V) × W → Result V × W
  returning zero_value r = (answered zero_value r.0, r.1)

  -- A GET with a query.
  unfoldable pub fetched : Bytes → Values → Json V → Act W (Result V)
  unfolding answered
  fetched path query json w =
      returning json.zero_value (do_call env c (call_of get path [] query none json) w)

  -- A POST that is not keyed.
  unfoldable pub posted : Bytes → Option (Result Bytes) → Json V → Act W (Result V)
  unfolding answered
  posted path input json w =
      returning json.zero_value (do_call env c (call_of post path [] [] input json) w)

  -- A POST under an idempotency key.
  unfoldable pub keyed : Bytes → IdempotencyKey → Result Bytes → Json V → Act W (Result V)
  unfolding answered
  keyed path key input json w =
      returning json.zero_value (do_keyed env c (call_of post path key [] (some input) json) w)
