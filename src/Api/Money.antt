-- ===== src/Api/Money.antt =====
-- money.go: top-ups, transfers, payments, refunds and rewards.
use walletd_go.Base.{Option, none, List, [], ◌++◌, ℤ, Bytes, codes}
use walletd_go.Errors.Result.{Result}
use walletd_go.Uuid.{Uuid}
use walletd_go.Idempotency.{IdempotencyKey}
use walletd_go.Types.Money.{
  TopupMethod, Topup, Transfer, Payment, Refund, Conversion, RewardGrant, CreateTopupRequest,
  CreateTransferRequest, CreatePaymentRequest, CreateRefundRequest, ConvertPointsJsonBody,
  CapturePaymentJsonBody,
}
use walletd_go.Client.Act.{Act}
use walletd_go.Client.World.{Env}
use walletd_go.Client.New.{Client}
use walletd_go.Api.Calls.{Json, fetched, posted, keyed}
use walletd_go.Api.Query.{set_limit}

-- `uuid_string` is `UUID.String`; each method takes the decoder of what it returns and the encoder of
-- what it sends.
module _ {W : Type 0} (env : Env W) (c : Client W) (uuid_string : Uuid → Bytes) where
  -- (c *Client) ListTopupMethods
  unfoldable pub list_topup_methods : Json (List TopupMethod) → Act W (Result (List TopupMethod))
  unfolding fetched
  list_topup_methods json = fetched env c (codes "/v1/topup_methods") ([]) json

  -- (c *Client) CreateTopup
  unfoldable pub create_topup :
      Json Topup
      → (CreateTopupRequest → Result Bytes)
      → IdempotencyKey
      → CreateTopupRequest
      → Act W (Result Topup)
  unfolding keyed
  create_topup json marshal key req = keyed env c (codes "/v1/topups") key (marshal req) json

  -- (c *Client) GetTopup
  unfoldable pub get_topup : Json Topup → Uuid → Act W (Result Topup)
  unfolding fetched
  get_topup json topup_id = fetched env c (codes "/v1/topups/" ++ uuid_string topup_id) [] json

  -- (c *Client) RefreshTopup
  unfoldable pub refresh_topup : Json Topup → Uuid → Act W (Result Topup)
  unfolding posted
  refresh_topup json topup_id =
      posted env c (codes "/v1/topups/" ++ uuid_string topup_id ++ codes "/refresh") none json

  -- (c *Client) CreateTransfer
  unfoldable pub create_transfer :
      Json Transfer
      → (CreateTransferRequest → Result Bytes)
      → IdempotencyKey
      → CreateTransferRequest
      → Act W (Result Transfer)
  unfolding keyed
  create_transfer json marshal key req = keyed env c (codes "/v1/transfers") key (marshal req) json

  -- (c *Client) CreatePayment
  unfoldable pub create_payment :
      Json Payment
      → (CreatePaymentRequest → Result Bytes)
      → IdempotencyKey
      → CreatePaymentRequest
      → Act W (Result Payment)
  unfolding keyed
  create_payment json marshal key req = keyed env c (codes "/v1/payments") key (marshal req) json

  -- (c *Client) GetPayment
  unfoldable pub get_payment : Json Payment → Uuid → Act W (Result Payment)
  unfolding fetched
  get_payment json payment_id =
      fetched env c (codes "/v1/payments/" ++ uuid_string payment_id) [] json

  -- (c *Client) CapturePayment
  unfoldable pub capture_payment :
      Json Payment
      → (CapturePaymentJsonBody → Result Bytes)
      → Uuid
      → IdempotencyKey
      → Option ℤ
      → Act W (Result Payment)
  unfolding keyed
  capture_payment json marshal payment_id key amount =
      keyed env c (codes "/v1/payments/" ++ uuid_string payment_id ++ codes "/capture") key
        (marshal (record { amount = amount })) json

  -- (c *Client) VoidPayment
  unfoldable pub void_payment : Json Payment → Uuid → Act W (Result Payment)
  unfolding posted
  void_payment json payment_id =
      posted env c (codes "/v1/payments/" ++ uuid_string payment_id ++ codes "/void") none json

  -- (c *Client) CreateRefund
  unfoldable pub create_refund :
      Json Refund
      → (CreateRefundRequest → Result Bytes)
      → IdempotencyKey
      → CreateRefundRequest
      → Act W (Result Refund)
  unfolding keyed
  create_refund json marshal key req = keyed env c (codes "/v1/refunds") key (marshal req) json

  -- (c *Client) ConvertPoints
  unfoldable pub convert_points :
      Json Conversion
      → (ConvertPointsJsonBody → Result Bytes)
      → IdempotencyKey
      → ConvertPointsJsonBody
      → Act W (Result Conversion)
  unfolding keyed
  convert_points json marshal key req =
      keyed env c (codes "/v1/rewards/convert") key (marshal req) json

  -- (c *Client) ListUserRewards
  unfoldable pub list_user_rewards :
      Json (List RewardGrant) → Uuid → ℤ → Act W (Result (List RewardGrant))
  unfolding fetched
  list_user_rewards json user_id limit =
      fetched env c (codes "/v1/users/" ++ uuid_string user_id ++ codes "/rewards")
        (set_limit limit []) json
