-- ===== src/Api/Movements.antt =====
-- The seven methods that move money: CreateTopup, CreateTransfer, CreatePayment, CapturePayment,
-- CreateRefund, ConvertPoints and CreateSubscription.
use walletd_go.Base.{
  ℕ, ◌≤◌, max, Option, none, some, List, ◌++◌, length, All, ℤ, pos_part, Bytes, codes, ◌≡◌, ◌⊎◌,
  refl, sym, subst, [],
}
use walletd_go.Errors.Chain.{Err}
use walletd_go.Errors.Result.{Result, ok, err}
use walletd_go.Http.Message.{post}
use walletd_go.Uuid.{Uuid}
use walletd_go.Idempotency.{IdempotencyKey, validate}
use walletd_go.Types.Money.{
  Topup, Transfer, Payment, Refund, Conversion, Subscription, CreateTopupRequest,
  CreateTransferRequest, CreatePaymentRequest, CreateRefundRequest, ConvertPointsJsonBody,
  CreateSubscriptionRequest, CapturePaymentJsonBody,
}
use walletd_go.Client.Act.{Act}
use walletd_go.Client.World.{Env}
use walletd_go.Client.New.{Client}
use walletd_go.Client.Do.{do_keyed}
use walletd_go.Client.Recording.{Exchange, Recorded, recording_env, recording}
use walletd_go.Client.Entry.{body_of}
use walletd_go.Client.Once.{Deduplicates, Performed, do_keyed-deduplicated}
use walletd_go.Api.Calls.{Json, answered, call_of, keyed}
use walletd_go.Api.Keyed.{Carries, at_base, keyed-Carries}
use walletd_go.Api.Money.{
  create_topup, create_transfer, create_payment, capture_payment, create_refund, convert_points,
}
use walletd_go.Api.Subscriptions.{create_subscription}

-- A movement of money, by its method and the arguments of it.
pub data Movement : Type 0 where
  topup : CreateTopupRequest → Movement
  transfer : CreateTransferRequest → Movement
  payment : CreatePaymentRequest → Movement
  capture : Uuid → Option ℤ → Movement
  refund : CreateRefundRequest → Movement
  conversion : ConvertPointsJsonBody → Movement
  subscription : CreateSubscriptionRequest → Movement

-- What the method returns, and what it sends.
abbrev pub Outcome : Movement → Type 0
Outcome (topup req) = Topup
Outcome (transfer req) = Transfer
Outcome (payment req) = Payment
Outcome (capture payment_id amount) = Payment
Outcome (refund req) = Refund
Outcome (conversion req) = Conversion
Outcome (subscription req) = Subscription

abbrev pub Input : Movement → Type 0
Input (topup req) = CreateTopupRequest
Input (transfer req) = CreateTransferRequest
Input (payment req) = CreatePaymentRequest
Input (capture payment_id amount) = CapturePaymentJsonBody
Input (refund req) = CreateRefundRequest
Input (conversion req) = ConvertPointsJsonBody
Input (subscription req) = CreateSubscriptionRequest

abbrev pub input : (m : Movement) → Input m
input (topup req) = req
input (transfer req) = req
input (payment req) = req
input (capture payment_id amount) = record { amount = amount }
input (refund req) = req
input (conversion req) = req
input (subscription req) = req

abbrev pub movement_path : (Uuid → Bytes) → Movement → Bytes
movement_path uuid_string (topup req) = codes "/v1/topups"
movement_path uuid_string (transfer req) = codes "/v1/transfers"
movement_path uuid_string (payment req) = codes "/v1/payments"
movement_path uuid_string (capture payment_id amount) =
    codes "/v1/payments/" ++ uuid_string payment_id ++ codes "/capture"
movement_path uuid_string (refund req) = codes "/v1/refunds"
movement_path uuid_string (conversion req) = codes "/v1/rewards/convert"
movement_path uuid_string (subscription req) = codes "/v1/subscriptions"

module _ {W : Type 0} (env : Env W) (c : Client W) (uuid_string : Uuid → Bytes) where
  -- The method, under a key.
  abbrev pub perform :
      (m : Movement)
      → Json (Outcome m)
      → (Input m → Result Bytes)
      → IdempotencyKey
      → Act W (Result (Outcome m))
  perform (topup req) json marshal key = create_topup env c uuid_string json marshal key req
  perform (transfer req) json marshal key = create_transfer env c uuid_string json marshal key req
  perform (payment req) json marshal key = create_payment env c uuid_string json marshal key req
  perform (capture payment_id amount) json marshal key =
      capture_payment env c uuid_string json marshal payment_id key amount
  perform (refund req) json marshal key = create_refund env c uuid_string json marshal key req
  perform (conversion req) json marshal key = convert_points env c uuid_string json marshal key req
  perform (subscription req) json marshal key =
      create_subscription env c uuid_string json marshal key req

  -- Each method is a keyed POST to its path.
  perform-keyed :
      (m : Movement) (json : Json (Outcome m)) (marshal : Input m → Result Bytes)
      (key : IdempotencyKey) (w : W)
      → perform m json marshal key w
        ≡ keyed env c (movement_path uuid_string m) key (marshal (input m)) json w
  unfolding create_topup create_transfer create_payment capture_payment create_refund convert_points
      create_subscription
  perform-keyed (topup req) json marshal key w = refl
  perform-keyed (transfer req) json marshal key w = refl
  perform-keyed (payment req) json marshal key w = refl
  perform-keyed (capture payment_id amount) json marshal key w = refl
  perform-keyed (refund req) json marshal key w = refl
  perform-keyed (conversion req) json marshal key w = refl
  perform-keyed (subscription req) json marshal key w = refl

-- What the result of a method says of the effects.
abbrev pub IsPerformed : {V : Type 0} → Result V → ℕ → Type 0
IsPerformed (ok v) n = n ≡ 1
IsPerformed (err e) n = Unit

answered-IsPerformed :
    {V : Type 0} (zero_value : V) (r : Result (Option V)) (n : ℕ)
    → Performed r n
    → IsPerformed (answered zero_value r) n
unfolding answered
answered-IsPerformed zero_value (ok none) n h = h
answered-IsPerformed zero_value (ok (some v)) n h = h
answered-IsPerformed zero_value (err e) n h = tt

-- A method that moves money, against a server that deduplicates by the idempotency key, from a state in
-- which the movement is not yet performed: it is performed at most once, however often the request is sent
-- and whichever answers are lost or broken off, and exactly once if the method returns without an error.
pub perform_deduplicated :
    {W : Type 0} (env : Env W) (c : Client W) (uuid_string : Uuid → Bytes) (m : Movement)
    (json : Json (Outcome m)) (marshal : Input m → Result Bytes) (key : IdempotencyKey)
    (effects : W → ℕ) (w : W)
    → Deduplicates env c key effects
    → effects w ≡ 0
    → (effects (perform env c uuid_string m json marshal key w).1 ≤ 1)
      × IsPerformed
          (perform env c uuid_string m json marshal key w).0
          (effects (perform env c uuid_string m json marshal key w).1)
unfolding keyed
perform_deduplicated env c uuid_string m json marshal key effects w contract fresh =
    let call = call_of post (movement_path uuid_string m) key [] (some (marshal (input m))) json in
    let (most, performed) = do_keyed-deduplicated env c call effects w contract fresh in
    subst (λ r. (effects r.1 ≤ 1) × IsPerformed r.0 (effects r.1))
      (sym (perform-keyed env c uuid_string m json marshal key w))
      (most, answered-IsPerformed json.zero_value (do_keyed env c call w).0 _ performed)

-- A method that moves money, under a key that Validate accepts, sends at most MaxAttempts requests, and one
-- if that is not positive. Each of them is a POST to the method's path at the base URL, with the same body,
-- what json.Marshal makes of the request, under that same key. Under any other key it sends nothing, changes
-- nothing and fails with the error of Validate.
pub perform-Carries :
    {W : Type 0} (world : Env W) (client : Client W) (uuid_string : Uuid → Bytes) (m : Movement)
    (json : Json (Outcome m)) (marshal : Input m → Result Bytes) (key : IdempotencyKey)
    (s : Recorded W)
    → ((e : Err) × (validate key ≡ some e)
        × (perform (recording_env world) (recording client) uuid_string m json marshal key s
            ≡ (err e, s)))
      ⊎ ((validate key ≡ none)
          × (sent : List Exchange) × ((perform
                (recording_env world)
                (recording client)
                uuid_string
                m
                json
                marshal
                key
                s).1.1
              ≡ s.1 ++ sent)
          × (length sent ≤ max 1 (pos_part client.retry.max_attempts))
          × All
              (Carries
                (at_base world client (movement_path uuid_string m))
                key
                (body_of (some (marshal (input m)))))
              sent)
perform-Carries world client uuid_string m json marshal key s =
    rw (perform-keyed (recording_env world) (recording client) uuid_string m json marshal key s)
      (keyed-Carries world client (movement_path uuid_string m) key (marshal (input m)) json s)
