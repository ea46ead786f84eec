-- ===== src/Api/Subscriptions.antt =====
-- The subscriptions of money.go.
use walletd_go.Base.{Option, none, List, [], ◌++◌, ℤ, pos, Bytes, codes}
use walletd_go.Errors.Result.{Result}
use walletd_go.Uuid.{Uuid}
use walletd_go.Idempotency.{IdempotencyKey}
use walletd_go.Pagination.Iterator.{Iterator, new_iterator}
use walletd_go.Types.Money.{Subscription, CreateSubscriptionRequest}
use walletd_go.Client.Act.{Act}
use walletd_go.Client.World.{Env}
use walletd_go.Client.New.{Client}
use walletd_go.Api.Calls.{Json, fetched, posted, keyed}
use walletd_go.Api.Query.{page_query, set_text, set_id}

-- `uuid_string` is `UUID.String`; each method takes the decoder of what it returns and the encoder of
-- what it sends.
module _ {W : Type 0} (env : Env W) (c : Client W) (uuid_string : Uuid → Bytes) where
  -- (c *Client) CreateSubscription
  unfoldable pub create_subscription :
      Json Subscription
      → (CreateSubscriptionRequest → Result Bytes)
      → IdempotencyKey
      → CreateSubscriptionRequest
      → Act W (Result Subscription)
  unfolding keyed
  create_subscription json marshal key req =
      keyed env c (codes "/v1/subscriptions") key (marshal req) json

  -- (c *Client) GetSubscription
  unfoldable pub get_subscription : Json Subscription → Uuid → Act W (Result Subscription)
  unfolding fetched
  get_subscription json subscription_id =
      fetched env c (codes "/v1/subscriptions/" ++ uuid_string subscription_id) [] json

  -- (c *Client) ListSubscriptions
  unfoldable pub list_subscriptions :
      Json (List Subscription) → Option Uuid → Bytes → Uuid → ℤ → Act W (Result (List Subscription))
  unfolding fetched
  list_subscriptions json user_id status cursor limit =
      fetched env c (codes "/v1/subscriptions")
        (set_text (codes "status") status
          (set_id uuid_string (codes "user_id") user_id (page_query uuid_string cursor limit)))
        json

  -- (c *Client) Subscriptions
  unfoldable pub subscriptions :
      Json (List Subscription) → Option Uuid → Bytes → Iterator W Subscription
  unfolding list_subscriptions
  subscriptions json user_id status =
      new_iterator (λ w cursor limit. list_subscriptions json user_id status cursor (pos limit) w)
        (λ (r : Subscription). r.id)

  -- (c *Client) subscriptionAction
  unfoldable pub subscription_action :
      Json Subscription → Uuid → Bytes → Act W (Result Subscription)
  unfolding posted
  subscription_action json subscription_id action =
      posted env c
        (codes "/v1/subscriptions/" ++ uuid_string subscription_id ++ codes "/" ++ action) none json

  -- (c *Client) PauseSubscription
  unfoldable pub pause_subscription : Json Subscription → Uuid → Act W (Result Subscription)
  unfolding subscription_action
  pause_subscription json subscription_id = subscription_action json subscription_id (codes "pause")

  -- (c *Client) ResumeSubscription
  unfoldable pub resume_subscription : Json Subscription → Uuid → Act W (Result Subscription)
  unfolding subscription_action
  resume_subscription json subscription_id =
      subscription_action json subscription_id (codes "resume")

  -- (c *Client) CancelSubscription
  unfoldable pub cancel_subscription : Json Subscription → Uuid → Act W (Result Subscription)
  unfolding subscription_action
  cancel_subscription json subscription_id =
      subscription_action json subscription_id (codes "cancel")
