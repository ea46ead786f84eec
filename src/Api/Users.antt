-- ===== src/Api/Users.antt =====
-- users.go: the methods on users and on the ledger.
use walletd_go.Base.{some, List, [], ◌++◌, ℤ, pos, Bytes, codes}
use walletd_go.Errors.Result.{Result}
use walletd_go.Uuid.{Uuid}
use walletd_go.Pagination.Iterator.{Iterator, new_iterator}
use walletd_go.Types.People.{
  User, UserBalance, CreditLine, UserTransaction, Transaction, CreateUserRequest,
  SetCreditLimitRequest,
}
use walletd_go.Client.Act.{Act}
use walletd_go.Client.World.{Env}
use walletd_go.Client.New.{Client}
use walletd_go.Api.Calls.{Json, fetched, posted}
use walletd_go.Api.Query.{page_query, set_text}

-- `uuid_string` is `UUID.String`; each method takes the decoder of what it returns and the encoder of
-- what it sends.
module _ {W : Type 0} (env : Env W) (c : Client W) (uuid_string : Uuid → Bytes) where
  -- (c *Client) Me
  unfoldable pub me : Json User → Act W (Result User)
  unfolding fetched
  me json = fetched env c (codes "/v1/me") [] json

  -- (c *Client) CreateUser
  unfoldable pub create_user :
      Json User → (CreateUserRequest → Result Bytes) → CreateUserRequest → Act W (Result User)
  unfolding posted
  create_user json marshal req = posted env c (codes "/v1/users") (some (marshal req)) json

  -- (c *Client) GetUser
  unfoldable pub get_user : Json User → Uuid → Act W (Result User)
  unfolding fetched
  get_user json user_id = fetched env c (codes "/v1/users/" ++ uuid_string user_id) [] json

  -- (c *Client) ListUsers
  unfoldable pub list_users : Json (List User) → Bytes → Uuid → ℤ → Act W (Result (List User))
  unfolding fetched
  list_users json query cursor limit =
      fetched env c (codes "/v1/users")
        (set_text (codes "query") query (page_query uuid_string cursor limit)) json

  -- (c *Client) Users
  unfoldable pub users : Json (List User) → Bytes → Iterator W User
  unfolding list_users
  users json query =
      new_iterator (λ w cursor limit. list_users json query cursor (pos limit) w)
        (λ (r : User). r.id)

  -- (c *Client) UserBalances
  unfoldable pub user_balances : Json (List UserBalance) → Uuid → Act W (Result (List UserBalance))
  unfolding fetched
  user_balances json user_id =
      fetched env c (codes "/v1/users/" ++ uuid_string user_id ++ codes "/balances") ([]) json

  -- (c *Client) ListUserTransactions
  unfoldable pub list_user_transactions :
      Json (List UserTransaction) → Uuid → Uuid → ℤ → Act W (Result (List UserTransaction))
  unfolding fetched
  list_user_transactions json user_id cursor limit =
      fetched env c (codes "/v1/users/" ++ uuid_string user_id ++ codes "/transactions")
        (page_query uuid_string cursor limit) json

  -- (c *Client) UserTransactions
  unfoldable pub user_transactions : Json (List UserTransaction) → Uuid → Iterator W UserTransaction
  unfolding list_user_transactions
  user_transactions json user_id =
      new_iterator (λ w cursor limit. list_user_transactions json user_id cursor (pos limit) w)
        (λ (r : UserTransaction). r.txn_id)

  -- (c *Client) ListTransactions
  unfoldable pub list_transactions :
      Json (List Transaction) → Bytes → Uuid → ℤ → Act W (Result (List Transaction))
  unfolding fetched
  list_transactions json txn_type cursor limit =
      fetched env c (codes "/v1/transactions")
        (set_text (codes "type") txn_type (page_query uuid_string cursor limit)) json

  -- (c *Client) Transactions
  unfoldable pub transactions : Json (List Transaction) → Bytes → Iterator W Transaction
  unfolding list_transactions
  transactions json txn_type =
      new_iterator (λ w cursor limit. list_transactions json txn_type cursor (pos limit) w)
        (λ (r : Transaction). r.id)

  -- (c *Client) SetUserCreditLimit
  unfoldable pub set_user_credit_limit :
      Json CreditLine
      → (SetCreditLimitRequest → Result Bytes)
      → Uuid
      → SetCreditLimitRequest
      → Act W (Result CreditLine)
  unfolding posted
  set_user_credit_limit json marshal user_id req =
      posted env c (codes "/v1/users/" ++ uuid_string user_id ++ codes "/credit_limit")
        (some (marshal req)) json
