-- ===== src/Lib.antt =====
-- The Go client of the WalletD API, modelled from its source.
--
-- The client is one package. New (client.go) makes a Client of a base URL, a credential and options.
-- The methods of users.go, money.go, commerce.go and webhooks_api.go each build one call and hand it to
-- do or doKeyed (client.go), which send it, wait and send it again as the retry policy and the answers
-- allow, and turn an error response into a Problem (errors.go). A money-moving method passes an
-- idempotency key (idempotency.go), which goes with every attempt. The listings are walked by an
-- Iterator or a PageIterator (pagination.go), which call a list method for each page. A receiver of
-- webhooks checks a delivery by VerifySignature and reads it by ParseEvent (webhook.go). types.gen.go
-- holds the generated models.
--
-- The files:
--   Base         shared names, tests on numbers, lists over native numbers, int64, strings as bytes
--   Errors       errors.go: Sentinel and Code are its tables, Problem has Message, Unwrap and
--                statusSentinel, Text has Error, Chain the error values and errors.Is, Decode
--                decodeProblem; Matching, Table and Envelope are about them. A Go result is
--                `Errors.Result`.
--   Http, Uuid   what the client sees of net/http and of google/uuid
--   Text         strconv, strings and unicode/utf8 as far as the client calls them
--   Idempotency  idempotency.go; Printable is about validate
--   Pagination   pagination.go: Size, Iterator and PageIterator have the methods, Loops and Walks
--                Collect and All. Listing and Chain say what a server promises. Cursor is the
--                specification that both iterators implement, a cursor in the list of the rows, and
--                what follows for a client from a relation to it; Standing and Following are that
--                relation for Iterator and PageIterator, with MayFail under each for a server that may
--                fail, and Complete and Pages their theorems. Stops and Range are about single calls.
--                Steps, Accept, NextPage, FollowPage, Distinct and Shift are lemmas.
--   Client       client.go: Act and World are the effects and what stands behind them, Policy has
--                retryable, backoff and wait, RetryAfter parseRetryAfter, New the construction, Do the
--                loop. Recording is a world that keeps its exchanges. Entry is about do before its loop;
--                Outcomes, Moved, Handlers and Rounds say how a round moves the world and how it ends,
--                for every relation that its waits and closes respect; Loop, Invariant, Trace, Sends,
--                Answers, Flaky, Recovers and Refused are about the loop, Bodies about the bodies of
--                answers, Tokens about the credential, Timed and Patience about Retry-After, Once about a
--                server that deduplicates, Together about several calls at a time, Shifts, Delays and
--                Waits about the waits and Valid about New.
--   Webhook      webhook.go: Hex, Split and Clock are the library calls, Signature the check, Event the
--                envelope; Verify, Fresh and Binding are about the check
--   Types        types.gen.go: Names and RequestBodies are its named types; People, Money, Commerce and
--                Deliveries are the structs that a method takes or returns, Sellers, Rewards, Ledger,
--                Operator, Catalog and Parameters the others; Values, MoreValues and
--                ParameterValues are its enums, and Enums is about them
--   Api          the methods: Values and Query the query strings, Calls the three forms of a method;
--                Keyed, Movements, Setting, Merged and Listings are about them. Escaped,
--                Decoded and Readable read a query string back, Sent is about what goes out, Answered
--                about what comes back, and Wire, Cataloged and Recovered about listings from the
--                answers on the wire to what Collect returns
--   Tests        runs of the theorems at concrete inputs
--
-- How the code corresponds: a method with a pointer receiver is a function from the record to the record
-- and its result. Code that talks to the world is an action `W → A × W` on an arbitrary state W; the
-- transport, bodies, the context, timers, the clock, random numbers, the credential and encoding/json are
-- parameters of it (Client.World). Errors are values of Errors.Chain, which keep what errors.Is and
-- errors.As see and not the text. A Go string is its list of bytes, except for the codes and titles of
-- problems, which are native strings. A duration is a number of nanoseconds that wraps around at 64 bits
-- where the code computes one; an instant is its nanoseconds since the year 1. A map with the keys that
-- the code sets is a list in the order of the keys.
--
-- Fuel: the loop of do gets one more than MaxAttempts, which is enough since a round is followed by
-- another one only below MaxAttempts. Collect and All get their fuel as an argument: one more than the
-- rows of the listing is enough, since every call of Next but the last shows a row. Decoding and printing
-- of numbers and runes recurse on the length of the text or on the number itself.
--
-- Goroutines: calls that share a client share only the world behind it, since no call changes the client.
-- Client.Together lets them take turns at every exchange and at every end of a round; the turns are the
-- model's own, made of the code's exchange and of what it does behind it, and Together.Alone is about how
-- they relate to the loop.
--
-- Page sizes: a server of a listing promises pages for the limits from 1 to 100, which are those of the
-- contract, and nothing for others. A listing whose answers name the next cursor may be cut differently
-- for every limit.
--
-- Bodies: what a read of an answer's body gives is part of the answer; that its body is drained and closed
-- is an effect on the world.
--
-- Not modelled: the texts of the errors other than a problem's.
pub mod Base
pub mod Errors
pub mod Http
pub mod Uuid
pub mod Pagination
pub mod Text
pub mod Idempotency
pub mod Client
pub mod Webhook
pub mod Types
pub mod Api
pub mod Tests
