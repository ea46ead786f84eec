-- ===== src/Client.antt =====
-- client.go: the HTTP client, its retry policy and the loop that sends a request.
pub mod Act
pub mod World
pub mod Policy
pub mod RetryAfter
pub mod New
pub mod Do
pub mod Recording
pub mod Entry
pub mod Moved
pub mod Outcomes
pub mod Handlers
pub mod Rounds
pub mod Loop
pub mod Invariant
pub mod Trace
pub mod Sends
pub mod Answers
pub mod Shifts
pub mod Delays
pub mod Valid
pub mod Flaky
pub mod Recovers
pub mod Refused
pub mod Once
pub mod Together
pub mod Waits
pub mod Bodies
pub mod Tokens
pub mod Timed
pub mod Patience
