-- ===== src/Pagination.antt =====
-- pagination.go. A fetch acts on a world `W`, which stands for the client, the network and the
-- context: it takes the world before the call and gives the one after it.
pub mod Size
pub mod Iterator
pub mod Loops
pub mod PageIterator
pub mod Walks
pub mod Stops
pub mod Steps
pub mod Listing
pub mod Distinct
pub mod Cursor
pub mod NextPage
pub mod Standing
pub mod Complete
pub mod Accept
pub mod Shift
pub mod Chain
pub mod FollowPage
pub mod Following
pub mod Pages
pub mod Range
