-- ===== src/Server.antt =====
-- `server.hpp`, `client.hpp` and `server.cpp`: the state of a server, one module for each part.
-- A `Client*` is a number: how many clients were made before that one; a client that was deleted is
-- `none`, whether or not its memory is used again. A handler
-- is a function from the server to the server, and `none` where the program has no behaviour left:
-- it used a deleted client or an iterator that an erase had made invalid, or an exception left
-- `main`. What the operating system and the peers answer is the parameter `Env` of the handlers.
pub mod State
pub mod Send
pub mod Wait
pub mod Replicate
pub mod Psync
pub mod Handshake
pub mod Role
pub mod Loop
pub mod Stream
pub mod Resume
pub mod Find
pub mod Await
pub mod Receive
pub mod Join
pub mod FullResync
pub mod Promote
pub mod Flushing
pub mod Quiet
pub mod Live
pub mod Safe
pub mod Removal
pub mod Parked
pub mod Reached
pub mod Answers
pub mod Replied
pub mod Metadata
pub mod Asks
pub mod Writes
pub mod Batch
pub mod Handlers
pub mod Peers
pub mod Teardown
pub mod Changes
pub mod Revert
pub mod Commands
pub mod Progress
pub mod Deadlines
pub mod Mirror
pub mod Follow
pub mod Intake
pub mod Converge
pub mod Drift
pub mod Writer
