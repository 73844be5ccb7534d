-- ===== src/Server.antt =====
-- src/server.rs: how a query is resolved. `Ecs` adds the client's subnet to a query, `Responses`
-- builds the server's own responses, `Resolve` is the handler and `Framing` reads and writes the
-- messages of a DoT connection; the others prove what these do.
pub mod Framing
pub mod Ecs
pub mod Masks
pub mod Responses
pub mod Resolve
pub mod Pending
pub mod Connection
pub mod Blocked
pub mod Answers
pub mod Accounting
pub mod Repeated
pub mod Answered
