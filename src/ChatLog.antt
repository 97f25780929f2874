-- ===== src/ChatLog.antt =====
-- app/history/chat_log.py: conversations, runs and messages of the agent, in the relational store.
-- `Types` has the tables, `Ids` the checks of identifiers, `Store` the transaction monad and the
-- row helpers; the public functions stand in `Turns`, `Tools`, `Completion`, `Approval` and
-- `Interruption`; the others have what the operations keep.
pub mod Types
pub mod Ids
pub mod Store
pub mod Committed
pub mod TerminalSequence
pub mod Tools
pub mod Turns
pub mod Completion
pub mod Approval
pub mod Interruption
pub mod Views
pub mod Requests
pub mod Locking
pub mod ApprovedOnce
pub mod Triples
pub mod Invariant
