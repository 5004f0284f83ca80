-- ===== src/Protocol.antt =====
-- components/dali_protocol: frames, the command queue, transactions and the query client.
pub mod Commands
pub mod Frame
pub mod Queue
pub mod Transaction
pub mod Quality
pub mod Response
pub mod Pipeline
pub mod Query
