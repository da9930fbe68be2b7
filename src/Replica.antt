-- ===== src/Replica.antt =====
-- What the views of a node say of its peers, over whole runs of messages.
pub mod Consistency
pub mod History
pub mod Gone
pub mod Forward
