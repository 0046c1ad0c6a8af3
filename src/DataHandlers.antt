-- ===== src/DataHandlers.antt =====
-- sdhs/DataHandlers/ModbusWithPostgres: the loop that fills the pipe from the socket, and the one that
-- empties it into the database.
pub mod Receiver
pub mod Packets
pub mod Frames
pub mod Inserter
mod Examples
