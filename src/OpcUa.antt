-- ===== src/OpcUa.antt =====
-- crates/svdc-opcua: the status codes and the times that the OPC UA server publishes.
pub mod QBits
pub mod StatusCodes
pub mod Quality
pub mod Timestamp
mod Tests
