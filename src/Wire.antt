-- ===== src/Wire.antt =====
-- Errors over the wire: src/protocol/grpc/errors.
pub mod Io
pub mod Arrow
pub mod Sources
pub mod Schema
pub mod Types
pub mod Convert
pub mod Arrivals
pub mod Lossless
pub mod Status
mod Examples
