-- ===== src/Wire/Sources.antt =====
-- Errors of the libraries under DataFusion over the wire: src/protocol/grpc/errors/parquet_error.rs,
-- src/protocol/grpc/errors/parser_error.rs and src/protocol/grpc/errors/objectstore_error.rs. The
-- cause of an error is the text that it displays.
pub mod Parquet
pub mod Parser
pub mod ObjectStore
