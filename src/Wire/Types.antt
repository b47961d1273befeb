-- ===== src/Wire/Types.antt =====
-- `DataFusionError` and its message: src/protocol/grpc/errors/datafusion_error.rs. `Diagnostic` is a
-- parameter; an error from outside is the text that it displays. An optional field and a repeated
-- one that hold messages have types of their own.
use Prim.Native.String.{String}
use datafusion_distributed.Prelude.{Option}
use datafusion_distributed.Wire.Io.{IoError, IoErrorProto}
use datafusion_distributed.Wire.Arrow.{ArrowError, ArrowErrorProto}
use datafusion_distributed.Wire.Schema.{SchemaError, SchemaErrorProto}
use datafusion_distributed.Wire.Sources.Parquet.{ParquetError, ParquetErrorProto}
use datafusion_distributed.Wire.Sources.Parser.{ParserError, ParserErrorProto}
use datafusion_distributed.Wire.Sources.ObjectStore.{ObjectStoreError, ObjectStoreErrorProto}

mutual
  pub data DataFusionError (Diagnostic : Type 0) : Type 0 where
    arrow_error : ArrowError → (ctx : Option String) → DataFusionError Diagnostic
    parquet_error : ParquetError → DataFusionError Diagnostic
    object_store : ObjectStoreError → DataFusionError Diagnostic
    io_error : IoError → DataFusionError Diagnostic
    sql : ParserError → (backtrace : Option String) → DataFusionError Diagnostic
    schema_error : SchemaError → (backtrace : Option String) → DataFusionError Diagnostic
    not_implemented internal plan configuration : String → DataFusionError Diagnostic
    execution execution_join resources_exhausted : String → DataFusionError Diagnostic
    external substrait ffi : String → DataFusionError Diagnostic
    context : String → DataFusionError Diagnostic → DataFusionError Diagnostic
    diagnostic : Diagnostic → DataFusionError Diagnostic → DataFusionError Diagnostic
    collection : Errors Diagnostic → DataFusionError Diagnostic
    shared : DataFusionError Diagnostic → DataFusionError Diagnostic

  pub data Errors (Diagnostic : Type 0) : Type 0 where
    nil : Errors Diagnostic
    cons : DataFusionError Diagnostic → Errors Diagnostic → Errors Diagnostic

pub record DataFusionSqlErrorProto : Type 0 where
  pub err : Option ParserErrorProto
  pub backtrace : Option String

mutual
  pub data DataFusionErrorProto : Type 0 where
    without_inner : DataFusionErrorProto
    with_inner : DataFusionErrorInnerProto → DataFusionErrorProto

  pub data DataFusionErrorInnerProto : Type 0 where
    arrow_error : ArrowErrorProto → DataFusionErrorInnerProto
    parquet_error : ParquetErrorProto → DataFusionErrorInnerProto
    object_store_error : ObjectStoreErrorProto → DataFusionErrorInnerProto
    io_error : IoErrorProto → DataFusionErrorInnerProto
    sql : DataFusionSqlErrorProto → DataFusionErrorInnerProto
    schema : SchemaErrorProto → DataFusionErrorInnerProto
    not_implemented internal plan configuration : String → DataFusionErrorInnerProto
    execution execution_join resource_exhausted : String → DataFusionErrorInnerProto
    external substrait : String → DataFusionErrorInnerProto
    context : (err : OptionalProto) → (ctx : String) → DataFusionErrorInnerProto
    diagnostic shared : DataFusionErrorProto → DataFusionErrorInnerProto
    collection : (errs : Protos) → DataFusionErrorInnerProto

  pub data OptionalProto : Type 0 where
    absent : OptionalProto
    present : DataFusionErrorProto → OptionalProto

  pub data Protos : Type 0 where
    nil : Protos
    cons : DataFusionErrorProto → Protos → Protos
