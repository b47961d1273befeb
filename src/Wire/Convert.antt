-- ===== src/Wire/Convert.antt =====
-- The conversions of `DataFusionError`: src/protocol/grpc/errors/datafusion_error.rs, as it is built
-- with the features `parquet` and `sql`.
use Prim.Native.String.{String}
use datafusion_distributed.Prelude.{Option, none, some}
use datafusion_distributed.Wire.Io.{from_io_error, to_io_error}
use datafusion_distributed.Wire.Arrow.{from_arrow_error, to_arrow_error}
use datafusion_distributed.Wire.Schema.{from_schema_error, to_schema_error}
use datafusion_distributed.Wire.Sources.Parquet.{from_parquet_error, to_parquet_error}
use datafusion_distributed.Wire.Sources.Parser.{
  ParserError, ParserErrorProto, from_parser_error, to_parser_error,
}
use datafusion_distributed.Wire.Sources.ObjectStore.{from_object_store_error, to_object_store_error}
use datafusion_distributed.Wire.Types.{
  DataFusionError, Errors, DataFusionErrorProto, DataFusionErrorInnerProto, OptionalProto, Protos,
  without_inner, with_inner, absent, present,
}

unfoldable mutual
  pub from_datafusion_error : {D : Type 0} → DataFusionError D → DataFusionErrorProto
  from_datafusion_error (DataFusionError.arrow_error e ctx) =
      with_inner (DataFusionErrorInnerProto.arrow_error (from_arrow_error e ctx))
  from_datafusion_error (DataFusionError.parquet_error e) =
      with_inner (DataFusionErrorInnerProto.parquet_error (from_parquet_error e))
  from_datafusion_error (DataFusionError.object_store e) =
      with_inner (DataFusionErrorInnerProto.object_store_error (from_object_store_error e))
  from_datafusion_error (DataFusionError.io_error e) =
      with_inner (DataFusionErrorInnerProto.io_error (from_io_error "" e))
  from_datafusion_error (DataFusionError.sql e backtrace) = with_inner (
      DataFusionErrorInnerProto.sql
        (record { err = some (from_parser_error e); backtrace = backtrace }))
  from_datafusion_error (DataFusionError.schema_error e backtrace) =
      with_inner (DataFusionErrorInnerProto.schema (from_schema_error e backtrace))
  from_datafusion_error (DataFusionError.not_implemented msg) =
      with_inner (DataFusionErrorInnerProto.not_implemented msg)
  from_datafusion_error (DataFusionError.internal msg) =
      with_inner (DataFusionErrorInnerProto.internal msg)
  from_datafusion_error (DataFusionError.plan msg) = with_inner (DataFusionErrorInnerProto.plan msg)
  from_datafusion_error (DataFusionError.configuration msg) =
      with_inner (DataFusionErrorInnerProto.configuration msg)
  from_datafusion_error (DataFusionError.execution msg) =
      with_inner (DataFusionErrorInnerProto.execution msg)
  from_datafusion_error (DataFusionError.execution_join msg) =
      with_inner (DataFusionErrorInnerProto.execution_join msg)
  from_datafusion_error (DataFusionError.external msg) =
      with_inner (DataFusionErrorInnerProto.external msg)
  from_datafusion_error (DataFusionError.substrait msg) =
      with_inner (DataFusionErrorInnerProto.substrait msg)
  from_datafusion_error (DataFusionError.resources_exhausted msg) =
      with_inner (DataFusionErrorInnerProto.resource_exhausted msg)
  from_datafusion_error (DataFusionError.ffi msg) =
      with_inner (DataFusionErrorInnerProto.external msg)
  from_datafusion_error (DataFusionError.context ctx e) =
      with_inner (DataFusionErrorInnerProto.context (present (from_datafusion_error e)) ctx)
  from_datafusion_error (DataFusionError.diagnostic d e) =
      with_inner (DataFusionErrorInnerProto.diagnostic (from_datafusion_error e))
  from_datafusion_error (DataFusionError.collection es) =
      with_inner (DataFusionErrorInnerProto.collection (from_datafusion_errors es))
  from_datafusion_error (DataFusionError.shared e) =
      with_inner (DataFusionErrorInnerProto.shared (from_datafusion_error e))

  pub from_datafusion_errors : {D : Type 0} → Errors D → Protos
  from_datafusion_errors Errors.nil = Protos.nil
  from_datafusion_errors (Errors.cons e es) =
      Protos.cons (from_datafusion_error e) (from_datafusion_errors es)

-- `unwrap_or`
sql_cause : Option ParserErrorProto → ParserError
sql_cause (some p) = to_parser_error p
sql_cause none = ParserError.parser_error ""

-- `new_error` is `Diagnostic::new_error`, without a position.
module _ {D : Type 0} (new_error : String → D) where
  unfoldable mutual
    unfolding sql_cause

    pub to_datafusion_err : DataFusionErrorProto → DataFusionError D
    to_datafusion_err without_inner =
        DataFusionError.internal "DataFusionError proto message is empty"
    to_datafusion_err (with_inner p) = datafusion_of_inner p

    pub datafusion_of_inner : DataFusionErrorInnerProto → DataFusionError D
    datafusion_of_inner (DataFusionErrorInnerProto.arrow_error p) =
        DataFusionError.arrow_error (to_arrow_error p).0 (to_arrow_error p).1
    datafusion_of_inner (DataFusionErrorInnerProto.parquet_error p) =
        DataFusionError.parquet_error (to_parquet_error p)
    datafusion_of_inner (DataFusionErrorInnerProto.object_store_error p) =
        DataFusionError.object_store (to_object_store_error p)
    datafusion_of_inner (DataFusionErrorInnerProto.io_error p) =
        DataFusionError.io_error (to_io_error p).0
    datafusion_of_inner (DataFusionErrorInnerProto.sql p) =
        DataFusionError.sql (sql_cause p.err) p.backtrace
    datafusion_of_inner (DataFusionErrorInnerProto.schema p) =
        DataFusionError.schema_error (to_schema_error p).0 (to_schema_error p).1
    datafusion_of_inner (DataFusionErrorInnerProto.not_implemented msg) =
        DataFusionError.not_implemented msg
    datafusion_of_inner (DataFusionErrorInnerProto.internal msg) = DataFusionError.internal msg
    datafusion_of_inner (DataFusionErrorInnerProto.plan msg) = DataFusionError.plan msg
    datafusion_of_inner (DataFusionErrorInnerProto.configuration msg) =
        DataFusionError.configuration msg
    datafusion_of_inner (DataFusionErrorInnerProto.execution msg) = DataFusionError.execution msg
    datafusion_of_inner (DataFusionErrorInnerProto.execution_join msg) =
        DataFusionError.internal msg
    datafusion_of_inner (DataFusionErrorInnerProto.external msg) = DataFusionError.external msg
    datafusion_of_inner (DataFusionErrorInnerProto.substrait msg) = DataFusionError.substrait msg
    datafusion_of_inner (DataFusionErrorInnerProto.resource_exhausted msg) =
        DataFusionError.resources_exhausted msg
    datafusion_of_inner (DataFusionErrorInnerProto.context e ctx) =
        DataFusionError.context ctx (context_cause e)
    datafusion_of_inner (DataFusionErrorInnerProto.diagnostic p) =
        DataFusionError.diagnostic (new_error "") (to_datafusion_err p)
    datafusion_of_inner (DataFusionErrorInnerProto.shared p) =
        DataFusionError.shared (to_datafusion_err p)
    datafusion_of_inner (DataFusionErrorInnerProto.collection ps) =
        DataFusionError.collection (to_datafusion_errs ps)

    pub context_cause : OptionalProto → DataFusionError D
    context_cause absent = DataFusionError.internal "Missing DataFusionError protobuf message"
    context_cause (present p) = to_datafusion_err p

    pub to_datafusion_errs : Protos → Errors D
    to_datafusion_errs Protos.nil = Errors.nil
    to_datafusion_errs (Protos.cons p ps) =
        Errors.cons (to_datafusion_err p) (to_datafusion_errs ps)
