-- ===== src/Wire/Arrivals.antt =====
-- What arrives of a `DataFusionError` at the other end: src/protocol/grpc/errors/datafusion_error.rs.
use Prim.Native.String.{String}
use datafusion_distributed.Prelude.{◌≡◌, refl, ap}
use datafusion_distributed.Wire.Io.{io_arrives, io_over_wire, io_arrives_idem}
use datafusion_distributed.Wire.Arrow.{
  listed_arrow, arrow_arrives, arrow_over_wire, arrow_arrives_idem,
}
use datafusion_distributed.Wire.Schema.{schema_over_wire}
use datafusion_distributed.Wire.Sources.Parquet.{
  parquet_arrives, parquet_over_wire, parquet_arrives_idem,
}
use datafusion_distributed.Wire.Sources.Parser.{parser_over_wire}
use datafusion_distributed.Wire.Sources.ObjectStore.{
  object_store_arrives, object_store_over_wire, object_store_arrives_settles,
}
use datafusion_distributed.Wire.Types.{
  DataFusionError, Errors, DataFusionErrorProto, DataFusionErrorInnerProto, OptionalProto, Protos,
  without_inner, with_inner, absent, present,
}
use datafusion_distributed.Wire.Convert.{
  from_datafusion_error, from_datafusion_errors, to_datafusion_err, to_datafusion_errs,
}

-- What the reader of the bytes keeps of a message: fields with a tag that is not listed are skipped.
unfoldable mutual
  pub listed : DataFusionErrorProto → DataFusionErrorProto
  listed without_inner = without_inner
  listed (with_inner p) = with_inner (listed_inner p)

  pub listed_inner : DataFusionErrorInnerProto → DataFusionErrorInnerProto
  listed_inner (DataFusionErrorInnerProto.arrow_error p) =
      DataFusionErrorInnerProto.arrow_error (listed_arrow p)
  listed_inner (DataFusionErrorInnerProto.context e ctx) =
      DataFusionErrorInnerProto.context (listed_optional e) ctx
  listed_inner (DataFusionErrorInnerProto.diagnostic p) =
      DataFusionErrorInnerProto.diagnostic (listed p)
  listed_inner (DataFusionErrorInnerProto.shared p) = DataFusionErrorInnerProto.shared (listed p)
  listed_inner (DataFusionErrorInnerProto.collection ps) =
      DataFusionErrorInnerProto.collection (listed_all ps)
  listed_inner p = p

  pub listed_optional : OptionalProto → OptionalProto
  listed_optional absent = absent
  listed_optional (present p) = present (listed p)

  pub listed_all : Protos → Protos
  listed_all Protos.nil = Protos.nil
  listed_all (Protos.cons p ps) = Protos.cons (listed p) (listed_all ps)

module _ {D : Type 0} (new_error : String → D) where
  unfoldable mutual
    pub arrives : DataFusionError D → DataFusionError D
    arrives (DataFusionError.arrow_error e ctx) =
        DataFusionError.arrow_error (arrow_arrives e ctx).0 (arrow_arrives e ctx).1
    arrives (DataFusionError.parquet_error e) = DataFusionError.parquet_error (parquet_arrives e)
    arrives (DataFusionError.object_store e) = DataFusionError.object_store (object_store_arrives e)
    arrives (DataFusionError.io_error e) = DataFusionError.io_error (io_arrives e)
    arrives (DataFusionError.execution_join msg) = DataFusionError.internal msg
    arrives (DataFusionError.ffi msg) = DataFusionError.external msg
    arrives (DataFusionError.context ctx e) = DataFusionError.context ctx (arrives e)
    arrives (DataFusionError.diagnostic d e) = DataFusionError.diagnostic (new_error "") (arrives e)
    arrives (DataFusionError.collection es) = DataFusionError.collection (all_arrive es)
    arrives (DataFusionError.shared e) = DataFusionError.shared (arrives e)
    arrives e = e

    pub all_arrive : Errors D → Errors D
    all_arrive Errors.nil = Errors.nil
    all_arrive (Errors.cons e es) = Errors.cons (arrives e) (all_arrive es)

  mutual
    unfolding arrives listed from_datafusion_error to_datafusion_err

    pub over_wire :
        (e : DataFusionError D)
        → to_datafusion_err new_error (listed (from_datafusion_error e)) ≡ arrives e
    over_wire (DataFusionError.arrow_error e ctx) =
        ap (λ p. DataFusionError.arrow_error p.0 p.1) (arrow_over_wire e ctx)
    over_wire (DataFusionError.parquet_error e) = cc (parquet_over_wire e)
    over_wire (DataFusionError.object_store e) = cc (object_store_over_wire e)
    over_wire (DataFusionError.io_error e) =
        ap (λ p. DataFusionError.io_error p.0) (io_over_wire "" e)
    over_wire (DataFusionError.sql e backtrace) = cc (parser_over_wire e)
    over_wire (DataFusionError.schema_error e backtrace) =
        ap (λ p. DataFusionError.schema_error p.0 p.1) (schema_over_wire e backtrace)
    over_wire (DataFusionError.context ctx e) = cc (over_wire e)
    over_wire (DataFusionError.diagnostic d e) = cc (over_wire e)
    over_wire (DataFusionError.collection es) = cc (all_over_wire es)
    over_wire (DataFusionError.shared e) = cc (over_wire e)
    over_wire e = refl

    all_over_wire :
        (es : Errors D)
        → to_datafusion_errs new_error (listed_all (from_datafusion_errors es)) ≡ all_arrive es
    all_over_wire Errors.nil = refl
    all_over_wire (Errors.cons e es) = cc (over_wire e, all_over_wire es)

  mutual
    unfolding arrives

    pub settles : (e : DataFusionError D) → arrives (arrives (arrives e)) ≡ arrives (arrives e)
    settles (DataFusionError.arrow_error e ctx) =
        ap (λ p. DataFusionError.arrow_error (arrow_arrives p.0 p.1).0 (arrow_arrives p.0 p.1).1)
          (arrow_arrives_idem e ctx)
    settles (DataFusionError.parquet_error e) =
        ap (λ x. DataFusionError.parquet_error (parquet_arrives x)) (parquet_arrives_idem e)
    settles (DataFusionError.object_store e) = cc (object_store_arrives_settles e)
    settles (DataFusionError.io_error e) =
        ap (λ x. DataFusionError.io_error (io_arrives x)) (io_arrives_idem e)
    settles (DataFusionError.context ctx e) = cc (settles e)
    settles (DataFusionError.diagnostic d e) = cc (settles e)
    settles (DataFusionError.collection es) = cc (all_settle es)
    settles (DataFusionError.shared e) = cc (settles e)
    settles e = refl

    all_settle :
        (es : Errors D) → all_arrive (all_arrive (all_arrive es)) ≡ all_arrive (all_arrive es)
    all_settle Errors.nil = refl
    all_settle (Errors.cons e es) = cc (settles e, all_settle es)
