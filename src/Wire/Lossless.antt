-- ===== src/Wire/Lossless.antt =====
-- The errors that arrive as they were: src/protocol/grpc/errors.
use Prim.Native.String.{String}
use datafusion_distributed.Prelude.{◌<◌, ◌≡◌, refl, ap, Option}
use datafusion_distributed.Prelude.Words.{as_word_small}
use datafusion_distributed.Wire.Io.{ErrorKind, IoError, unlisted, kind_arrives, io_arrives}
use datafusion_distributed.Wire.Arrow.{ArrowError, arrow_arrives}
use datafusion_distributed.Wire.Sources.Parquet.{ParquetError, parquet_arrives}
use datafusion_distributed.Wire.Sources.ObjectStore.{
  ObjectStoreError, parse_store, object_store_arrives,
}
use datafusion_distributed.Wire.Types.{DataFusionError, Errors}
use datafusion_distributed.Wire.Arrivals.{arrives, all_arrive}

unfoldable pub KindLossless : ErrorKind → Type 0
KindLossless unlisted = ⊥
KindLossless k = Unit

unfoldable pub ArrowLossless : ArrowError → Type 0
ArrowLossless (ArrowError.avro_error msg) = ⊥
ArrowLossless (ArrowError.io_error msg e) = KindLossless e.kind
ArrowLossless (ArrowError.offset_overflow_error n) = n < 18446744073709551616
ArrowLossless e = Unit

unfoldable pub ParquetLossless : ParquetError → Type 0
ParquetLossless ParquetError.unlisted = ⊥
ParquetLossless (ParquetError.index_out_of_bound a b) =
    (a < 18446744073709551616) × (b < 18446744073709551616)
ParquetLossless (ParquetError.need_more_data n) = n < 18446744073709551616
ParquetLossless e = Unit

-- The store of an error is one that `parse_store` knows.
unfoldable pub ObjectStoreLossless : ObjectStoreError → Type 0
ObjectStoreLossless (ObjectStoreError.generic store source) = parse_store store ≡ store
ObjectStoreLossless (ObjectStoreError.unknown_configuration_key key store) =
    parse_store store ≡ store
ObjectStoreLossless (ObjectStoreError.invalid_path source) = ⊥
ObjectStoreLossless (ObjectStoreError.join_error source) = ⊥
ObjectStoreLossless (ObjectStoreError.not_implemented operation implementer) = ⊥
ObjectStoreLossless ObjectStoreError.unlisted = ⊥
ObjectStoreLossless e = Unit

-- An error in which nothing is of the kinds that the messages leave out.
unfoldable mutual
  pub Lossless : {D : Type 0} → DataFusionError D → Type 0
  Lossless (DataFusionError.arrow_error e ctx) = ArrowLossless e
  Lossless (DataFusionError.parquet_error e) = ParquetLossless e
  Lossless (DataFusionError.object_store e) = ObjectStoreLossless e
  Lossless (DataFusionError.io_error e) = KindLossless e.kind
  Lossless (DataFusionError.execution_join msg) = ⊥
  Lossless (DataFusionError.ffi msg) = ⊥
  Lossless (DataFusionError.diagnostic d e) = ⊥
  Lossless (DataFusionError.context ctx e) = Lossless e
  Lossless (DataFusionError.collection es) = AllLossless es
  Lossless (DataFusionError.shared e) = Lossless e
  Lossless e = Unit

  pub AllLossless : {D : Type 0} → Errors D → Type 0
  AllLossless Errors.nil = Unit
  AllLossless (Errors.cons e es) = Lossless e × AllLossless es

kind_kept : (k : ErrorKind) → KindLossless k → kind_arrives k ≡ k
unfolding kind_arrives KindLossless
kind_kept unlisted h = absurd h
kind_kept k h = refl

io_kept : (e : IoError) → KindLossless e.kind → io_arrives e ≡ e
unfolding io_arrives
io_kept e h = ap (λ k. record { kind = k; display = e.display }) (kind_kept e.kind h)

arrow_kept :
    (e : ArrowError) (ctx : Option String) → ArrowLossless e → arrow_arrives e ctx ≡ (e, ctx)
unfolding arrow_arrives ArrowLossless
arrow_kept (ArrowError.avro_error msg) ctx h = absurd h
arrow_kept (ArrowError.io_error msg e) ctx h = cc (io_kept e h)
arrow_kept (ArrowError.offset_overflow_error n) ctx h = cc (as_word_small n h)
arrow_kept e ctx h = refl

parquet_kept : (e : ParquetError) → ParquetLossless e → parquet_arrives e ≡ e
unfolding parquet_arrives ParquetLossless
parquet_kept ParquetError.unlisted h = absurd h
parquet_kept (ParquetError.index_out_of_bound a b) h = cc (as_word_small a h.0, as_word_small b h.1)
parquet_kept (ParquetError.need_more_data n) h = cc (as_word_small n h)
parquet_kept e h = refl

object_store_kept : (e : ObjectStoreError) → ObjectStoreLossless e → object_store_arrives e ≡ e
unfolding object_store_arrives ObjectStoreLossless
object_store_kept (ObjectStoreError.generic store source) h = cc h
object_store_kept (ObjectStoreError.unknown_configuration_key key store) h = cc h
object_store_kept (ObjectStoreError.invalid_path source) h = absurd h
object_store_kept (ObjectStoreError.join_error source) h = absurd h
object_store_kept (ObjectStoreError.not_implemented operation implementer) h = absurd h
object_store_kept ObjectStoreError.unlisted h = absurd h
object_store_kept e h = refl

module _ {D : Type 0} (new_error : String → D) where
  mutual
    unfolding arrives Lossless

    pub kept : (e : DataFusionError D) → Lossless e → arrives new_error e ≡ e
    kept (DataFusionError.arrow_error e ctx) h =
        ap (λ p. DataFusionError.arrow_error p.0 p.1) (arrow_kept e ctx h)
    kept (DataFusionError.parquet_error e) h = cc (parquet_kept e h)
    kept (DataFusionError.object_store e) h = cc (object_store_kept e h)
    kept (DataFusionError.io_error e) h = cc (io_kept e h)
    kept (DataFusionError.execution_join msg) h = absurd h
    kept (DataFusionError.ffi msg) h = absurd h
    kept (DataFusionError.diagnostic d e) h = absurd h
    kept (DataFusionError.context ctx e) h = cc (kept e h)
    kept (DataFusionError.collection es) h = cc (all_kept es h)
    kept (DataFusionError.shared e) h = cc (kept e h)
    kept e h = refl

    all_kept : (es : Errors D) → AllLossless es → all_arrive new_error es ≡ es
    all_kept Errors.nil h = refl
    all_kept (Errors.cons e es) h = cc (kept e h.0, all_kept es h.1)
