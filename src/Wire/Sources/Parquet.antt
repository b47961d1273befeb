-- ===== src/Wire/Sources/Parquet.antt =====
-- src/protocol/grpc/errors/parquet_error.rs. `unlisted` stands for the errors that the source does
-- not name.
use Prim.Native.String.{String}
use datafusion_distributed.Prelude.{ℕ, ◌≡◌, refl, Option, none, some}
use datafusion_distributed.Prelude.Words.{as_word, as_word_idem}

pub data ParquetError : Type 0 where
  general nyi eof arrow_error external : String → ParquetError
  index_out_of_bound : ℕ → ℕ → ParquetError
  need_more_data : ℕ → ParquetError
  unlisted : ParquetError

pub data ParquetErrorInnerProto : Type 0 where
  general nyi eof arrow_error external : String → ParquetErrorInnerProto
  index_out_of_bound : (a b : ℕ) → ParquetErrorInnerProto
  need_more_data : ℕ → ParquetErrorInnerProto

pub record ParquetErrorProto : Type 0 where
  pub inner : Option ParquetErrorInnerProto

parquet_inner : ParquetError → ParquetErrorInnerProto
unfolding as_word
parquet_inner (ParquetError.general msg) = ParquetErrorInnerProto.general msg
parquet_inner (ParquetError.nyi msg) = ParquetErrorInnerProto.nyi msg
parquet_inner (ParquetError.eof msg) = ParquetErrorInnerProto.eof msg
parquet_inner (ParquetError.arrow_error msg) = ParquetErrorInnerProto.arrow_error msg
parquet_inner (ParquetError.index_out_of_bound a b) =
    ParquetErrorInnerProto.index_out_of_bound (as_word a) (as_word b)
parquet_inner (ParquetError.external msg) = ParquetErrorInnerProto.external msg
parquet_inner (ParquetError.need_more_data n) = ParquetErrorInnerProto.need_more_data (as_word n)
parquet_inner ParquetError.unlisted =
    ParquetErrorInnerProto.general "ParquetError could not be serialized into protobuf"

pub from_parquet_error : ParquetError → ParquetErrorProto
unfolding parquet_inner
from_parquet_error e = record { inner = some (parquet_inner e) }

parquet_of_inner : ParquetErrorInnerProto → ParquetError
unfolding as_word
parquet_of_inner (ParquetErrorInnerProto.general msg) = ParquetError.general msg
parquet_of_inner (ParquetErrorInnerProto.nyi msg) = ParquetError.nyi msg
parquet_of_inner (ParquetErrorInnerProto.eof msg) = ParquetError.eof msg
parquet_of_inner (ParquetErrorInnerProto.arrow_error msg) = ParquetError.arrow_error msg
parquet_of_inner (ParquetErrorInnerProto.index_out_of_bound a b) =
    ParquetError.index_out_of_bound (as_word a) (as_word b)
parquet_of_inner (ParquetErrorInnerProto.external msg) = ParquetError.external msg
parquet_of_inner (ParquetErrorInnerProto.need_more_data n) = ParquetError.need_more_data (as_word n)

pub to_parquet_error : ParquetErrorProto → ParquetError
unfolding parquet_of_inner
to_parquet_error p = elim p.inner [
  | none ↦ ParquetError.external "Malformed protobuf message"
  | some inner ↦ parquet_of_inner inner
]

-- What arrives of an error.
unfoldable pub parquet_arrives : ParquetError → ParquetError
parquet_arrives ParquetError.unlisted =
    ParquetError.general "ParquetError could not be serialized into protobuf"
parquet_arrives (ParquetError.index_out_of_bound a b) =
    ParquetError.index_out_of_bound (as_word a) (as_word b)
parquet_arrives (ParquetError.need_more_data n) = ParquetError.need_more_data (as_word n)
parquet_arrives e = e

pub parquet_over_wire :
    (e : ParquetError) → to_parquet_error (from_parquet_error e) ≡ parquet_arrives e
unfolding to_parquet_error from_parquet_error parquet_arrives
parquet_over_wire ParquetError.unlisted = refl
parquet_over_wire (ParquetError.index_out_of_bound a b) = cc (as_word_idem a, as_word_idem b)
parquet_over_wire (ParquetError.need_more_data n) = cc (as_word_idem n)
parquet_over_wire e = refl

pub parquet_arrives_idem :
    (e : ParquetError) → parquet_arrives (parquet_arrives e) ≡ parquet_arrives e
unfolding parquet_arrives
parquet_arrives_idem ParquetError.unlisted = refl
parquet_arrives_idem (ParquetError.index_out_of_bound a b) = cc (as_word_idem a, as_word_idem b)
parquet_arrives_idem (ParquetError.need_more_data n) = cc (as_word_idem n)
parquet_arrives_idem e = refl
