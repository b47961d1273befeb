-- ===== src/Wire/Arrow.antt =====
-- Arrow errors over the wire: src/protocol/grpc/errors/arrow_error.rs. The cause of an external
-- error is the text that it displays. The message's tags leave out 21, under which an Avro error is
-- written, so what reads the bytes skips it.
use Prim.Native.String.{String}
use datafusion_distributed.Prelude.{ℕ, ◌≡◌, refl, Bool, true, Option, none, some}
use datafusion_distributed.Prelude.Words.{as_word, as_word_idem}
use datafusion_distributed.Wire.Io.{
  IoError, IoErrorProto, from_io_error, to_io_error, io_arrives, io_over_wire, io_arrives_idem,
}

pub data ArrowError : Type 0 where
  not_yet_implemented external_error cast_error memory_error parse_error : String → ArrowError
  schema_error compute_error arithmetic_overflow csv_error json_error : String → ArrowError
  ipc_error invalid_argument_error parquet_error c_data_interface : String → ArrowError
  avro_error : String → ArrowError
  divide_by_zero dictionary_key_overflow_error run_end_index_overflow_error : ArrowError
  io_error : String → IoError → ArrowError
  offset_overflow_error : ℕ → ArrowError

pub data ArrowErrorInnerProto : Type 0 where
  not_yet_implemented external_error cast_error memory_error parse_error :
      String → ArrowErrorInnerProto
  schema_error compute_error arithmetic_overflow csv_error json_error :
      String → ArrowErrorInnerProto
  ipc_error invalid_argument_error parquet_error c_data_interface : String → ArrowErrorInnerProto
  avro_error : String → ArrowErrorInnerProto
  divide_by_zero dictionary_key_overflow_error run_end_index_overflow_error :
      Bool → ArrowErrorInnerProto
  io_error : IoErrorProto → ArrowErrorInnerProto
  offset_overflow_error : ℕ → ArrowErrorInnerProto

pub record ArrowErrorProto : Type 0 where
  pub ctx : Option String
  pub inner : Option ArrowErrorInnerProto

unfoldable pub arrow_inner : ArrowError → ArrowErrorInnerProto
unfolding from_io_error as_word
arrow_inner (ArrowError.not_yet_implemented msg) = ArrowErrorInnerProto.not_yet_implemented msg
arrow_inner (ArrowError.external_error msg) = ArrowErrorInnerProto.external_error msg
arrow_inner (ArrowError.cast_error msg) = ArrowErrorInnerProto.cast_error msg
arrow_inner (ArrowError.memory_error msg) = ArrowErrorInnerProto.memory_error msg
arrow_inner (ArrowError.parse_error msg) = ArrowErrorInnerProto.parse_error msg
arrow_inner (ArrowError.schema_error msg) = ArrowErrorInnerProto.schema_error msg
arrow_inner (ArrowError.compute_error msg) = ArrowErrorInnerProto.compute_error msg
arrow_inner ArrowError.divide_by_zero = ArrowErrorInnerProto.divide_by_zero true
arrow_inner (ArrowError.arithmetic_overflow msg) = ArrowErrorInnerProto.arithmetic_overflow msg
arrow_inner (ArrowError.csv_error msg) = ArrowErrorInnerProto.csv_error msg
arrow_inner (ArrowError.json_error msg) = ArrowErrorInnerProto.json_error msg
arrow_inner (ArrowError.io_error msg e) = ArrowErrorInnerProto.io_error (from_io_error msg e)
arrow_inner (ArrowError.ipc_error msg) = ArrowErrorInnerProto.ipc_error msg
arrow_inner (ArrowError.invalid_argument_error msg) =
    ArrowErrorInnerProto.invalid_argument_error msg
arrow_inner (ArrowError.parquet_error msg) = ArrowErrorInnerProto.parquet_error msg
arrow_inner (ArrowError.c_data_interface msg) = ArrowErrorInnerProto.c_data_interface msg
arrow_inner ArrowError.dictionary_key_overflow_error =
    ArrowErrorInnerProto.dictionary_key_overflow_error true
arrow_inner ArrowError.run_end_index_overflow_error =
    ArrowErrorInnerProto.run_end_index_overflow_error true
arrow_inner (ArrowError.offset_overflow_error n) =
    ArrowErrorInnerProto.offset_overflow_error (as_word n)
arrow_inner (ArrowError.avro_error msg) = ArrowErrorInnerProto.avro_error msg

unfoldable pub from_arrow_error : ArrowError → Option String → ArrowErrorProto
unfolding arrow_inner
from_arrow_error e ctx = record { ctx = ctx; inner = some (arrow_inner e) }

unfoldable pub arrow_of_inner : ArrowErrorInnerProto → ArrowError
unfolding to_io_error as_word
arrow_of_inner (ArrowErrorInnerProto.not_yet_implemented msg) = ArrowError.not_yet_implemented msg
arrow_of_inner (ArrowErrorInnerProto.external_error msg) = ArrowError.external_error msg
arrow_of_inner (ArrowErrorInnerProto.cast_error msg) = ArrowError.cast_error msg
arrow_of_inner (ArrowErrorInnerProto.memory_error msg) = ArrowError.memory_error msg
arrow_of_inner (ArrowErrorInnerProto.parse_error msg) = ArrowError.parse_error msg
arrow_of_inner (ArrowErrorInnerProto.schema_error msg) = ArrowError.schema_error msg
arrow_of_inner (ArrowErrorInnerProto.compute_error msg) = ArrowError.compute_error msg
arrow_of_inner (ArrowErrorInnerProto.divide_by_zero b) = ArrowError.divide_by_zero
arrow_of_inner (ArrowErrorInnerProto.arithmetic_overflow msg) = ArrowError.arithmetic_overflow msg
arrow_of_inner (ArrowErrorInnerProto.csv_error msg) = ArrowError.csv_error msg
arrow_of_inner (ArrowErrorInnerProto.json_error msg) = ArrowError.json_error msg
arrow_of_inner (ArrowErrorInnerProto.io_error p) =
    ArrowError.io_error (to_io_error p).1 (to_io_error p).0
arrow_of_inner (ArrowErrorInnerProto.ipc_error msg) = ArrowError.ipc_error msg
arrow_of_inner (ArrowErrorInnerProto.invalid_argument_error msg) =
    ArrowError.invalid_argument_error msg
arrow_of_inner (ArrowErrorInnerProto.parquet_error msg) = ArrowError.parquet_error msg
arrow_of_inner (ArrowErrorInnerProto.c_data_interface msg) = ArrowError.c_data_interface msg
arrow_of_inner (ArrowErrorInnerProto.dictionary_key_overflow_error b) =
    ArrowError.dictionary_key_overflow_error
arrow_of_inner (ArrowErrorInnerProto.run_end_index_overflow_error b) =
    ArrowError.run_end_index_overflow_error
arrow_of_inner (ArrowErrorInnerProto.offset_overflow_error n) =
    ArrowError.offset_overflow_error (as_word n)
arrow_of_inner (ArrowErrorInnerProto.avro_error msg) = ArrowError.avro_error msg

unfoldable pub to_arrow_error : ArrowErrorProto → ArrowError × Option String
unfolding arrow_of_inner
to_arrow_error p = elim p.inner [
  | none ↦ (ArrowError.external_error "Malformed protobuf message", none)
  | some inner ↦ (arrow_of_inner inner, p.ctx)
]

-- What the reader of the bytes keeps of a message: a field with a tag that is not listed is skipped.
unfoldable pub listed_inner : ArrowErrorInnerProto → Option ArrowErrorInnerProto
listed_inner (ArrowErrorInnerProto.avro_error msg) = none
listed_inner p = some p

unfoldable pub listed_arrow : ArrowErrorProto → ArrowErrorProto
unfolding listed_inner
listed_arrow p = record {
  ctx = p.ctx;
  inner = elim p.inner [ none ↦ none | some inner ↦ listed_inner inner ];
}

-- What arrives of an error and its context.
unfoldable pub arrow_arrives : ArrowError → Option String → ArrowError × Option String
unfolding io_arrives
arrow_arrives (ArrowError.avro_error msg) ctx =
    (ArrowError.external_error "Malformed protobuf message", none)
arrow_arrives (ArrowError.io_error msg e) ctx = (ArrowError.io_error msg (io_arrives e), ctx)
arrow_arrives (ArrowError.offset_overflow_error n) ctx =
    (ArrowError.offset_overflow_error (as_word n), ctx)
arrow_arrives e ctx = (e, ctx)

-- What is written, read back and converted is what arrives.
pub arrow_over_wire :
    (e : ArrowError) (ctx : Option String)
    → to_arrow_error (listed_arrow (from_arrow_error e ctx)) ≡ arrow_arrives e ctx
unfolding to_arrow_error listed_arrow from_arrow_error arrow_arrives
arrow_over_wire (ArrowError.avro_error msg) ctx = refl
arrow_over_wire (ArrowError.io_error msg e) ctx = cc (io_over_wire msg e)
arrow_over_wire (ArrowError.offset_overflow_error n) ctx = cc (as_word_idem n)
arrow_over_wire e ctx = refl

pub arrow_arrives_idem :
    (e : ArrowError) (ctx : Option String)
    → arrow_arrives (arrow_arrives e ctx).0 (arrow_arrives e ctx).1 ≡ arrow_arrives e ctx
unfolding arrow_arrives
arrow_arrives_idem (ArrowError.avro_error msg) ctx = refl
arrow_arrives_idem (ArrowError.io_error msg e) ctx = cc (io_arrives_idem e)
arrow_arrives_idem (ArrowError.offset_overflow_error n) ctx = cc (as_word_idem n)
arrow_arrives_idem e ctx = refl
