-- ===== src/Wire/Sources/Parser.antt =====
-- src/protocol/grpc/errors/parser_error.rs.
use Prim.Native.String.{String}
use datafusion_distributed.Prelude.{◌≡◌, refl, Bool, true, Option, none, some}

pub data ParserError : Type 0 where
  tokenizer_error parser_error : String → ParserError
  recursion_limit_exceeded : ParserError

pub data ParserErrorInnerProto : Type 0 where
  tokenizer_error parser_error : String → ParserErrorInnerProto
  recursion_limit_exceeded : Bool → ParserErrorInnerProto

pub record ParserErrorProto : Type 0 where
  pub inner : Option ParserErrorInnerProto

pub from_parser_error : ParserError → ParserErrorProto
from_parser_error (ParserError.tokenizer_error msg) = record {
  inner = some (ParserErrorInnerProto.tokenizer_error msg);
}
from_parser_error (ParserError.parser_error msg) = record {
  inner = some (ParserErrorInnerProto.parser_error msg);
}
from_parser_error ParserError.recursion_limit_exceeded = record {
  inner = some (ParserErrorInnerProto.recursion_limit_exceeded true);
}

parser_of_inner : ParserErrorInnerProto → ParserError
parser_of_inner (ParserErrorInnerProto.tokenizer_error msg) = ParserError.tokenizer_error msg
parser_of_inner (ParserErrorInnerProto.parser_error msg) = ParserError.parser_error msg
parser_of_inner (ParserErrorInnerProto.recursion_limit_exceeded b) =
    ParserError.recursion_limit_exceeded

pub to_parser_error : ParserErrorProto → ParserError
unfolding parser_of_inner
to_parser_error p = elim p.inner [
  | none ↦ ParserError.parser_error "Malformed protobuf message"
  | some inner ↦ parser_of_inner inner
]

pub parser_over_wire : (e : ParserError) → to_parser_error (from_parser_error e) ≡ e
unfolding to_parser_error from_parser_error
parser_over_wire (ParserError.tokenizer_error msg) = refl
parser_over_wire (ParserError.parser_error msg) = refl
parser_over_wire ParserError.recursion_limit_exceeded = refl
