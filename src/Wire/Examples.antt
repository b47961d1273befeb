-- ===== src/Wire/Examples.antt =====
-- Errors that cross a connection which copies messages, and instances of the theorems at them.
use Prim.Native.String.{String}
use datafusion_distributed.Prelude.{◌≡◌, ◌≢◌, refl, none, some, ok, arith}
use datafusion_distributed.Wire.Io.{timed_out}
use datafusion_distributed.Wire.Arrow.{ArrowError}
use datafusion_distributed.Wire.Schema.{SchemaError, TableReference}
use datafusion_distributed.Wire.Sources.ObjectStore.{ObjectStoreError}
use datafusion_distributed.Wire.Types.{DataFusionError, Errors, DataFusionErrorProto}
use datafusion_distributed.Wire.Convert.{from_datafusion_error}
use datafusion_distributed.Wire.Arrivals.{listed, arrives}
use datafusion_distributed.Wire.Lossless.{Lossless, ArrowLossless, KindLossless}
use datafusion_distributed.Wire.Status.{
  Status, WireApi, internal, other_code, datafusion_error_to_tonic_status,
  tonic_status_to_datafusion_error,
}
use datafusion_distributed.Wire.Status.RoundTrip.{
  hop, status_round_trip, Lossless-round_trip, avro_lost,
}

abbrev copying : WireApi
copying = record {
  Bytes = DataFusionErrorProto;
  Diagnostic = String;
  DecodeError = Unit {0};
  new_error = λ m. m;
  encode_to_vec = λ p. p;
  decode = λ p. ok (listed p);
  show_decode_error = λ e. "";
  show_status = λ s. s.message;
  WithinLimit = λ p. Unit {0};
  decode-encode_to_vec = λ p w. refl;
}

abbrev failed_scan : DataFusionError String
failed_scan = DataFusionError.context "reading a partition" (
    DataFusionError.collection (
      Errors.cons
        (DataFusionError.arrow_error
          (ArrowError.io_error "socket" (record { kind = timed_out; display = "timed out" }))
          (some "batch 3"))
        (Errors.cons
          (DataFusionError.schema_error
            (SchemaError.duplicate_qualified_field (TableReference.partial "public" "t") "a") none)
          Errors.nil)))

abbrev bad_path : DataFusionError String
bad_path = DataFusionError.object_store (ObjectStoreError.invalid_path "a//b")

abbrev unavailable : Status DataFusionErrorProto
unavailable = record {
  code = other_code 14;
  message = "unavailable";
  details = from_datafusion_error bad_path;
}

other_code_differs : unavailable.code ≢ internal
other_code_differs e = ground arith

status_round_trip_example :
    tonic_status_to_datafusion_error copying (datafusion_error_to_tonic_status copying bad_path)
    ≡ some (arrives (λ m. m) bad_path)
status_round_trip_example = status_round_trip copying bad_path tt

failed_scan-Lossless : Lossless failed_scan
unfolding Lossless ArrowLossless KindLossless
failed_scan-Lossless = (tt, (tt, tt))

Lossless-round_trip_example : hop copying failed_scan ≡ failed_scan
Lossless-round_trip_example = Lossless-round_trip copying failed_scan failed_scan-Lossless tt

avro_lost_example :
    hop copying (DataFusionError.arrow_error (ArrowError.avro_error "bad block") (some "file 7"))
    ≡ DataFusionError.arrow_error (ArrowError.external_error "Malformed protobuf message") none
avro_lost_example = avro_lost copying "bad block" (some "file 7") tt
