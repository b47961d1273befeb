-- ===== src/Wire/Status.antt =====
-- Errors as statuses of a gRPC call: src/protocol/grpc/errors/mod.rs, and the outcome that the
-- coordinator reads off an error: src/common/retry_outcome.rs.
pub mod RoundTrip
use Prim.Native.String.{String, ◌++◌}
use text.Mathlib.Text.{◌==◌}
use datafusion_distributed.Prelude.{
  ℕ, ◌≡◌, Bool, true, false, not, Option, none, some, Result, ok, err, if◌then◌else◌,
}
use datafusion_distributed.Wire.Types.{DataFusionError, DataFusionErrorProto}
use datafusion_distributed.Wire.Convert.{from_datafusion_error, to_datafusion_err}
use datafusion_distributed.Wire.Arrivals.{listed}

-- `tonic::Code`; the source names one.
pub data Code : Type 0 where
  internal : Code
  other_code : ℕ → Code

pub record Status (Bytes : Type 0) : Type 0 where
  pub code : Code
  pub message : String
  pub details : Bytes

-- What the source calls of its libraries. A message is read back as it was written, less the
-- fields with a tag that is not listed, if its nesting is within the reader's limit.
pub record WireApi : Type 1 where
  pub Bytes : Type 0
  pub Diagnostic : Type 0
  pub DecodeError : Type 0
  pub new_error : String → Diagnostic
  pub encode_to_vec : DataFusionErrorProto → Bytes
  pub decode : Bytes → Result DecodeError DataFusionErrorProto
  pub show_decode_error : DecodeError → String
  pub show_status : Status Bytes → String
  pub WithinLimit : DataFusionErrorProto → Type 0
  pub decode-encode_to_vec :
      (p : DataFusionErrorProto) → WithinLimit p → decode (encode_to_vec p) ≡ ok (listed p)

-- `FlightError`; the others by the text that they display.
pub data FlightError (Bytes : Type 0) : Type 0 where
  tonic : Status Bytes → FlightError Bytes
  other_flight : String → FlightError Bytes

pub data RetryOutcome : Type 0 where
  same_url other_url : RetryOutcome

outcome_of : String → Option RetryOutcome
outcome_of info =
    if info == "RetryOutcome::SameUrl"
    then some same_url
    else if info == "RetryOutcome::OtherUrl"
    then some other_url
    else none

pub try_from_err : {D : Type 0} → DataFusionError D → Option RetryOutcome
unfolding outcome_of
try_from_err (DataFusionError.context info e) = outcome_of info
try_from_err e = none

pub tag : {D : Type 0} → RetryOutcome → DataFusionError D → DataFusionError D
tag same_url e = DataFusionError.context "RetryOutcome::SameUrl" e
tag other_url e = DataFusionError.context "RetryOutcome::OtherUrl" e

is_internal : Code → Bool
is_internal internal = true
is_internal (other_code n) = false

module _ (api : WireApi) where
  open api use {Bytes, Diagnostic, DecodeError, new_error, encode_to_vec, decode, show_status}

  pub datafusion_error_to_tonic_status : DataFusionError Diagnostic → Status Bytes
  datafusion_error_to_tonic_status e = record {
    code = internal;
    message = "DataFusionError";
    details = encode_to_vec (from_datafusion_error e);
  }

  decoded : Result DecodeError DataFusionErrorProto → DataFusionError Diagnostic
  decoded (ok p) = to_datafusion_err new_error p
  decoded (err e) =
      DataFusionError.internal ("Cannot decode DataFusionError: " ++ api.show_decode_error e)

  pub tonic_status_to_datafusion_error : Status Bytes → Option (DataFusionError Diagnostic)
  unfolding decoded is_internal
  tonic_status_to_datafusion_error s =
      if not (is_internal s.code)
      then none
      else if not (s.message == "DataFusionError")
      then none
      else some (decoded (decode s.details))

  -- `unwrap_or_else`
  or_external : Option (DataFusionError Diagnostic) → Status Bytes → DataFusionError Diagnostic
  or_external (some e) s = e
  or_external none s = DataFusionError.external (show_status s)

  pub map_status_to_datafusion_error : Status Bytes → DataFusionError Diagnostic
  unfolding or_external
  map_status_to_datafusion_error s = or_external (tonic_status_to_datafusion_error s) s

  pub map_flight_to_datafusion_error : FlightError Bytes → DataFusionError Diagnostic
  map_flight_to_datafusion_error (tonic s) = map_status_to_datafusion_error s
  map_flight_to_datafusion_error (other_flight msg) = DataFusionError.external msg
