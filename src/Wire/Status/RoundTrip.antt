-- ===== src/Wire/Status/RoundTrip.antt =====
-- An error over the wire and back: src/protocol/grpc/errors/mod.rs, src/common/retry_outcome.rs.
use Prim.Native.String.{String}
use text.Mathlib.Text.{◌==◌}
use datafusion_distributed.Prelude.{
  ◌≡◌, ◌≢◌, refl, sym, ap, ◌∙◌, false, Option, none, some, ◌⊎◌, inl, inr, arith,
}
use datafusion_distributed.Wire.Arrow.{ArrowError, arrow_arrives}
use datafusion_distributed.Wire.Types.{DataFusionError}
use datafusion_distributed.Wire.Convert.{from_datafusion_error}
use datafusion_distributed.Wire.Arrivals.{arrives, over_wire, settles}
use datafusion_distributed.Wire.Lossless.{Lossless, kept}
use datafusion_distributed.Wire.Status.{
  Code, Status, WireApi, tonic, other_code, RetryOutcome, internal, same_url, other_url,
  try_from_err, tag, datafusion_error_to_tonic_status, tonic_status_to_datafusion_error,
  map_status_to_datafusion_error, map_flight_to_datafusion_error, decoded, or_external, is_internal,
}

foreign_code : (c : Code) → c ≢ internal → is_internal c ≡ false
unfolding is_internal
foreign_code internal h = absurd (h refl)
foreign_code (other_code n) h = refl

module _ (api : WireApi) where
  open api use {Bytes, Diagnostic, WithinLimit, new_error, decode-encode_to_vec, show_status}

  -- An error whose message is within the limit of nesting is recovered from its status, but for what
  -- the messages leave out.
  pub status_round_trip :
      (e : DataFusionError Diagnostic)
      → WithinLimit (from_datafusion_error e)
      → tonic_status_to_datafusion_error api (datafusion_error_to_tonic_status api e)
        ≡ some (arrives new_error e)
  unfolding tonic_status_to_datafusion_error datafusion_error_to_tonic_status
  status_round_trip e w =
      ap (λ r. some (decoded api r)) (decode-encode_to_vec (from_datafusion_error e) w)
      ∙ ap some (over_wire new_error e)

  -- One call over the network, as its client sees it.
  abbrev pub hop : DataFusionError Diagnostic → DataFusionError Diagnostic
  hop e = map_flight_to_datafusion_error api (tonic (datafusion_error_to_tonic_status api e))

  pub hop_lem :
      (e : DataFusionError Diagnostic)
      → WithinLimit (from_datafusion_error e)
      → hop e ≡ arrives new_error e
  unfolding map_flight_to_datafusion_error map_status_to_datafusion_error
  hop_lem e w =
      ap (λ o. or_external api o (datafusion_error_to_tonic_status api e)) (status_round_trip e w)

  -- An error in which nothing is of the kinds that the messages leave out, and whose message is
  -- within the limit of nesting, reaches the client as it was.
  pub Lossless-round_trip :
      (e : DataFusionError Diagnostic)
      → Lossless e
      → WithinLimit (from_datafusion_error e)
      → hop e ≡ e
  Lossless-round_trip e l w = hop_lem e w ∙ kept new_error e l

  -- After two calls, an error whose messages are within the limit of nesting changes no more.
  pub hops_settle :
      (e : DataFusionError Diagnostic)
      → WithinLimit (from_datafusion_error e)
      → WithinLimit (from_datafusion_error (hop e))
      → WithinLimit (from_datafusion_error (hop (hop e)))
      → hop (hop (hop e)) ≡ hop (hop e)
  hops_settle e w v u =
      let first = hop_lem e w in
      let second = hop_lem (hop e) v ∙ ap (arrives new_error) first in
      let third = hop_lem (hop (hop e)) u ∙ ap (arrives new_error) second in
      third ∙ (settles new_error e ∙ sym second)

  try-arrives :
      (e : DataFusionError Diagnostic) → try_from_err (arrives new_error e) ≡ try_from_err e
  unfolding try_from_err arrives
  try-arrives (DataFusionError.context info e) = refl
  try-arrives e = refl

  -- The outcome that is read off an error does not change over the wire, if the message of the error
  -- is within the limit of nesting.
  pub try_from_err-hop :
      (e : DataFusionError Diagnostic)
      → WithinLimit (from_datafusion_error e)
      → try_from_err (hop e) ≡ try_from_err e
  try_from_err-hop e w = ap try_from_err (hop_lem e w) ∙ try-arrives e

  not_decoded :
      (s : Status Bytes)
      → (s.code ≢ internal) ⊎ ((s.message == "DataFusionError") ≡ false)
      → tonic_status_to_datafusion_error api s ≡ none
  unfolding tonic_status_to_datafusion_error is_internal
  not_decoded s (inl n) = rw (foreign_code s.code n) refl
  not_decoded s (inr e) = ground (arith, e)

  -- A status with another code or another message is no `DataFusionError`: the client sees it as an
  -- external error.
  pub foreign_status :
      (s : Status Bytes)
      → (s.code ≢ internal) ⊎ ((s.message == "DataFusionError") ≡ false)
      → (tonic_status_to_datafusion_error api s ≡ none)
        × (map_status_to_datafusion_error api s ≡ DataFusionError.external (show_status s))
  unfolding map_status_to_datafusion_error
  foreign_status s h = (not_decoded s h, ap (λ o. or_external api o s) (not_decoded s h))

  -- An Avro error of Arrow is not recovered: its message and its context are lost.
  pub avro_lost :
      (msg : String) (ctx : Option String)
      → WithinLimit (
          from_datafusion_error {D = Diagnostic}
            (DataFusionError.arrow_error (ArrowError.avro_error msg) ctx))
      → hop (DataFusionError.arrow_error (ArrowError.avro_error msg) ctx)
        ≡ DataFusionError.arrow_error (ArrowError.external_error "Malformed protobuf message") none
  unfolding arrives arrow_arrives
  avro_lost msg ctx w = hop_lem (DataFusionError.arrow_error (ArrowError.avro_error msg) ctx) w

-- The outcome of a tagged error is its tag.
pub try_from_err-tag :
    {D : Type 0} (o : RetryOutcome) (e : DataFusionError D) → try_from_err (tag o e) ≡ some o
unfolding try_from_err tag
try_from_err-tag same_url e = refl
try_from_err-tag other_url e = refl
