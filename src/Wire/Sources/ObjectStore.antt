-- ===== src/Wire/Sources/ObjectStore.antt =====
-- src/protocol/grpc/errors/objectstore_error.rs. `unlisted` stands for the errors that the source
-- does not name.
use Prim.Native.String.{String, ◌++◌}
use text.Mathlib.Text.{◌==◌}
use datafusion_distributed.Prelude.{
  ◌≡◌, refl, ap, Bool, true, false, List, [], ◌∷◌, Option, none, some, if◌then◌else◌, All,
}

pub data ObjectStoreError : Type 0 where
  generic : (store source : String) → ObjectStoreError
  not_found already_exists precondition not_modified : (path source : String) → ObjectStoreError
  permission_denied unauthenticated : (path source : String) → ObjectStoreError
  invalid_path join_error not_supported : (source : String) → ObjectStoreError
  not_implemented : (operation implementer : String) → ObjectStoreError
  unknown_configuration_key : (key store : String) → ObjectStoreError
  unlisted : ObjectStoreError

pub data ObjectStoreErrorInnerProto : Type 0 where
  generic : (store source : String) → ObjectStoreErrorInnerProto
  not_found already_exists precondition not_modified :
      (path source : String) → ObjectStoreErrorInnerProto
  permission_denied unauthenticated : (path source : String) → ObjectStoreErrorInnerProto
  invalid_path join_error not_supported : (source : String) → ObjectStoreErrorInnerProto
  not_implemented : Bool → ObjectStoreErrorInnerProto
  unknown_configuration_key : (key store : String) → ObjectStoreErrorInnerProto

pub record ObjectStoreErrorProto : Type 0 where
  pub inner : Option ObjectStoreErrorInnerProto

-- the arms of `parse_store`
abbrev pub known_stores : List String
known_stores =
    "GCS" ∷ "MicrosoftAzure" ∷ "S3" ∷ "Config" ∷ "ChunkedStore" ∷ "LineDelimiter" ∷ "HTTP client"
    ∷ "HTTP" ∷ "URL" ∷ "InMemory" ∷ "ObjectStoreRegistry" ∷ "Parts" ∷ "LocalFileSystem" ∷ []

unfoldable pub match_store : List String → String → String
match_store [] store = "Unknown"
match_store (arm ∷ arms) store =
    let rest = match_store arms store in if store == arm then arm else rest

unfoldable pub parse_store : String → String
parse_store store = match_store known_stores store

unfoldable pub object_store_inner : ObjectStoreError → ObjectStoreErrorInnerProto
object_store_inner (ObjectStoreError.generic store source) =
    ObjectStoreErrorInnerProto.generic store source
object_store_inner (ObjectStoreError.not_found path source) =
    ObjectStoreErrorInnerProto.not_found path source
object_store_inner (ObjectStoreError.invalid_path source) =
    ObjectStoreErrorInnerProto.invalid_path source
object_store_inner (ObjectStoreError.join_error source) =
    ObjectStoreErrorInnerProto.join_error source
object_store_inner (ObjectStoreError.not_supported source) =
    ObjectStoreErrorInnerProto.not_supported source
object_store_inner (ObjectStoreError.already_exists path source) =
    ObjectStoreErrorInnerProto.already_exists path source
object_store_inner (ObjectStoreError.precondition path source) =
    ObjectStoreErrorInnerProto.precondition path source
object_store_inner (ObjectStoreError.not_modified path source) =
    ObjectStoreErrorInnerProto.not_modified path source
object_store_inner (ObjectStoreError.not_implemented operation implementer) =
    ObjectStoreErrorInnerProto.not_implemented true
object_store_inner (ObjectStoreError.permission_denied path source) =
    ObjectStoreErrorInnerProto.permission_denied path source
object_store_inner (ObjectStoreError.unauthenticated path source) =
    ObjectStoreErrorInnerProto.unauthenticated path source
object_store_inner (ObjectStoreError.unknown_configuration_key key store) =
    ObjectStoreErrorInnerProto.unknown_configuration_key key store
object_store_inner ObjectStoreError.unlisted =
    ObjectStoreErrorInnerProto.generic "Could not serialize ObjectStore error to proto"
      "Could not serialize ObjectStore error to proto"

unfoldable pub from_object_store_error : ObjectStoreError → ObjectStoreErrorProto
unfolding object_store_inner
from_object_store_error e = record { inner = some (object_store_inner e) }

unfoldable pub object_store_of_inner : ObjectStoreErrorInnerProto → ObjectStoreError
unfolding parse_store
object_store_of_inner (ObjectStoreErrorInnerProto.generic store source) =
    ObjectStoreError.generic (parse_store store) source
object_store_of_inner (ObjectStoreErrorInnerProto.not_found path source) =
    ObjectStoreError.not_found path source
object_store_of_inner (ObjectStoreErrorInnerProto.invalid_path source) =
    ObjectStoreError.generic "unknown" ("InvalidPath: " ++ source)
object_store_of_inner (ObjectStoreErrorInnerProto.join_error source) =
    ObjectStoreError.generic "unknown" ("JoinError: " ++ source)
object_store_of_inner (ObjectStoreErrorInnerProto.not_supported source) =
    ObjectStoreError.not_supported source
object_store_of_inner (ObjectStoreErrorInnerProto.already_exists path source) =
    ObjectStoreError.already_exists path source
object_store_of_inner (ObjectStoreErrorInnerProto.precondition path source) =
    ObjectStoreError.precondition path source
object_store_of_inner (ObjectStoreErrorInnerProto.not_modified path source) =
    ObjectStoreError.not_modified path source
object_store_of_inner (ObjectStoreErrorInnerProto.not_implemented b) =
    ObjectStoreError.not_implemented "unknown_operation" "unknown_implementer"
object_store_of_inner (ObjectStoreErrorInnerProto.permission_denied path source) =
    ObjectStoreError.permission_denied path source
object_store_of_inner (ObjectStoreErrorInnerProto.unauthenticated path source) =
    ObjectStoreError.unauthenticated path source
object_store_of_inner (ObjectStoreErrorInnerProto.unknown_configuration_key key store) =
    ObjectStoreError.unknown_configuration_key key (parse_store store)

unfoldable pub to_object_store_error : ObjectStoreErrorProto → ObjectStoreError
unfolding object_store_of_inner
to_object_store_error p = elim p.inner [
  | none ↦ ObjectStoreError.generic "unknown" "Could not deserialize ObjectStore error from proto"
  | some inner ↦ object_store_of_inner inner
]

-- What arrives of an error.
unfoldable pub object_store_arrives : ObjectStoreError → ObjectStoreError
object_store_arrives (ObjectStoreError.generic store source) =
    ObjectStoreError.generic (parse_store store) source
object_store_arrives (ObjectStoreError.invalid_path source) =
    ObjectStoreError.generic "unknown" ("InvalidPath: " ++ source)
object_store_arrives (ObjectStoreError.join_error source) =
    ObjectStoreError.generic "unknown" ("JoinError: " ++ source)
object_store_arrives (ObjectStoreError.not_implemented operation implementer) =
    ObjectStoreError.not_implemented "unknown_operation" "unknown_implementer"
object_store_arrives (ObjectStoreError.unknown_configuration_key key store) =
    ObjectStoreError.unknown_configuration_key key (parse_store store)
object_store_arrives ObjectStoreError.unlisted =
    ObjectStoreError.generic "Unknown" "Could not serialize ObjectStore error to proto"
object_store_arrives e = e

pub object_store_over_wire :
    (e : ObjectStoreError)
    → to_object_store_error (from_object_store_error e) ≡ object_store_arrives e
unfolding to_object_store_error from_object_store_error object_store_arrives match_store
object_store_over_wire (ObjectStoreError.generic store source) = refl
object_store_over_wire e = refl

match_store_rule {ℓ} :
    (P : String → Type ℓ) (arms : List String) (store : String)
    → All P arms
    → P "Unknown"
    → P (match_store arms store)
unfolding match_store
match_store_rule P [] store h u = u
match_store_rule P (arm ∷ arms) store h u =
    elim (store == arm) as (λ b. P (if b then arm else match_store arms store)) [
      | true ↦ h.0
      | false ↦ match_store_rule P arms store h.1 u
    ]

pub parse_store_idem : (store : String) → parse_store (parse_store store) ≡ parse_store store
unfolding parse_store match_store
parse_store_idem store =
    match_store_rule (λ s. parse_store s ≡ s) known_stores store
      (
        refl,
        (
          refl,
          (
            refl,
            (refl, (refl, (refl, (refl, (refl, (refl, (refl, (refl, (refl, (refl, tt)))))))))),
          ),
        ),
      )
      refl

pub object_store_arrives_settles :
    (e : ObjectStoreError)
    → object_store_arrives (object_store_arrives (object_store_arrives e))
      ≡ object_store_arrives (object_store_arrives e)
unfolding object_store_arrives match_store parse_store
object_store_arrives_settles (ObjectStoreError.generic store source) =
    ap (λ s. ObjectStoreError.generic (parse_store s) source) (parse_store_idem store)
object_store_arrives_settles (ObjectStoreError.unknown_configuration_key key store) =
    ap (λ s. ObjectStoreError.unknown_configuration_key key (parse_store s))
      (parse_store_idem store)
object_store_arrives_settles e = refl
