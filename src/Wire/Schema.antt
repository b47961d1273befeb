-- ===== src/Wire/Schema.antt =====
-- Schema errors over the wire: src/protocol/grpc/errors/schema_error.rs. The source positions of a
-- column, which the messages leave out, are not part of the model.
use Prim.Native.String.{String}
use datafusion_distributed.Prelude.{◌≡◌, refl, ap, List, [], ◌∷◌, map, Option, none, some}

pub data TableReference : Type 0 where
  bare : (table : String) → TableReference
  partial : (schema table : String) → TableReference
  full : (catalog schema table : String) → TableReference

pub record Column : Type 0 where
  pub relation : Option TableReference
  pub name : String

pub data SchemaError : Type 0 where
  ambiguous_reference : (field : Column) → SchemaError
  duplicate_qualified_field : (qualifier : TableReference) → (name : String) → SchemaError
  duplicate_unqualified_field : (name : String) → SchemaError
  field_not_found : (field : Column) → (valid_fields : List Column) → SchemaError

pub data TableReferenceInnerProto : Type 0 where
  bare : (table : String) → TableReferenceInnerProto
  partial : (schema table : String) → TableReferenceInnerProto
  full : (catalog schema table : String) → TableReferenceInnerProto

pub record TableReferenceProto : Type 0 where
  pub inner : Option TableReferenceInnerProto

pub record ColumnProto : Type 0 where
  pub relation : Option TableReferenceProto
  pub name : String

pub data SchemaErrorInnerProto : Type 0 where
  ambiguous_reference : (field : Option ColumnProto) → SchemaErrorInnerProto
  duplicate_qualified_field :
      (qualifier : Option TableReferenceProto) → (name : String) → SchemaErrorInnerProto
  duplicate_unqualified_field : (name : String) → SchemaErrorInnerProto
  field_not_found :
      (field : Option ColumnProto) → (valid_fields : List ColumnProto) → SchemaErrorInnerProto

pub record SchemaErrorProto : Type 0 where
  pub backtrace : Option String
  pub inner : Option SchemaErrorInnerProto

table_inner : TableReference → TableReferenceInnerProto
table_inner (TableReference.bare table) = TableReferenceInnerProto.bare table
table_inner (TableReference.partial schema table) = TableReferenceInnerProto.partial schema table
table_inner (TableReference.full catalog schema table) =
    TableReferenceInnerProto.full catalog schema table

from_table_reference : TableReference → TableReferenceProto
unfolding table_inner
from_table_reference t = record { inner = some (table_inner t) }

table_of_inner : TableReferenceInnerProto → TableReference
table_of_inner (TableReferenceInnerProto.bare table) = TableReference.bare table
table_of_inner (TableReferenceInnerProto.partial schema table) = TableReference.partial schema table
table_of_inner (TableReferenceInnerProto.full catalog schema table) =
    TableReference.full catalog schema table

to_table_reference : TableReferenceProto → TableReference
unfolding table_of_inner
to_table_reference p = elim p.inner [
  | none ↦ TableReference.bare ""
  | some inner ↦ table_of_inner inner
]

-- `Option::map`
unfoldable map_option {ℓ κ} : {A : Type ℓ} {B : Type κ} → (A → B) → Option A → Option B
map_option f none = none
map_option f (some a) = some (f a)

-- `Option::unwrap_or` after `Option::map`
unfoldable map_or {ℓ κ} : {A : Type ℓ} {B : Type κ} → (A → B) → B → Option A → B
map_or f b none = b
map_or f b (some a) = f a

from_column : Column → ColumnProto
unfolding map_option
from_column c = record { relation = map_option from_table_reference c.relation; name = c.name }

to_column : ColumnProto → Column
unfolding map_option
to_column p = record { relation = map_option to_table_reference p.relation; name = p.name }

-- `Column::new_unqualified("")`
abbrev unnamed_column : Column
unnamed_column = record { relation = none; name = "" }

schema_inner : SchemaError → SchemaErrorInnerProto
schema_inner (SchemaError.ambiguous_reference field) =
    SchemaErrorInnerProto.ambiguous_reference (some (from_column field))
schema_inner (SchemaError.duplicate_qualified_field qualifier name) =
    SchemaErrorInnerProto.duplicate_qualified_field (some (from_table_reference qualifier)) name
schema_inner (SchemaError.duplicate_unqualified_field name) =
    SchemaErrorInnerProto.duplicate_unqualified_field name
schema_inner (SchemaError.field_not_found field valid_fields) =
    SchemaErrorInnerProto.field_not_found (some (from_column field)) (map from_column valid_fields)

pub from_schema_error : SchemaError → Option String → SchemaErrorProto
unfolding schema_inner
from_schema_error e backtrace = record { backtrace = backtrace; inner = some (schema_inner e) }

schema_of_inner : SchemaErrorInnerProto → SchemaError
unfolding map_or
schema_of_inner (SchemaErrorInnerProto.ambiguous_reference field) =
    SchemaError.ambiguous_reference (map_or to_column unnamed_column field)
schema_of_inner (SchemaErrorInnerProto.duplicate_qualified_field qualifier name) =
    SchemaError.duplicate_qualified_field
      (map_or to_table_reference (TableReference.bare "") qualifier) name
schema_of_inner (SchemaErrorInnerProto.duplicate_unqualified_field name) =
    SchemaError.duplicate_unqualified_field name
schema_of_inner (SchemaErrorInnerProto.field_not_found field valid_fields) =
    SchemaError.field_not_found (map_or to_column unnamed_column field) (map to_column valid_fields)

pub to_schema_error : SchemaErrorProto → SchemaError × Option String
unfolding schema_of_inner
to_schema_error p = elim p.inner [
  | none ↦ (SchemaError.field_not_found unnamed_column [], none)
  | some inner ↦ (schema_of_inner inner, p.backtrace)
]

table_over_wire : (t : TableReference) → to_table_reference (from_table_reference t) ≡ t
unfolding to_table_reference from_table_reference
table_over_wire (TableReference.bare table) = refl
table_over_wire (TableReference.partial schema table) = refl
table_over_wire (TableReference.full catalog schema table) = refl

relation_over_wire :
    (r : Option TableReference)
    → map_option to_table_reference (map_option from_table_reference r) ≡ r
unfolding map_option
relation_over_wire none = refl
relation_over_wire (some t) = cc (table_over_wire t)

column_over_wire : (c : Column) → to_column (from_column c) ≡ c
unfolding to_column from_column
column_over_wire c =
    ap (λ r. record { relation = r; name = c.name }) (relation_over_wire c.relation)

columns_over_wire : (cs : List Column) → map to_column (map from_column cs) ≡ cs
columns_over_wire [] = refl
columns_over_wire (c ∷ cs) = cc (column_over_wire c, columns_over_wire cs)

-- A schema error and its backtrace arrive as they were.
pub schema_over_wire :
    (e : SchemaError) (b : Option String) → to_schema_error (from_schema_error e b) ≡ (e, b)
unfolding to_schema_error from_schema_error map_or
schema_over_wire (SchemaError.ambiguous_reference field) b = cc (column_over_wire field)
schema_over_wire (SchemaError.duplicate_qualified_field qualifier name) b =
    cc (table_over_wire qualifier)
schema_over_wire (SchemaError.duplicate_unqualified_field name) b = refl
schema_over_wire (SchemaError.field_not_found field valid_fields) b =
    cc (column_over_wire field, columns_over_wire valid_fields)
