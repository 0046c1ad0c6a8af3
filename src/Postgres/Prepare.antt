-- ===== src/Postgres/Prepare.antt =====
-- sdhs/DatabaseSystems/Postgres.c, PgPrepareCtx: the tables of the sensors, and the sizes of the pipe. The arenas have
-- room for the queries, and SdbStringAppendFmt has room for that of the metadata; cJSON and libpq answer with the values that are passed in.
use mathlib.Core.Option.{map}
use lmalloc.Common.{
  ℕ, ◌-◌, ◌*◌, ◌/◌, Bool, true, false, Option, none, some, List, [], ◌∷◌, ◌++◌, ◌==◌, not, ◌||◌,
  if◌then◌else◌, length, take, CString, codes,
}
use lmalloc.Postgres.{PgColMetadata}
use lmalloc.Postgres.Metadata.{MetadataRow, TableMetadata, get_table_metadata}

-- An attribute of a sensor in the schema: its name, and its type if that is a string.
pub record DataAttribute : Type 0 where
  pub name : CString
  pub type_name : Option CString

-- A sensor in the schema. `none`: what is named is missing, or not of the kind.
pub record SensorSchema : Type 0 where
  pub is_object : Bool
  pub name : Option CString
  pub sensor_data : Option (List DataAttribute)

-- What the database answers for a sensor, the names of the columns apart, and what the size of a row held before.
pub record SensorAnswers : Type 0 where
  pub created : Bool
  pub query_ok : Bool
  pub array_ok : Bool
  pub rows : List MetadataRow
  pub column_names : List CString
  pub row_size : ℕ

pub record PreparedTable : Type 0 where
  pub table_name : CString
  pub copy_command : CString
  pub metadata : TableMetadata

-- `PacketSize`, `ItemMaxCount` and `BufferMaxFill` of the pipe.
pub record PipeSizes : Type 0 where
  pub packet_size : ℕ
  pub item_max_count : ℕ
  pub buffer_max_fill : ℕ

-- `SdbStringBackspace`
unfoldable pub backspace : ℕ → CString → CString
backspace n s = take (length s - n) s

-- An attribute in front of the others; `none` is one that is not a string.
unfoldable pub with_attribute : CString → Option CString → Option CString → Option CString
with_attribute name none rest = none
with_attribute name (some type_name) rest =
    map (λ s. name ++ (codes " " ++ (type_name ++ (codes ",\n" ++ s)))) rest

-- The loop over the attributes.
unfoldable pub attributes_query : List DataAttribute → Option CString
unfolding with_attribute
attributes_query [] = some []
attributes_query (a ∷ attributes) =
    let rest = attributes_query attributes in with_attribute a.name a.type_name rest

unfoldable pub creation_query : CString → CString → CString
unfolding backspace
creation_query table attributes =
    backspace 2 (
      codes "CREATE TABLE IF NOT EXISTS "
      ++ (table ++ (codes "(\nid SERIAL PRIMARY KEY,\n" ++ attributes)))
    ++ codes ");"

-- `PQ_TABLE_METADATA_QUERY_FMT` with the table, which GetTableMetadata sends.
unfoldable pub metadata_query : CString → CString
metadata_query table =
    (codes
      "SELECT a.attname AS column_name, t.oid AS type_oid, t.typlen AS type_length, a.atttypmod AS type_modifier, EXISTS ( SELECT 1 FROM pg_constraint pc WHERE pc.conrelid = c.oid AND pc.contype = 'p' AND a.attnum = ANY(pc.conkey) ) AS is_primary_key, EXISTS ( SELECT 1 FROM pg_attrdef ad WHERE ad.adrelid = c.oid AND ad.adnum = a.attnum AND pg_get_expr(ad.adbin, ad.adrelid) LIKE 'nextval%' ) AS is_auto_increment FROM pg_catalog.pg_class c JOIN pg_catalog.pg_attribute a ON a.attrelid = c.oid JOIN pg_catalog.pg_type t ON a.atttypid = t.oid WHERE c.relname = '")
    ++ (table ++ codes "' AND a.attnum > 0 AND NOT a.attisdropped ORDER BY a.attnum")

-- The loop over the columns, with their names.
unfoldable pub copy_columns : List CString → List PgColMetadata → CString
copy_columns (name ∷ names) (c ∷ columns) =
    let rest = copy_columns names columns in
    if c.is_auto_increment then rest else name ++ (codes ", " ++ rest)
copy_columns _ _ = []

unfoldable pub copy_command : CString → List CString → List PgColMetadata → CString
unfolding copy_columns backspace
copy_command table names columns =
    backspace 2 (codes "COPY " ++ (table ++ (codes "(" ++ copy_columns names columns)))
    ++ codes ") FROM STDIN WITH (FORMAT binary)"

-- How a sensor ends; a row of no bytes divides by 0.
pub data SensorEnd : Type 0 where
  json_error pg_error divided_by_zero : SensorEnd
  prepared : PreparedTable → PipeSizes → SensorEnd

unfoldable pub pipe_sizes : ℕ → ℕ → PipeSizes
pipe_sizes cap packet_size = record {
  packet_size = packet_size;
  item_max_count = cap / packet_size;
  buffer_max_fill = packet_size * (cap / packet_size);
}

-- From the metadata on.
unfoldable pub with_metadata : ℕ → CString → List CString → Option TableMetadata → SensorEnd
unfolding copy_command pipe_sizes
with_metadata cap table names none = pg_error
with_metadata cap table names (some metadata) =
    if metadata.col_count == 0
    then pg_error
    else if metadata.row_size == 0
    then divided_by_zero
    else prepared
        (record {
          table_name = table;
          copy_command = copy_command table names metadata.columns;
          metadata = metadata;
        })
        (pipe_sizes cap metadata.row_size)

-- From the creation query on: the queries, and the end.
unfoldable pub with_query : ℕ → CString → SensorAnswers → Option CString → List CString × SensorEnd
unfolding creation_query metadata_query with_metadata
with_query cap table answers none = ([], json_error)
with_query cap table answers (some attributes) =
    if not answers.created then (creation_query table attributes ∷ [], pg_error) else (
      creation_query table attributes ∷ metadata_query table ∷ [],
      with_metadata cap table answers.column_names
          (get_table_metadata answers.query_ok answers.array_ok answers.rows answers.row_size),
    )

unfoldable pub with_data :
    ℕ → CString → SensorAnswers → Option (List DataAttribute) → List CString × SensorEnd
unfolding attributes_query with_query
with_data cap table answers none = ([], json_error)
with_data cap table answers (some attributes) =
    with_query cap table answers (attributes_query attributes)

unfoldable pub with_name :
    ℕ → Option (List DataAttribute) → SensorAnswers → Option CString → List CString × SensorEnd
unfolding with_data
with_name cap sensor_data answers none = ([], json_error)
with_name cap sensor_data answers (some name) = with_data cap name answers sensor_data

-- One round of the loop over the sensors: the queries that it sends, and how it ends.
unfoldable pub prepare_sensor : ℕ → SensorSchema → SensorAnswers → List CString × SensorEnd
unfolding with_name
prepare_sensor cap schema answers =
    if not schema.is_object
    then ([], json_error)
    else with_name cap schema.sensor_data answers schema.name

pub data Outcome : Type 0 where
  done json_failed pg_failed faulted : Outcome

-- What the loop has done: the tables, the queries, the sizes that the pipe has, and the outcome.
pub record Prepared : Type 0 where
  pub tables : List PreparedTable
  pub queries : List CString
  pub pipe : Option PipeSizes
  pub outcome : Outcome

-- A round in front of the rest of the loop.
unfoldable pub after_sensor : List CString → SensorEnd → Option PipeSizes → Prepared → Prepared
after_sensor sent json_error pipe rest = record {
  tables = [];
  queries = sent;
  pipe = pipe;
  outcome = json_failed;
}
after_sensor sent pg_error pipe rest = record {
  tables = [];
  queries = sent;
  pipe = pipe;
  outcome = pg_failed;
}
after_sensor sent divided_by_zero pipe rest = record {
  tables = [];
  queries = sent;
  pipe = pipe;
  outcome = faulted;
}
after_sensor sent (prepared table sizes) pipe rest = record rest {
  tables = table ∷ rest.tables;
  queries = sent ++ rest.queries;
}

unfoldable pub next_pipe : SensorEnd → Option PipeSizes → Option PipeSizes
next_pipe (prepared table sizes) pipe = some sizes
next_pipe _ pipe = pipe

unfoldable pub prepare_sensors :
    ℕ → List (SensorSchema × SensorAnswers) → Option PipeSizes → Prepared
unfolding prepare_sensor after_sensor next_pipe
prepare_sensors cap [] pipe = record { tables = []; queries = []; pipe = pipe; outcome = done }
prepare_sensors cap ((schema, answers) ∷ sensors) pipe =
    let round = prepare_sensor cap schema answers in
    let rest = prepare_sensors cap sensors (next_pipe round.1 pipe) in
    after_sensor round.0 round.1 pipe rest

-- What the files and the connection answer.
pub record CtxAnswers : Type 0 where
  pub conf_loaded : Bool
  pub schema_is_object : Bool
  pub sensors_is_array : Bool
  pub connected : Bool

-- The context, `none` for NULL, and whether a connection was asked for and finished.
pub record CtxResult : Type 0 where
  pub ctx : Option Prepared
  pub asked : Bool
  pub finished : Bool

unfoldable pub end_ctx : Outcome → Prepared → Option CtxResult
end_ctx done p = some (record { ctx = some p; asked = true; finished = false })
end_ctx faulted p = none
end_ctx _ p = some (record { ctx = none; asked = true; finished = true })

-- `none` is the division by 0.
unfoldable pub pg_prepare_ctx :
    CtxAnswers → ℕ → List (SensorSchema × SensorAnswers) → Option CtxResult
unfolding end_ctx prepare_sensors
pg_prepare_ctx a cap sensors =
    if not a.conf_loaded || (not a.schema_is_object || not a.sensors_is_array)
    then some (record { ctx = none; asked = false; finished = false })
    else if not a.connected
    then some (record { ctx = none; asked = true; finished = true })
    else (let p = prepare_sensors cap sensors none in end_ctx p.outcome p)
