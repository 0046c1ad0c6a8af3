-- ===== src/Postgres/Examples.antt =====
-- sdhs/DatabaseSystems/Postgres.c: concrete runs, and the theorems at concrete inputs.
use lmalloc.Common.{
  CString, codes, List, ◌≡◌, ◌<◌, refl, inl, inr, true, false, some, [], ◌∷◌, ◌++◌, arith, length,
  Bytes,
}
use lmalloc.Postgres.{
  PgColMetadata, PgTableInfo, convert_rows, ntwrk_conv_buf_size, unix_to_pg_timestamp,
}
use lmalloc.Postgres.Decode.{written_count, written_size, Fields, read_rows}
use lmalloc.Postgres.Values.{values_of, all_values, read_rows-convert_rows}
use lmalloc.Postgres.Sizes.{conv_buf_overflows}
use lmalloc.Postgres.Metadata.{
  MetadataRow, TableMetadata, Laid, get_table_metadata, get_table_metadata_lem,
}
use lmalloc.Postgres.Prepare.{
  DataAttribute, SensorSchema, SensorAnswers, Prepared, done, attributes_query, creation_query,
  metadata_query, copy_command, CtxAnswers,
}
use lmalloc.Postgres.Query.{separated, attribute_texts, copy_command_lem, creation_query_lem}
use lmalloc.Postgres.Insert.{PgCalls, rows}

-- Each byte is its address.
abbrev counted : Bytes
counted a = a

-- An i32 and an i16 behind a key that the database counts up.
abbrev key_column : PgColMetadata
key_column = record {
  type_oid = 23;
  type_length = 4;
  type_modifier = 0;
  is_primary_key = true;
  is_auto_increment = true;
  offset = 4_294_967_295;
}

abbrev int_column : PgColMetadata
int_column = record {
  type_oid = 23;
  type_length = 4;
  type_modifier = 0;
  is_primary_key = false;
  is_auto_increment = false;
  offset = 0;
}

abbrev short_column : PgColMetadata
short_column = record int_column { type_oid = 21; type_length = 2; offset = 4 }

abbrev two_columns : PgTableInfo
two_columns = record {
  col_metadata = key_column ∷ int_column ∷ short_column ∷ [];
  col_count_no_auto_increments = 2;
  row_size = 6;
}

row_bytes :
    convert_rows two_columns counted 10 1 0
    ≡ 0 ∷ 2 ∷ 0 ∷ 0 ∷ 0 ∷ 4 ∷ 13 ∷ 12 ∷ 11 ∷ 10 ∷ 0 ∷ 0 ∷ 0 ∷ 2 ∷ 15 ∷ 14 ∷ []
unfolding convert_rows
row_bytes = refl

-- The first second of the year 2000.
epoch : unix_to_pg_timestamp 946_684_800 ≡ 0
unfolding unix_to_pg_timestamp
epoch = refl

read_rows-convert_rows_example :
    (rows : List Fields) × (read_rows 2 (convert_rows two_columns counted 10 2 0) ≡ some (rows, []))
    × (values_of rows ≡ all_values two_columns counted 10 2)
read_rows-convert_rows_example =
    read_rows-convert_rows two_columns counted 10 2
      (inl refl, (inr (refl, omega arith), (inr (refl, omega arith), tt))) refl (omega arith)
      (refl, (refl, tt)) refl (omega arith) (omega arith)

conv_buf_overflows_example :
    ntwrk_conv_buf_size two_columns 1 < length (convert_rows two_columns counted 10 1 0)
conv_buf_overflows_example =
    conv_buf_overflows two_columns counted 10 1
      (inl refl, (inr (refl, omega arith), (inr (refl, omega arith), tt))) refl (omega arith)
      (omega arith)

abbrev key_row : MetadataRow
key_row = record {
  type_oid = 23;
  type_length = 4;
  type_modifier = 0;
  is_primary_key = true;
  is_auto_increment = true;
}

abbrev int_row : MetadataRow
int_row = record key_row { is_primary_key = false; is_auto_increment = false }

abbrev short_row : MetadataRow
short_row = record int_row { type_oid = 21; type_length = 2 }

abbrev table : TableMetadata
table = record {
  columns = key_column ∷ int_column ∷ short_column ∷ [];
  col_count = 3;
  col_count_no_auto_increments = 2;
  row_size = 6;
}

asked : get_table_metadata true true (key_row ∷ int_row ∷ short_row ∷ []) 0 ≡ some table
unfolding get_table_metadata
asked = refl

get_table_metadata_lem_example :
    Laid 0 table.columns
    × (table.col_count_no_auto_increments ≡ written_count table.columns)
    × (table.row_size ≡ written_size table.columns)
get_table_metadata_lem_example =
    get_table_metadata_lem (key_row ∷ int_row ∷ short_row ∷ []) table (omega arith) (omega arith)
      asked

-- All goes well, but the scratch arena has no room.
abbrev no_room : PgCalls
no_room = record {
  begin_ok = true;
  copy_ok = true;
  header_ok = true;
  room = false;
  rows_ok = true;
  end_ok = true;
  result_ok = true;
  finish_ok = true;
}

abbrev names : List CString
names = codes "id" ∷ codes "rpm" ∷ codes "load" ∷ []

abbrev rpm_attributes : List DataAttribute
rpm_attributes =
    record { name = codes "rpm"; type_name = some (codes "int") }
    ∷ record { name = codes "load"; type_name = some (codes "smallint") }
    ∷ []

attributes : attributes_query rpm_attributes ≡ some (codes "rpm int,\nload smallint,\n")
unfolding attributes_query
attributes = refl

abbrev rpm_sensor : SensorSchema
rpm_sensor = record {
  is_object = true;
  name = some (codes "shaft");
  sensor_data = some rpm_attributes;
}

abbrev rpm_answers : SensorAnswers
rpm_answers = record {
  created = true;
  query_ok = true;
  array_ok = true;
  rows = key_row ∷ int_row ∷ short_row ∷ [];
  column_names = names;
  row_size = 0;
}

copies :
    copy_command (codes "shaft") names table.columns
    ≡ codes "COPY shaft(rpm, load) FROM STDIN WITH (FORMAT binary)"
unfolding copy_command
copies = refl

copy_command_lem_example :
    copy_command (codes "shaft") names table.columns
    ≡ ((codes "COPY " ++ (codes "shaft" ++ codes "("))
        ++ separated (codes ", ") (codes "rpm") (codes "load" ∷ []))
      ++ codes ") FROM STDIN WITH (FORMAT binary)"
copy_command_lem_example =
    copy_command_lem (codes "shaft") (codes "rpm") names (codes "load" ∷ []) table.columns refl

creation_query_lem_example :
    creation_query (codes "shaft") (codes "rpm int,\nload smallint,\n")
    ≡ ((codes "CREATE TABLE IF NOT EXISTS " ++ (codes "shaft" ++ codes "(\n"))
        ++ separated (codes ",\n") (codes "id SERIAL PRIMARY KEY") (attribute_texts rpm_attributes))
      ++ codes ");"
creation_query_lem_example =
    creation_query_lem (codes "shaft") (codes "rpm int,\nload smallint,\n") rpm_attributes
      attributes

abbrev all_well : CtxAnswers
all_well = record {
  conf_loaded = true;
  schema_is_object = true;
  sensors_is_array = true;
  connected = true;
}

abbrev prepared_ctx : Prepared
prepared_ctx = record {
  tables =
      record {
        table_name = codes "shaft";
        copy_command = copy_command (codes "shaft") names table.columns;
        metadata = table;
      }
      ∷ [];
  queries =
      creation_query (codes "shaft") (codes "rpm int,\nload smallint,\n")
      ∷ metadata_query (codes "shaft")
      ∷ [];
  pipe = some (record { packet_size = 6; item_max_count = 16; buffer_max_fill = 96 });
  outcome = done;
}
