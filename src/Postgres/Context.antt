-- ===== src/Postgres/Context.antt =====
-- sdhs/DatabaseSystems/Postgres.c, PgPrepareCtx: how it ends, and the sizes that it gives the pipe.
use lmalloc.Common.{
  ℕ, ◌+◌, ◌*◌, ◌<◌, ◌≤◌, ◌≡◌, Bool, true, false, Option, none, some, List, [], ◌∷◌, ◌++◌, CString,
}
use lmalloc.Postgres.Metadata.{get_table_metadata}
use lmalloc.Postgres.Prepare.{
  DataAttribute, SensorSchema, SensorAnswers, PipeSizes, SensorEnd, prepared, attributes_query,
  PreparedTable, creation_query, metadata_query, copy_command, done, Prepared,
}

-- A buffer of `cap` bytes holds the greatest number of packets that fits, and the fill where it is handed over is their size.
abbrev pub Sized : ℕ → PipeSizes → Type 0
Sized cap p =
    (0 < p.packet_size)
    × (p.buffer_max_fill ≡ p.item_max_count * p.packet_size)
    × (p.buffer_max_fill ≤ cap)
    × (cap < p.buffer_max_fill + p.packet_size)

-- What a prepared sensor leaves: its table has the name of the schema, the metadata that the database answered, and the COPY command for it; sent were the
-- query that creates it, with all attributes of the schema, and the one for its metadata.
abbrev pub PreparedFor : SensorSchema → SensorAnswers → PreparedTable → List CString → Type 0
PreparedFor schema answers table sent =
    (attributes : List DataAttribute) × (text : CString) × (schema.name ≡ some table.table_name)
    × (schema.sensor_data ≡ some attributes)
    × (attributes_query attributes ≡ some text)
    × (sent ≡ creation_query table.table_name text ∷ metadata_query table.table_name ∷ [])
    × (get_table_metadata answers.query_ok answers.array_ok answers.rows answers.row_size
        ≡ some table.metadata)
    × (table.copy_command
        ≡ copy_command table.table_name answers.column_names table.metadata.columns)

-- The same of all sensors, in order.
abbrev pub AllPrepared :
    List (SensorSchema × SensorAnswers) → List PreparedTable → List CString → Type 0
AllPrepared [] [] queries = queries ≡ []
AllPrepared ((schema, answers) ∷ sensors) (table ∷ tables) queries =
    (sent rest : List CString) × (queries ≡ sent ++ rest)
    × PreparedFor schema answers table sent
    × AllPrepared sensors tables rest
AllPrepared _ _ queries = ⊥

abbrev pub RoundOk : ℕ → SensorSchema → SensorAnswers → List CString × SensorEnd → Type 0
RoundOk cap schema answers (sent, prepared table sizes) =
    Sized cap sizes × PreparedFor schema answers table sent
RoundOk cap schema answers (sent, _) = Unit {0}

abbrev pub PipeSized : ℕ → Option PipeSizes → Type 0
PipeSized cap none = Unit {0}
PipeSized cap (some sizes) = Sized cap sizes

-- When the loop is done, every sensor is prepared.
abbrev pub LoopOk : ℕ → List (SensorSchema × SensorAnswers) → Prepared → Type 0
LoopOk cap sensors p =
    PipeSized cap p.pipe × (p.outcome ≡ done → AllPrepared sensors p.tables p.queries)

-- What is answered: NULL with the connection finished if it was asked for, or a context, connected, with every sensor
-- prepared and the sizes of the pipe.
abbrev pub Answered :
    ℕ → List (SensorSchema × SensorAnswers) → Option Prepared → Bool → Bool → Type 0
Answered cap sensors none asked finished = finished ≡ asked
Answered cap sensors (some p) asked finished =
    (asked ≡ true)
    × (finished ≡ false)
    × AllPrepared sensors p.tables p.queries
    × PipeSized cap p.pipe
