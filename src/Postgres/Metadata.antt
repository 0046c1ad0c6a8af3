-- ===== src/Postgres/Metadata.antt =====
-- sdhs/DatabaseSystems/Postgres.c, GetTableMetadata: where each column stands in a row of data.
use lmalloc.Common.{
  ℕ, suc, ◌+◌, ◌-◌, ◌%◌, ◌^◌, ◌<◌, ◌≡◌, refl, subst, arith, Bool, true, Option, none, some, List,
  [], ◌∷◌, if◌then◌else◌, Bool-cases, inl, inr, length, word_mod, add_size, not,
}
use mathlib.Core.Option.{some-injective}
use lmalloc.Postgres.{PgColMetadata, sign_extend}
use lmalloc.Postgres.Decode.{written_count, written_size}

-- A row of the answer of the database, its numbers as `atoi` reads them, in 32 bits.
pub record MetadataRow : Type 0 where
  pub type_oid : ℕ
  pub type_length : ℕ
  pub type_modifier : ℕ
  pub is_primary_key : Bool
  pub is_auto_increment : Bool

-- The metadata of a table: the columns, both counts (an i16 is its 16 bits), and the size of a row.
pub record TableMetadata : Type 0 where
  pub columns : List PgColMetadata
  pub col_count : ℕ
  pub col_count_no_auto_increments : ℕ
  pub row_size : ℕ

column : MetadataRow → ℕ → PgColMetadata
column r offset = record {
  type_oid = r.type_oid;
  type_length = r.type_length;
  type_modifier = r.type_modifier;
  is_primary_key = r.is_primary_key;
  is_auto_increment = r.is_auto_increment;
  offset = offset;
}

-- One more column in front.
with_column : PgColMetadata → TableMetadata → TableMetadata
with_column c t = record t { columns = c ∷ t.columns }

-- The loop from a row on, with the offset, the count and the size so far. The offset -1 is 2^32 - 1.
metadata_loop : List MetadataRow → ℕ → ℕ → ℕ → TableMetadata
unfolding column with_column
metadata_loop [] offset count row_size = record {
  columns = [];
  col_count = 0;
  col_count_no_auto_increments = count;
  row_size = row_size;
}
metadata_loop (r ∷ rs) offset count row_size =
    if r.is_auto_increment
    then with_column (column r (2 ^ 32 - 1)) (metadata_loop rs offset count row_size)
    else with_column (column r offset) (
        metadata_loop rs ((offset + r.type_length) % 2 ^ 32) ((count + 1) % 2 ^ 16)
          (add_size row_size (sign_extend r.type_length)))

-- `none` is NULL: the query failed, or the array was not allocated. `*RowSize` is added to, not set.
unfoldable pub get_table_metadata : Bool → Bool → List MetadataRow → ℕ → Option TableMetadata
unfolding metadata_loop
get_table_metadata query_ok array_ok rows row_size =
    if not query_ok
    then none
    else if not array_ok
    then none
    else some (record (metadata_loop rows 0 0 row_size) { col_count = length rows % 2 ^ 16 })

-- The columns that are written follow each other from `from` on.
abbrev pub Laid : ℕ → List PgColMetadata → Type 0
Laid from [] = Unit {0}
Laid from (c ∷ cols) =
    if c.is_auto_increment
    then Laid from cols
    else (c.offset ≡ from) × Laid (from + c.type_length) cols

-- The columns of an answer, and the bytes of a row.
abbrev pub answer_count : List MetadataRow → ℕ
answer_count [] = 0
answer_count (r ∷ rs) = if r.is_auto_increment then answer_count rs else suc (answer_count rs)

abbrev pub answer_size : List MetadataRow → ℕ
answer_size [] = 0
answer_size (r ∷ rs) =
    if r.is_auto_increment then answer_size rs else r.type_length + answer_size rs

metadata_loop_lem :
    (rs : List MetadataRow) (offset count row_size : ℕ)
    → offset + answer_size rs < 2 ^ 31
    → count + answer_count rs < 2 ^ 16
    → row_size + answer_size rs < word_mod
    → let t = metadata_loop rs offset count row_size in
      Laid offset t.columns
      × (t.col_count_no_auto_increments ≡ count + written_count t.columns)
      × (t.row_size ≡ row_size + written_size t.columns)
      × (written_size t.columns ≡ answer_size rs)
unfolding metadata_loop with_column column
metadata_loop_lem [] offset count row_size fits few small = (tt, omega arith, omega arith, refl)
metadata_loop_lem (r ∷ rs) offset count row_size fits few small =
    elim (Bool-cases r.is_auto_increment) [
      | inl auto ↦
          rw auto (
            metadata_loop_lem rs offset count row_size (ground arith) (ground arith) (ground arith))
      | inr plain ↦
          let fits' : offset + (r.type_length + answer_size rs) < 2 ^ 31 = ground arith in
          let few' : count + suc (answer_count rs) < 2 ^ 16 = ground arith in
          let small' : row_size + (r.type_length + answer_size rs) < word_mod = ground arith in
          let e : (offset + r.type_length) % 2 ^ 32 ≡ offset + r.type_length = omega arith in
          let k : (count + 1) % 2 ^ 16 ≡ count + 1 = omega arith in
          let z : add_size row_size (sign_extend r.type_length) ≡ row_size + r.type_length =
            ground arith in
          let after =
            metadata_loop rs ((offset + r.type_length) % 2 ^ 32) ((count + 1) % 2 ^ 16)
              (add_size row_size (sign_extend r.type_length)) in
          let (laid, counted, sized, total) =
            metadata_loop_lem rs ((offset + r.type_length) % 2 ^ 32) ((count + 1) % 2 ^ 16)
              (add_size row_size (sign_extend r.type_length)) (omega arith) (omega arith)
              (omega arith) in
          rw plain (
            (refl, subst (λ o. Laid o after.columns) e laid),
            omega arith,
            omega arith,
            omega arith,
          )
    ]

-- The metadata of a table, asked for with a row size of 0, of fewer than 2^16 columns that are written, whose lengths add up to less than
-- 2^31: when it is answered, the written columns stand in a row one behind the other from 0 on, the count is theirs, and the row size is the sum of
-- their lengths.
pub get_table_metadata_lem :
    (rows : List MetadataRow) (t : TableMetadata)
    → answer_size rows < 2 ^ 31
    → answer_count rows < 2 ^ 16
    → get_table_metadata true true rows 0 ≡ some t
    → Laid 0 t.columns
      × (t.col_count_no_auto_increments ≡ written_count t.columns)
      × (t.row_size ≡ written_size t.columns)
unfolding get_table_metadata
get_table_metadata_lem rows t fits few e =
    let (laid, counted, sized, _) =
      metadata_loop_lem rows 0 0 0 (omega arith) (omega arith) (omega arith) in
    let same = some-injective _ _ e in
    subst
      (λ t'.
        Laid 0 t'.columns
        × (t'.col_count_no_auto_increments ≡ written_count t'.columns)
        × (t'.row_size ≡ written_size t'.columns))
      same (laid, omega arith, omega arith)
