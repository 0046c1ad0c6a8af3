-- ===== src/Postgres.antt =====
-- sdhs/DatabaseSystems/Postgres.c: rows of sensor data as the binary COPY format of PostgreSQL.
pub mod Decode
pub mod Values
pub mod Sizes
pub mod Metadata
pub mod Insert
pub mod Prepare
pub mod Context
pub mod Query
mod Examples
use lmalloc.Common.{
  ℕ, zero, suc, ◌+◌, ◌-◌, ◌*◌, ◌/◌, ◌%◌, ◌^◌, Bool, true, false, List, [], ◌∷◌, ◌++◌, ◌==◌, ◌||◌,
  ltb, if◌then◌else◌, Bytes, word_mod, add_size,
}

-- `pg_col_metadata`, without its name. An i32 is its 32 bits, as an unsigned number.
pub record PgColMetadata : Type 0 where
  pub type_oid : ℕ
  pub type_length : ℕ
  pub type_modifier : ℕ
  pub is_primary_key : Bool
  pub is_auto_increment : Bool
  pub offset : ℕ

-- An i32 in a sum of 64 bits.
abbrev pub sign_extend : ℕ → ℕ
sign_extend n = if ltb n (2 ^ 31) then n else word_mod - 2 ^ 32 + n

-- `n` bytes from `a` on, the last first: a value of the little-endian host in network byte order.
unfoldable pub write_swapped : ℕ → Bytes → ℕ → List ℕ
write_swapped zero m a = []
write_swapped (suc n) m a = m (a + n) ∷ write_swapped n m a

-- A number in `n` bytes, the highest first.
unfoldable pub big_endian : ℕ → ℕ → List ℕ
big_endian zero v = []
big_endian (suc n) v = v / 256 ^ n % 256 ∷ big_endian n v

-- The value of `n` bytes from `a` on, the lowest first.
unfoldable pub little_endian_value : ℕ → Bytes → ℕ → ℕ
little_endian_value zero m a = 0
little_endian_value (suc n) m a = m a + 256 * little_endian_value n m (a + 1)

-- Microseconds from 2000-01-01, of seconds from 1970-01-01, as 64-bit words.
unfoldable pub unix_to_pg_timestamp : ℕ → ℕ
unix_to_pg_timestamp t =
    (t * 1_000_000 + (word_mod - (2_451_545 - 2_440_588) * 86_400_000_000)) % word_mod

write2 : Bytes → ℕ → List ℕ
unfolding write_swapped
write2 = write_swapped 2

write4 : Bytes → ℕ → List ℕ
unfolding write_swapped
write4 = write_swapped 4

write8 : Bytes → ℕ → List ℕ
unfolding write_swapped
write8 = write_swapped 8

write_timestamp : Bytes → ℕ → List ℕ
unfolding big_endian unix_to_pg_timestamp little_endian_value
write_timestamp m a = big_endian 8 (unix_to_pg_timestamp (little_endian_value 8 m a))

-- The switch on the type; an unknown one only logs.
unfoldable pub field_bytes : ℕ → Bytes → ℕ → List ℕ
unfolding write2 write4 write8 write_timestamp
field_bytes oid m a =
    if oid == 20 || oid == 701
    then write8 m a
    else if oid == 23 || oid == 700
    then write4 m a
    else if oid == 21
    then write2 m a
    else if oid == 1114
    then write_timestamp m a
    else []

-- The inner loop, for the row at `row`.
unfoldable pub convert_columns : List PgColMetadata → Bytes → ℕ → List ℕ
unfolding field_bytes big_endian
convert_columns [] m row = []
convert_columns (c ∷ cols) m row =
    if c.is_auto_increment
    then convert_columns cols m row
    else big_endian 4 c.type_length
      ++ (field_bytes c.type_oid m (add_size row (sign_extend c.offset))
          ++ convert_columns cols m row)

-- `pg_table_info`, without the names and the command.
pub record PgTableInfo : Type 0 where
  pub col_metadata : List PgColMetadata
  pub col_count_no_auto_increments : ℕ
  pub row_size : ℕ

-- The loop over the rows, with `left` rows to go at row `i`: what it writes to the network conversion buffer.
unfoldable pub convert_rows : PgTableInfo → Bytes → ℕ → ℕ → ℕ → List ℕ
unfolding convert_columns big_endian
convert_rows ti m data' zero i = []
convert_rows ti m data' (suc left) i =
    big_endian 2 ti.col_count_no_auto_increments
    ++ (convert_columns ti.col_metadata m (data' + i * ti.row_size)
        ++ convert_rows ti m data' left (i + 1))

-- `NtwrkConvBufSize`
unfoldable pub ntwrk_conv_buf_size : PgTableInfo → ℕ → ℕ
ntwrk_conv_buf_size ti item_count = 2 + item_count * 4 + item_count * ti.row_size
