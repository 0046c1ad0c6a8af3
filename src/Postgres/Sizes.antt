-- ===== src/Postgres/Sizes.antt =====
-- sdhs/DatabaseSystems/Postgres.c, PgInsertData: how long the rows are, and the buffer that they are written to.
use native.Mathlib.Nat.{mul-le-mul_left}
use lmalloc.Common.{
  ℕ, zero, suc, ◌+◌, ◌*◌, ◌<◌, ◌≤◌, ◌≡◌, refl, ap, inl, inr, List, [], ◌∷◌, ◌++◌, arith, length,
  length-append, Bool-cases, Bytes, add_size,
}
use lmalloc.Postgres.{
  PgColMetadata, PgTableInfo, big_endian, field_bytes, convert_columns, convert_rows,
  ntwrk_conv_buf_size, sign_extend,
}
use lmalloc.Postgres.Decode.{
  AllHandled, written_count, written_size, length-big_endian, length-field_bytes,
}

length-convert_columns :
    (cols : List PgColMetadata) (m : Bytes) (row : ℕ)
    → AllHandled cols
    → length (convert_columns cols m row) ≡ 4 * written_count cols + written_size cols
unfolding convert_columns
length-convert_columns [] m row h = refl
length-convert_columns (c ∷ cols) m row (h, hs) =
    let ih = length-convert_columns cols m row hs in
    elim (Bool-cases c.is_auto_increment) [
      | inl auto ↦ rw auto ih
      | inr plain ↦
          let a = add_size row (sign_extend c.offset) in
          let field = field_bytes c.type_oid m a in
          let l = length-field_bytes c.type_oid m a in
          let b = length-big_endian 4 c.type_length in
          let outer =
            length-append (big_endian 4 c.type_length) (field ++ convert_columns cols m row) in
          let inner = length-append field (convert_columns cols m row) in rw plain (ground arith)
    ]

length-convert_rows :
    (ti : PgTableInfo) (m : Bytes) (data' left i : ℕ)
    → AllHandled ti.col_metadata
    → length (convert_rows ti m data' left i)
      ≡ left * (2 + (4 * written_count ti.col_metadata + written_size ti.col_metadata))
unfolding convert_rows
length-convert_rows ti m data' zero i h = omega arith
length-convert_rows ti m data' (suc left) i h =
    let cols = ti.col_metadata in
    let here = convert_columns cols m (data' + i * ti.row_size) in
    let rest = convert_rows ti m data' left (i + 1) in
    let ih = length-convert_rows ti m data' left (i + 1) h in
    let one = length-convert_columns cols m (data' + i * ti.row_size) h in
    let b = length-big_endian 2 ti.col_count_no_auto_increments in
    let outer = length-append (big_endian 2 ti.col_count_no_auto_increments) (here ++ rest) in
    let inner = length-append here rest in omega (arith, b, one, ih, outer, inner)

-- For a table with at least two columns that are written, where all types are handled and the row size is the sum of their lengths, the
-- bytes of one row or more are more than the buffer for them was sized to: the conversion writes past its end.
pub conv_buf_overflows :
    (ti : PgTableInfo) (m : Bytes) (data' item_count : ℕ)
    → AllHandled ti.col_metadata
    → ti.row_size ≡ written_size ti.col_metadata
    → 2 ≤ written_count ti.col_metadata
    → 0 < item_count
    → ntwrk_conv_buf_size ti item_count < length (convert_rows ti m data' item_count 0)
unfolding ntwrk_conv_buf_size
conv_buf_overflows ti m data' n h size two pos =
    let k = written_count ti.col_metadata in
    let r = written_size ti.col_metadata in
    let long = length-convert_rows ti m data' n 0 h in
    let wide : 10 + r ≤ 2 + (4 * k + r) = omega arith in
    let le = mul-le-mul_left n wide in
    let same = ap (λ x. n * x) size in omega (arith, long, le, same)
