-- ===== src/Postgres/Values.antt =====
-- sdhs/DatabaseSystems/Postgres.c, PgInsertData: the values that a reader of the COPY format finds in the rows.
use native.Mathlib.Nat.{pow-succ', mul_assoc, mul_comm, add-mul}
use lmalloc.Common.{
  ℕ, zero, suc, ◌+◌, ◌-◌, ◌*◌, ◌%◌, ◌^◌, ◌<◌, ◌≤◌, ◌≡◌, ◌≢◌, refl, sym, subst, ap, ◌∙◌, ◌⊎◌, inl,
  inr, true, false, some, List, [], ◌∷◌, arith, ◌==◌, ◌||◌, if◌then◌else◌, Bool-cases, Bytes,
  word_mod, add_size,
}
use lmalloc.Postgres.{
  PgColMetadata, PgTableInfo, write_swapped, big_endian, little_endian_value, unix_to_pg_timestamp,
  field_bytes, convert_rows, sign_extend,
}
use lmalloc.Postgres.Decode.{
  Fields, read_rows, width, AllHandled, written_count, written_size, row_fields, all_fields,
  read_rows-fields,
}
use lmalloc.Postgres.Metadata.{Laid}

-- The number that bytes are, the highest first, behind `acc`.
abbrev pub network_value : ℕ → List ℕ → ℕ
network_value acc [] = acc
network_value acc (b ∷ bs) = network_value (acc * 256 + b) bs

abbrev pub row_values_of : Fields → List ℕ
row_values_of [] = []
row_values_of (f ∷ fs) = network_value 0 f ∷ row_values_of fs

abbrev pub values_of : List Fields → List (List ℕ)
values_of [] = []
values_of (row ∷ rows) = row_values_of row ∷ values_of rows

-- The number that `n` bytes of memory are on a little-endian host.
abbrev pub host_value : ℕ → Bytes → ℕ → ℕ
host_value zero m a = 0
host_value (suc n) m a = host_value n m a + 256 ^ n * m (a + n)

-- The value of a column at `a`: a time in seconds since 1970 is sent as microseconds since 2000, which is 946,684,800 seconds later.
abbrev pub column_value : ℕ → Bytes → ℕ → ℕ
column_value oid m a =
    if oid == 1114
    then (host_value 8 m a * 1_000_000 + (word_mod - 946_684_800_000_000)) % word_mod
    else host_value (width oid) m a

-- The values of a row whose written columns stand one behind the other from `at'` on.
abbrev pub row_values : List PgColMetadata → Bytes → ℕ → List ℕ
row_values [] m at' = []
row_values (c ∷ cols) m at' =
    if c.is_auto_increment
    then row_values cols m at'
    else column_value c.type_oid m at' ∷ row_values cols m (at' + c.type_length)

-- The values of rows one behind the other.
abbrev pub all_values : PgTableInfo → Bytes → ℕ → ℕ → List (List ℕ)
all_values ti m at' zero = []
all_values ti m at' (suc left) =
    row_values ti.col_metadata m at' ∷ all_values ti m (at' + ti.row_size) left

network-write_swapped :
    (n acc : ℕ) (m : Bytes) (a : ℕ)
    → network_value acc (write_swapped n m a) ≡ acc * 256 ^ n + host_value n m a
unfolding write_swapped
network-write_swapped zero acc m a = omega arith
network-write_swapped (suc n) acc m a =
    let ih = network-write_swapped n (acc * 256 + m (a + n)) m a in
    let p = pow-succ' 256 n in
    let d = add-mul (acc * 256) (m (a + n)) (256 ^ n) in
    let q = mul_assoc acc 256 (256 ^ n) in
    let r = ap (λ k. acc * k) p in
    let c = mul_comm (m (a + n)) (256 ^ n) in omega (arith, ih, d, q, r, c)

host_value-front :
    (n : ℕ) (m : Bytes) (a : ℕ) → host_value (suc n) m a ≡ m a + 256 * host_value n m (a + 1)
host_value-front zero m a = (let z = ap m (the_zero a) in omega (arith, z))
  where
    the_zero : (a : ℕ) → a + 0 ≡ a
    the_zero a = omega arith
host_value-front (suc n) m a =
    let ih = host_value-front n m a in
    let turn : a + suc n ≡ a + 1 + n = omega arith in
    let e = ap m turn in
    let p = ap (λ k. k * m (a + suc n)) (pow-succ' 256 n) in
    let q = mul_assoc 256 (256 ^ n) (m (a + suc n)) in
    let s = ap (λ x. 256 * (256 ^ n * x)) e in omega (arith, ih, p, q, s)

little_endian-host_value :
    (n : ℕ) (m : Bytes) (a : ℕ) → little_endian_value n m a ≡ host_value n m a
unfolding little_endian_value
little_endian-host_value zero m a = refl
little_endian-host_value (suc n) m a =
    let ih = little_endian-host_value n m (a + 1) in
    let f = host_value-front n m a in omega (arith, ih, f)

network-big_endian : (v : ℕ) → v < word_mod → network_value 0 (big_endian 8 v) ≡ v
unfolding big_endian
network-big_endian v lt = omega arith

network-swapped :
    (n : ℕ) (m : Bytes) (a : ℕ) → network_value 0 (write_swapped n m a) ≡ host_value n m a
network-swapped n m a = (let e = network-write_swapped n 0 m a in omega (arith, e))

network-timestamp :
    (m : Bytes) (a : ℕ)
    → network_value 0 (big_endian 8 (unix_to_pg_timestamp (little_endian_value 8 m a)))
      ≡ (host_value 8 m a * 1_000_000 + (word_mod - 946_684_800_000_000)) % word_mod
unfolding unix_to_pg_timestamp
network-timestamp m a =
    network-big_endian (unix_to_pg_timestamp (little_endian_value 8 m a)) (omega arith)
    ∙ ap (λ t. (t * 1_000_000 + (word_mod - 946_684_800_000_000)) % word_mod)
        (little_endian-host_value 8 m a)

network-field_bytes :
    (oid : ℕ) (m : Bytes) (a : ℕ) → network_value 0 (field_bytes oid m a) ≡ column_value oid m a
unfolding field_bytes
network-field_bytes oid m a = elim (Bool-cases (oid == 20 || oid == 701)) [
  | inl eight ↦
      let plain : (oid == 1114) ≡ false = ground arith in
      rw eight (rw plain (network-swapped 8 m a))
  | inr not_eight ↦ elim (Bool-cases (oid == 23 || oid == 700)) [
    | inl four ↦
        let plain : (oid == 1114) ≡ false = ground arith in
        rw not_eight (rw four (rw plain (network-swapped 4 m a)))
    | inr not_four ↦ elim (Bool-cases (oid == 21)) [
      | inl two ↦
          let plain : (oid == 1114) ≡ false = ground arith in
          rw not_eight (rw not_four (rw two (rw plain (network-swapped 2 m a))))
      | inr not_two ↦ elim (Bool-cases (oid == 1114)) [
        | inl stamp ↦ rw not_eight (rw not_four (rw not_two (rw stamp (network-timestamp m a))))
        | inr unknown ↦ rw not_eight (rw not_four (rw not_two (rw unknown refl)))
      ]
    ]
  ]
]

Laid-plain :
    (from : ℕ) (c : PgColMetadata) (cols : List PgColMetadata)
    → Laid from (c ∷ cols)
    → c.is_auto_increment ≡ false
    → (c.offset ≡ from) × Laid (from + c.type_length) cols
Laid-plain from c cols laid plain =
    subst (λ b. if b then Laid from cols else (c.offset ≡ from) × Laid (from + c.type_length) cols)
      plain laid

Laid-auto :
    (from : ℕ) (c : PgColMetadata) (cols : List PgColMetadata)
    → Laid from (c ∷ cols)
    → c.is_auto_increment ≡ true
    → Laid from cols
Laid-auto from c cols laid auto =
    subst (λ b. if b then Laid from cols else (c.offset ≡ from) × Laid (from + c.type_length) cols)
      auto laid

handled-length :
    (c : PgColMetadata)
    → ((c.is_auto_increment ≡ true) ⊎ ((c.type_length ≡ width c.type_oid) × (width c.type_oid ≢ 0)))
    → c.is_auto_increment ≡ false
    → c.type_length ≢ 0
handled-length c (inl auto) plain = absurd (ground arith)
handled-length c (inr (len, ne)) plain = λ e. ne (sym len ∙ e)

row_values-row_fields :
    (cols : List PgColMetadata) (m : Bytes) (row from : ℕ)
    → AllHandled cols
    → Laid from cols
    → from + written_size cols < 2 ^ 31
    → row + from + written_size cols ≤ word_mod
    → row_values_of (row_fields cols m row) ≡ row_values cols m (row + from)
row_values-row_fields [] m row from h laid small fits = refl
row_values-row_fields (c ∷ cols) m row from (h, hs) laid small fits =
    elim (Bool-cases c.is_auto_increment) [
      | inl auto ↦ rw auto (
          row_values-row_fields cols m row from hs (Laid-auto from c cols laid auto) (ground arith)
            (ground arith))
      | inr plain ↦
          let (place, rest) = Laid-plain from c cols laid plain in
          let long = handled-length c h plain in
          let small' : from + (c.type_length + written_size cols) < 2 ^ 31 = ground arith in
          let fits' : row + from + (c.type_length + written_size cols) ≤ word_mod = ground arith in
          let addr : add_size row (sign_extend c.offset) ≡ row + from = ground arith in
          let ih =
            row_values-row_fields cols m row (from + c.type_length) hs rest (omega (arith, small'))
              (omega (arith, fits')) in
          let turn : row + (from + c.type_length) ≡ row + from + c.type_length = omega arith in
          rw plain (
            ap
              (λ a.
                network_value 0 (field_bytes c.type_oid m a)
                ∷ row_values_of (row_fields cols m row))
              addr
            ∙ ap (λ v. v ∷ row_values_of (row_fields cols m row))
                (network-field_bytes c.type_oid m (row + from))
            ∙ ap (◌∷◌ (column_value c.type_oid m (row + from))) (ih ∙ ap (row_values cols m) turn))
    ]

values_of-all_fields :
    (ti : PgTableInfo) (m : Bytes) (data' left i at' : ℕ)
    → AllHandled ti.col_metadata
    → Laid 0 ti.col_metadata
    → ti.row_size ≡ written_size ti.col_metadata
    → ti.row_size < 2 ^ 31
    → at' ≡ data' + i * ti.row_size
    → at' + left * ti.row_size ≤ word_mod
    → values_of (all_fields ti m data' left i) ≡ all_values ti m at' left
values_of-all_fields ti m data' zero i at' h laid size small here fits = refl
values_of-all_fields ti m data' (suc left) i at' h laid size small here fits =
    let row = data' + i * ti.row_size in
    let one =
      row_values-row_fields ti.col_metadata m row 0 h laid (omega (arith, size, small))
        (omega (arith, size, here, fits)) in
    let place : row + 0 ≡ at' = omega (arith, here) in
    let next : at' + ti.row_size ≡ data' + (i + 1) * ti.row_size = omega (arith, here) in
    let rest =
      values_of-all_fields ti m data' left (i + 1) (at' + ti.row_size) h laid size small next
        (omega (arith, fits)) in
    ap (λ v. v ∷ values_of (all_fields ti m data' left (i + 1)))
      (one ∙ ap (row_values ti.col_metadata m) place)
    ∙ ap (◌∷◌ (row_values ti.col_metadata m at')) rest

-- The rows that are sent for a table, of fewer than 2^16 written columns, whose types are handled and have the lengths of those types, and which stand one behind the other in a
-- row of data, as GetTableMetadata lays them out, in rows below the end of the address space: a reader of the format finds in them, with nothing left over, the
-- values of each column of each row, as the host reads them from the data, with a time counted from 2000 in microseconds.
pub read_rows-convert_rows :
    (ti : PgTableInfo) (m : Bytes) (data' left : ℕ)
    → AllHandled ti.col_metadata
    → ti.col_count_no_auto_increments ≡ written_count ti.col_metadata
    → written_count ti.col_metadata < 2 ^ 16
    → Laid 0 ti.col_metadata
    → ti.row_size ≡ written_size ti.col_metadata
    → ti.row_size < 2 ^ 31
    → data' + left * ti.row_size ≤ word_mod
    → (rows : List Fields) × (read_rows left (convert_rows ti m data' left 0) ≡ some (rows, []))
      × (values_of rows ≡ all_values ti m data' left)
read_rows-convert_rows ti m data' left h count few laid size small fits = (
  all_fields ti m data' left 0,
  read_rows-fields ti m data' left 0 h count few,
  values_of-all_fields ti m data' left 0 data' h laid size small (omega arith) fits,
)
