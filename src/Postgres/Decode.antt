-- ===== src/Postgres/Decode.antt =====
-- sdhs/DatabaseSystems/Postgres.c, PgInsertData: what a reader of the COPY format finds in the rows.
use mathlib.Core.List.{append_assoc}
use lmalloc.Common.{
  ℕ, zero, suc, ◌+◌, ◌*◌, ◌/◌, ◌%◌, ◌^◌, ◌<◌, ◌≤◌, ◌≡◌, ◌≢◌, refl, ap, ◌∙◌, ◌⊎◌, inl, inr, true,
  Option, none, some, List, [], ◌∷◌, ◌++◌, arith, length, take, drop, length-append, ◌==◌, ◌||◌,
  leb, if◌then◌else◌, Bool-cases, Bytes, add_size,
}
use lmalloc.Postgres.{
  PgColMetadata, PgTableInfo, write_swapped, big_endian, field_bytes, convert_columns, convert_rows,
  sign_extend,
}

abbrev pub Fields : Type 0
Fields = List (List ℕ)

abbrev pub before_rest {ℓ} : {A : Type ℓ} → A → Option (List A × List ℕ) → Option (List A × List ℕ)
before_rest f none = none
before_rest f (some (fs, s)) = some (f ∷ fs, s)

-- A reader of the format: so many fields, each behind its length in four bytes, and the bytes behind them.
-- `none`: the bytes end before.
pub read_fields : ℕ → List ℕ → Option (Fields × List ℕ)
read_fields zero s = some ([], s)
read_fields (suc n) (a ∷ b ∷ c ∷ d ∷ s) =
    let len = ((a * 256 + b) * 256 + c) * 256 + d in
    let rest = before_rest (take len s) (read_fields n (drop len s)) in
    if leb len (length s) then rest else none
read_fields (suc n) _ = none

-- A row: the number of its fields in two bytes, and the fields.
pub read_row : List ℕ → Option (Fields × List ℕ)
unfolding read_fields
read_row (a ∷ b ∷ s) = read_fields (a * 256 + b) s
read_row _ = none

abbrev pub then_rows :
    Option (Fields × List ℕ)
    → (List ℕ → Option (List Fields × List ℕ))
    → Option (List Fields × List ℕ)
then_rows none f = none
then_rows (some (row, s)) f = before_rest row (f s)

pub read_rows : ℕ → List ℕ → Option (List Fields × List ℕ)
unfolding read_row
read_rows zero s = some ([], s)
read_rows (suc n) s = then_rows (read_row s) (read_rows n)

-- How many bytes a type is written in; 0 for one that is not handled.
abbrev pub width : ℕ → ℕ
width oid =
    if oid == 20 || oid == 701
    then 8
    else if oid == 23 || oid == 700
    then 4
    else if oid == 21
    then 2
    else if oid == 1114
    then 8
    else 0

-- Each column that is written has a type that is handled, and the length of that type.
abbrev pub AllHandled : List PgColMetadata → Type 0
AllHandled [] = Unit {0}
AllHandled (c ∷ cols) =
    ((c.is_auto_increment ≡ true) ⊎ ((c.type_length ≡ width c.type_oid) × (width c.type_oid ≢ 0)))
    × AllHandled cols

-- The columns that are written.
abbrev pub written_count : List PgColMetadata → ℕ
written_count [] = 0
written_count (c ∷ cols) =
    if c.is_auto_increment then written_count cols else suc (written_count cols)

-- The length of a row of data: the lengths of those columns.
abbrev pub written_size : List PgColMetadata → ℕ
written_size [] = 0
written_size (c ∷ cols) =
    if c.is_auto_increment then written_size cols else c.type_length + written_size cols

-- The fields of the row of data at `row`, in network byte order.
abbrev pub row_fields : List PgColMetadata → Bytes → ℕ → Fields
row_fields [] m row = []
row_fields (c ∷ cols) m row =
    if c.is_auto_increment
    then row_fields cols m row
    else field_bytes c.type_oid m (add_size row (sign_extend c.offset)) ∷ row_fields cols m row

abbrev pub all_fields : PgTableInfo → Bytes → ℕ → ℕ → ℕ → List Fields
all_fields ti m data' zero i = []
all_fields ti m data' (suc left) i =
    row_fields ti.col_metadata m (data' + i * ti.row_size) ∷ all_fields ti m data' left (i + 1)

length-write_swapped : (n : ℕ) (m : Bytes) (a : ℕ) → length (write_swapped n m a) ≡ n
unfolding write_swapped
length-write_swapped zero m a = refl
length-write_swapped (suc n) m a = ap suc (length-write_swapped n m a)

pub length-big_endian : (n v : ℕ) → length (big_endian n v) ≡ n
unfolding big_endian
length-big_endian zero v = refl
length-big_endian (suc n) v = ap suc (length-big_endian n v)

pub length-field_bytes : (oid : ℕ) (m : Bytes) (a : ℕ) → length (field_bytes oid m a) ≡ width oid
unfolding field_bytes
length-field_bytes oid m a = ground arith

pub take_exact : (n : ℕ) (xs ys : List ℕ) → n ≡ length xs → take n (xs ++ ys) ≡ xs
take_exact zero [] ys e = refl
take_exact zero (x ∷ xs) ys e = absurd (omega arith)
take_exact (suc n) [] ys e = absurd (omega arith)
take_exact (suc n) (x ∷ xs) ys e = ap (◌∷◌ x) (take_exact n xs ys (omega arith))

drop_exact : (n : ℕ) (xs ys : List ℕ) → n ≡ length xs → drop n (xs ++ ys) ≡ ys
drop_exact zero [] ys e = refl
drop_exact zero (x ∷ xs) ys e = absurd (omega arith)
drop_exact (suc n) [] ys e = absurd (omega arith)
drop_exact (suc n) (x ∷ xs) ys e = drop_exact n xs ys (omega arith)

-- Four bytes, the highest first, read as the number they were made of.
four_bytes :
    (v : ℕ)
    → v < 2 ^ 32
    → (((v / 256 ^ 3 % 256) * 256 + v / 256 ^ 2 % 256) * 256 + v / 256 ^ 1 % 256) * 256
        + v / 256 ^ 0 % 256
      ≡ v
four_bytes v lt = omega arith

field_at : ℕ → ℕ → List ℕ → Option (Fields × List ℕ)
field_at n len s =
    let rest = before_rest (take len s) (read_fields n (drop len s)) in
    if leb len (length s) then rest else none

field_at-exact :
    (n len : ℕ) (field s : List ℕ)
    → len ≡ length field
    → field_at n len (field ++ s) ≡ before_rest field (read_fields n s)
unfolding field_at
field_at-exact n len field s e =
    let l = length-append field s in
    let t = take_exact len field s e in
    let d = drop_exact len field s e in
    let step : field_at n len (field ++ s)
        ≡ before_rest (take len (field ++ s)) (read_fields n (drop len (field ++ s))) =
      ground arith in
    step
    ∙ ap (λ f. before_rest f (read_fields n (drop len (field ++ s)))) t
    ∙ ap (λ r. before_rest field (read_fields n r)) d

read_field :
    (n len : ℕ) (field s : List ℕ)
    → len < 2 ^ 32
    → len ≡ length field
    → read_fields (suc n) (big_endian 4 len ++ (field ++ s)) ≡ before_rest field (read_fields n s)
unfolding read_fields big_endian field_at
read_field n len field s small e =
    ap (λ d. field_at n d (field ++ s)) (four_bytes len small) ∙ field_at-exact n len field s e

width-le : (oid : ℕ) → width oid ≤ 8
width-le oid = ground arith

read_fields-convert_columns :
    (cols : List PgColMetadata) (m : Bytes) (row : ℕ) (s : List ℕ)
    → AllHandled cols
    → read_fields (written_count cols) (convert_columns cols m row ++ s)
      ≡ some (row_fields cols m row, s)
unfolding convert_columns read_fields
read_fields-convert_columns [] m row s h = refl
read_fields-convert_columns (c ∷ cols) m row s (h, hs) =
    let ih = read_fields-convert_columns cols m row s hs in
    elim (Bool-cases c.is_auto_increment) [
      | inl auto ↦ rw auto ih
      | inr plain ↦
          let field = field_bytes c.type_oid m (add_size row (sign_extend c.offset)) in
          let rest = convert_columns cols m row in
          let long : c.type_length ≡ length field =
            (let l = length-field_bytes c.type_oid m (add_size row (sign_extend c.offset)) in
              ground arith) in
          let small : c.type_length < 2 ^ 32 = (let w = width-le c.type_oid in ground arith) in
          let one = read_field (written_count cols) c.type_length field (rest ++ s) small long in
          rw plain (
            ap (λ t. read_fields (suc (written_count cols)) (big_endian 4 c.type_length ++ t))
              (append_assoc field rest s)
            ∙ one
            ∙ ap (before_rest field) ih)
    ]

-- Two bytes, the highest first, read as the number they were made of.
two_bytes : (v : ℕ) → v < 2 ^ 16 → (v / 256 ^ 1 % 256) * 256 + v / 256 ^ 0 % 256 ≡ v
two_bytes v lt = omega arith

read_row-row :
    (cols : List PgColMetadata) (m : Bytes) (row : ℕ) (s : List ℕ)
    → AllHandled cols
    → written_count cols < 2 ^ 16
    → read_row (big_endian 2 (written_count cols) ++ (convert_columns cols m row ++ s))
      ≡ some (row_fields cols m row, s)
unfolding read_row big_endian
read_row-row cols m row s h small =
    ap (λ k. read_fields k (convert_columns cols m row ++ s)) (two_bytes (written_count cols) small)
    ∙ read_fields-convert_columns cols m row s h

-- The rows are read back as the fields that were written.
pub read_rows-fields :
    (ti : PgTableInfo) (m : Bytes) (data' left i : ℕ)
    → AllHandled ti.col_metadata
    → ti.col_count_no_auto_increments ≡ written_count ti.col_metadata
    → written_count ti.col_metadata < 2 ^ 16
    → read_rows left (convert_rows ti m data' left i) ≡ some (all_fields ti m data' left i, [])
unfolding read_rows convert_rows
read_rows-fields ti m data' zero i h count small = refl
read_rows-fields ti m data' (suc left) i h count small =
    let cols = ti.col_metadata in
    let row = data' + i * ti.row_size in
    let rest = convert_rows ti m data' left (i + 1) in
    ap
      (λ k.
        then_rows (read_row (big_endian 2 k ++ (convert_columns cols m row ++ rest)))
          (read_rows left))
      count
    ∙ ap (λ r. then_rows r (read_rows left)) (read_row-row cols m row rest h small)
    ∙ ap (before_rest (row_fields cols m row))
        (read_rows-fields ti m data' left (i + 1) h count small)
