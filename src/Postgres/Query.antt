-- ===== src/Postgres/Query.antt =====
-- sdhs/DatabaseSystems/Postgres.c, PgPrepareCtx: the text of the queries.
use mathlib.Core.List.{append_assoc}
use mathlib.Core.Option.{some-injective}
use lmalloc.Common.{
  ℕ, ◌-◌, ◌≡◌, refl, sym, ap, ◌∙◌, inl, inr, Bool-cases, Option, none, some, List, [], ◌∷◌, ◌++◌,
  arith, if◌then◌else◌, length, length-append, CString, codes,
}
use lmalloc.Postgres.{PgColMetadata}
use lmalloc.Postgres.Decode.{take_exact}
use lmalloc.Postgres.Prepare.{
  DataAttribute, backspace, with_attribute, attributes_query, creation_query, copy_columns,
  copy_command,
}

-- Texts with `sep` behind each.
abbrev terminated : CString → List CString → CString
terminated sep [] = []
terminated sep (x ∷ xs) = x ++ (sep ++ terminated sep xs)

-- Texts with `sep` between two.
abbrev pub separated : CString → CString → List CString → CString
separated sep x [] = x
separated sep x (y ∷ ys) = x ++ (sep ++ separated sep y ys)

append_nil : (xs : CString) → xs ++ [] ≡ xs
append_nil [] = refl
append_nil (x ∷ xs) = ap (◌∷◌ x) (append_nil xs)

terminated-separated :
    (sep x : CString) (xs : List CString) → terminated sep (x ∷ xs) ≡ separated sep x xs ++ sep
terminated-separated sep x [] = ap (λ s. x ++ s) (append_nil sep)
terminated-separated sep x (y ∷ ys) =
    ap (λ s. x ++ (sep ++ s)) (terminated-separated sep y ys)
    ∙ ap (λ s. x ++ s) (sym (append_assoc sep (separated sep y ys) sep))
    ∙ sym (append_assoc x (sep ++ separated sep y ys) sep)

backspace-append : (xs ys : CString) (n : ℕ) → length ys ≡ n → backspace n (xs ++ ys) ≡ xs
unfolding backspace
backspace-append xs ys n e =
    take_exact (length (xs ++ ys) - n) xs ys (let l = length-append xs ys in omega (arith, l, e))

backspace-terminated :
    (sep front x : CString) (xs : List CString)
    → length sep ≡ 2
    → backspace 2 (front ++ terminated sep (x ∷ xs)) ≡ front ++ separated sep x xs
backspace-terminated sep front x xs two =
    ap (λ s. backspace 2 (front ++ s)) (terminated-separated sep x xs)
    ∙ ap (backspace 2) (sym (append_assoc front (separated sep x xs) sep))
    ∙ backspace-append (front ++ separated sep x xs) sep 2 two

-- The names of the columns that are written.
abbrev pub written_names : List CString → List PgColMetadata → List CString
written_names (name ∷ names) (c ∷ columns) =
    if c.is_auto_increment then written_names names columns else name ∷ written_names names columns
written_names _ _ = []

copy_columns-terminated :
    (names : List CString) (columns : List PgColMetadata)
    → copy_columns names columns ≡ terminated (codes ", ") (written_names names columns)
unfolding copy_columns
copy_columns-terminated [] columns = refl
copy_columns-terminated (name ∷ names) [] = refl
copy_columns-terminated (name ∷ names) (c ∷ columns) =
    let ih = copy_columns-terminated names columns in
    elim (Bool-cases c.is_auto_increment) [
      | inl auto ↦ rw auto ih
      | inr plain ↦ rw plain (ap (λ s. name ++ (codes ", " ++ s)) ih)
    ]

front_assoc : (a b c d : CString) → a ++ (b ++ (c ++ d)) ≡ (a ++ (b ++ c)) ++ d
front_assoc a b c d = ap (λ s. a ++ s) (sym (append_assoc b c d)) ∙ sym (append_assoc a (b ++ c) d)

-- For a table with a column that is written, the COPY command names the columns that are written, in order, with a comma between two.
pub copy_command_lem :
    (table name : CString) (names more : List CString) (columns : List PgColMetadata)
    → written_names names columns ≡ name ∷ more
    → copy_command table names columns
      ≡ ((codes "COPY " ++ (table ++ codes "(")) ++ separated (codes ", ") name more)
        ++ codes ") FROM STDIN WITH (FORMAT binary)"
unfolding copy_command
copy_command_lem table name names more columns written =
    ap
      (λ s.
        backspace 2 (codes "COPY " ++ (table ++ (codes "(" ++ s)))
        ++ codes ") FROM STDIN WITH (FORMAT binary)")
      (copy_columns-terminated names columns ∙ ap (terminated (codes ", ")) written)
    ∙ ap (λ s. backspace 2 s ++ codes ") FROM STDIN WITH (FORMAT binary)")
        (front_assoc (codes "COPY ") table (codes "(") (terminated (codes ", ") (name ∷ more)))
    ∙ ap (λ s. s ++ codes ") FROM STDIN WITH (FORMAT binary)")
        (backspace-terminated (codes ", ") (codes "COPY " ++ (table ++ codes "(")) name more refl)

abbrev pub or_empty : Option CString → CString
or_empty none = []
or_empty (some s) = s

-- An attribute in the query.
abbrev pub attribute_text : DataAttribute → CString
attribute_text a = a.name ++ (codes " " ++ or_empty a.type_name)

abbrev pub attribute_texts : List DataAttribute → List CString
attribute_texts [] = []
attribute_texts (a ∷ attributes) = attribute_text a ∷ attribute_texts attributes

attribute-text :
    (name type_name rest : CString)
    → name ++ (codes " " ++ (type_name ++ (codes ",\n" ++ rest)))
      ≡ (name ++ (codes " " ++ type_name)) ++ (codes ",\n" ++ rest)
attribute-text name type_name rest = front_assoc name (codes " ") type_name (codes ",\n" ++ rest)

attribute-step :
    (name : CString) (type_name rest : Option CString) (texts : List CString) (q : CString)
    → ((s : CString) → rest ≡ some s → s ≡ terminated (codes ",\n") texts)
    → with_attribute name type_name rest ≡ some q
    → q
      ≡ (name ++ (codes " " ++ or_empty type_name))
        ++ (codes ",\n" ++ terminated (codes ",\n") texts)
unfolding with_attribute
attribute-step name none rest texts q h e = absurd (ground arith)
attribute-step name (some t) none texts q h e = absurd (ground arith)
attribute-step name (some t) (some s) texts q h e =
    sym (some-injective _ _ e)
    ∙ ap (λ r. name ++ (codes " " ++ (t ++ (codes ",\n" ++ r)))) (h s refl)
    ∙ attribute-text name t (terminated (codes ",\n") texts)

attributes_query-terminated :
    (attributes : List DataAttribute) (q : CString)
    → attributes_query attributes ≡ some q
    → q ≡ terminated (codes ",\n") (attribute_texts attributes)
unfolding attributes_query
attributes_query-terminated [] q e = sym (some-injective _ _ e)
attributes_query-terminated (a ∷ attributes) q e =
    attribute-step a.name a.type_name (attributes_query attributes) (attribute_texts attributes) q
      (λ s e'. attributes_query-terminated attributes s e') e

-- When the attributes of a sensor all have a type, the query creates its table with a counted key and the attributes, in order,
-- each with its type and with a comma between two columns.
pub creation_query_lem :
    (table q : CString) (attributes : List DataAttribute)
    → attributes_query attributes ≡ some q
    → creation_query table q
      ≡ ((codes "CREATE TABLE IF NOT EXISTS " ++ (table ++ codes "(\n"))
          ++ separated (codes ",\n") (codes "id SERIAL PRIMARY KEY") (attribute_texts attributes))
        ++ codes ");"
unfolding creation_query
creation_query_lem table q attributes e =
    ap
      (λ s.
        backspace 2 (
          codes "CREATE TABLE IF NOT EXISTS "
          ++ (table ++ (codes "(\nid SERIAL PRIMARY KEY,\n" ++ s)))
        ++ codes ");")
      (attributes_query-terminated attributes q e)
    ∙ ap (λ s. backspace 2 s ++ codes ");")
        (front_assoc (codes "CREATE TABLE IF NOT EXISTS ") table (codes "(\n")
          (terminated (codes ",\n") (codes "id SERIAL PRIMARY KEY" ∷ attribute_texts attributes)))
    ∙ ap (λ s. s ++ codes ");")
        (backspace-terminated (codes ",\n")
          (codes "CREATE TABLE IF NOT EXISTS " ++ (table ++ codes "(\n"))
          (codes "id SERIAL PRIMARY KEY") (attribute_texts attributes) refl)
