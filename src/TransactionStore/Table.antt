-- ===== src/TransactionStore/Table.antt =====
-- svalin_store/migrations/20260816003600_trust_store_transactions.sql: the table of transactions,
-- and the queries that both stores make.
use svalin.Prelude.{ℕ, ◌-◌, ◌<◌, ◌≡◌, Bool, true, false, Option, none, some, List, [], ◌∷◌, arith}
use svalin.Prelude.Tests.{ltb, ◌==◌, if◌then◌else◌}
use svalin.Bytes.{Bytes}
use svalin.Platform.{ℤ, pos, negsuc}

-- `as i64` of a `u64`, and `as u64` of an `i64`
unfoldable pub as_i64 : ℕ → ℤ
as_i64 n = if ltb n 0x8000_0000_0000_0000 then pos n else negsuc (0xffff_ffff_ffff_ffff - n)

unfoldable pub as_u64 : ℤ → ℕ
as_u64 (pos n) = n
as_u64 (negsuc n) = 0xffff_ffff_ffff_ffff - n

unfoldable pub lt_i64 : ℤ → ℤ → Bool
lt_i64 (pos a) (pos b) = ltb a b
lt_i64 (pos a) (negsuc b) = false
lt_i64 (negsuc a) (pos b) = true
lt_i64 (negsuc a) (negsuc b) = ltb b a

unfoldable pub eq_i64 : ℤ → ℤ → Bool
eq_i64 (pos a) (pos b) = a == b
eq_i64 (pos a) (negsuc b) = false
eq_i64 (negsuc a) (pos b) = false
eq_i64 (negsuc a) (negsuc b) = a == b

-- The rows, in the order of the primary key, and whether the database answers.
pub record Table : Type 0 where
  pub answers : Bool
  pub rows : List (ℤ × Bytes)

unfoldable pub select_rows : ℤ → List (ℤ × Bytes) → Option Bytes
select_rows k [] = none
select_rows k ((j, d) ∷ rows) = if eq_i64 j k then some d else select_rows k rows

unfoldable pub rows_after : ℤ → List (ℤ × Bytes) → List Bytes
rows_after k [] = []
rows_after k ((j, d) ∷ rows) = let rest = rows_after k rows in if lt_i64 k j then d ∷ rest else rest

unfoldable pub insert_row : ℤ → Bytes → List (ℤ × Bytes) → List (ℤ × Bytes)
insert_row k d [] = (k, d) ∷ []
insert_row k d ((j, e) ∷ rows) =
    if lt_i64 k j then (k, d) ∷ (j, e) ∷ rows else (j, e) ∷ insert_row k d rows

unfoldable pub max_key : List (ℤ × Bytes) → Option ℤ
max_key [] = none
max_key ((j, d) ∷ []) = some j
max_key ((j, d) ∷ r ∷ rows) = max_key (r ∷ rows)

-- `SELECT data FROM … WHERE sequence = ?`, where a missing row is an error too
unfoldable pub select_data : Table → ℤ → Option Bytes
unfolding select_rows eq_i64
select_data t k = if t.answers then select_rows k t.rows else none

-- `SELECT data FROM … WHERE sequence > ? ORDER BY sequence ASC`
unfoldable pub select_after : Table → ℤ → Option (List Bytes)
unfolding rows_after lt_i64
select_after t k = if t.answers then some (rows_after k t.rows) else none

-- `SELECT MAX(sequence) FROM …`, of one row that may hold `NULL`
unfoldable pub select_max : Table → Option (Option ℤ)
unfolding max_key
select_max t = if t.answers then some (max_key t.rows) else none

-- `INSERT INTO …`, which a row with the same primary key refuses
unfoldable pub insert_data : Table → ℤ → Bytes → Option Table
unfolding insert_row select_rows eq_i64 lt_i64
insert_data t k d =
    if t.answers
    then elim (select_rows k t.rows) [
      | some _ ↦ none
      | none ↦ some (record t { rows = insert_row k d t.rows })
    ]
    else none

pub lt-as_i64 :
    (a b : ℕ)
    → a < 0x8000_0000_0000_0000
    → b < 0x8000_0000_0000_0000
    → lt_i64 (as_i64 a) (as_i64 b) ≡ ltb a b
unfolding as_i64 lt_i64
lt-as_i64 a b h g = ground arith

pub eq-as_i64 :
    (a b : ℕ)
    → a < 0x8000_0000_0000_0000
    → b < 0x8000_0000_0000_0000
    → eq_i64 (as_i64 a) (as_i64 b) ≡ (a == b)
unfolding as_i64 eq_i64
eq-as_i64 a b h g = ground arith

pub as_u64-as_i64 : (a : ℕ) → a < 0x1_0000_0000_0000_0000 → as_u64 (as_i64 a) ≡ a
unfolding as_i64 as_u64
as_u64-as_i64 a h = ground arith

pub insert_data_down :
    (t : Table) (k : ℤ) (d : Bytes) → t.answers ≡ false → insert_data t k d ≡ none
unfolding insert_data
insert_data_down t k d down = ground arith

pub insert_data_new :
    (t : Table) (k : ℤ) (d : Bytes)
    → t.answers ≡ true
    → select_rows k t.rows ≡ none
    → insert_data t k d ≡ some (record t { rows = insert_row k d t.rows })
unfolding insert_data
insert_data_new t k d up new = ground arith
