-- ===== src/TransactionStore/Rows.antt =====
-- svalin_store/src/trust_store_transaction_store.rs: what the queries give of a table of consecutive
-- blocks.
use svalin.Prelude.{
  ℕ, suc, ◌+◌, ◌<◌, ◌≤◌, ◌≡◌, ◌⊎◌, refl, ap, ◌∙◌, true, false, none, some, List, [], ◌∷◌, ◌++◌,
  arith,
}
use svalin.Prelude.Lists.{length, length-append}
use svalin.Prelude.Result.{ok}
use svalin.Bytes.{Bytes}
use svalin.Platform.{ℤ}
use svalin.TransactionStore.Table.{
  as_i64, as_u64, lt_i64, eq_i64, select_rows, rows_after, insert_row, max_key, lt-as_i64,
  eq-as_i64, as_u64-as_i64,
}
use svalin.TransactionStore.Defs.{Block, Codec, decode_all}

-- The number of sequences that an `i64` holds.
abbrev pub i64_limit : ℕ
i64_limit = 0x8000_0000_0000_0000

-- The blocks bear the sequences from `first` on.
abbrev pub Consecutive : ℕ → List Block → Type 0
Consecutive first [] = Unit {0}
Consecutive first (b ∷ bs) = (b.sequence ≡ first) × Consecutive (suc first) bs

module _ (codec : Codec) where
  -- Each row holds its block, under the sequence of the block.
  abbrev pub Holds : List (ℤ × Bytes) → List Block → Type 0
  Holds [] [] = Unit {0}
  Holds [] (b ∷ bs) = ⊥
  Holds (r ∷ rows) [] = ⊥
  Holds ((k, d) ∷ rows) (b ∷ bs) =
      (k ≡ as_i64 b.sequence) × (codec.from_bytes d ≡ some b) × Holds rows bs

pub Consecutive-append :
    (first : ℕ) (bs cs : List Block)
    → Consecutive first bs
    → Consecutive (first + length bs) cs
    → Consecutive first (bs ++ cs)
Consecutive-append first [] cs h g = let e : first + 0 ≡ first = omega arith in rw e at g
Consecutive-append first (b ∷ bs) cs h g =
    let e : first + suc (length bs) ≡ suc first + length bs = omega arith in
    (h.0, Consecutive-append (suc first) bs cs h.1 (rw e at g))

pub Consecutive-suffix :
    (first : ℕ) (bs cs : List Block)
    → Consecutive first (bs ++ cs)
    → Consecutive (first + length bs) cs
Consecutive-suffix first [] cs h = let e : first + 0 ≡ first = omega arith in rw e h
Consecutive-suffix first (b ∷ bs) cs h =
    let e : first + suc (length bs) ≡ suc first + length bs = omega arith in
    rw e (Consecutive-suffix (suc first) bs cs h.1)

module _ (codec : Codec) where
  -- A block behind all rows is stored behind them.
  pub insert_row-Holds :
      (first : ℕ) (rows : List (ℤ × Bytes)) (bs : List Block) (b : Block) (d : Bytes)
      → Holds codec rows bs
      → Consecutive first bs
      → first + length bs ≡ b.sequence
      → b.sequence < i64_limit
      → codec.from_bytes d ≡ some b
      → Holds codec (insert_row (as_i64 b.sequence) d rows) (bs ++ b ∷ [])
  unfolding insert_row
  insert_row-Holds first [] [] b d h n e small dec = (refl, dec, tt)
  insert_row-Holds first [] (c ∷ bs) b d h n e small dec = absurd h
  insert_row-Holds first (r ∷ rows) [] b d h n e small dec = absurd h
  insert_row-Holds first ((k, x) ∷ rows) (c ∷ bs) b d h n e small dec =
      let behind : lt_i64 (as_i64 b.sequence) k ≡ false =
        ap (lt_i64 (as_i64 b.sequence)) h.0
        ∙ lt-as_i64 b.sequence c.sequence small (omega (arith, n.0))
        ∙ (ground (arith, n.0)) in
      rw behind (h.0, h.1, insert_row-Holds (suc first) rows bs b d h.2 n.1 (omega arith) small dec)

  pub select_rows-missing :
      (first sequence : ℕ) (rows : List (ℤ × Bytes)) (bs : List Block)
      → Holds codec rows bs
      → Consecutive first bs
      → (sequence < first) ⊎ (first + length bs ≤ sequence)
      → sequence < i64_limit
      → first + length bs ≤ i64_limit
      → select_rows (as_i64 sequence) rows ≡ none
  unfolding select_rows
  select_rows-missing first sequence [] bs h n out small fits = refl
  select_rows-missing first sequence (r ∷ rows) [] h n out small fits = absurd h
  select_rows-missing first sequence ((k, x) ∷ rows) (c ∷ bs) h n out small fits =
      let other : eq_i64 k (as_i64 sequence) ≡ false =
        ap (λ j. eq_i64 j (as_i64 sequence)) h.0
        ∙ eq-as_i64 c.sequence sequence (omega (arith, n.0)) small
        ∙ (ground (arith, n.0)) in
      rw other (
        select_rows-missing (suc first) sequence rows bs h.2 n.1 (ground arith) small (omega arith))

  pub select_rows-found :
      (first : ℕ) (rows : List (ℤ × Bytes)) (older : List Block) (b : Block) (newer : List Block)
      → Holds codec rows (older ++ b ∷ newer)
      → Consecutive first (older ++ b ∷ newer)
      → first + length older < i64_limit
      → (d : Bytes) × (select_rows (as_i64 b.sequence) rows ≡ some d)
        × (codec.from_bytes d ≡ some b)
  unfolding select_rows
  select_rows-found first [] [] b newer h n small = absurd h
  select_rows-found first [] (c ∷ older) b newer h n small = absurd h
  select_rows-found first ((k, x) ∷ rows) [] b newer h n small =
      let this : eq_i64 k (as_i64 b.sequence) ≡ true =
        ap (λ j. eq_i64 j (as_i64 b.sequence)) h.0
        ∙ eq-as_i64 b.sequence b.sequence (omega (arith, n.0)) (omega (arith, n.0))
        ∙ (ground arith) in
      (x, (rw this), h.1)
  select_rows-found first ((k, x) ∷ rows) (c ∷ older) b newer h n small =
      let later : b.sequence ≡ suc first + length older =
        (Consecutive-suffix (suc first) older (b ∷ newer) n.1).0 in
      let other : eq_i64 k (as_i64 b.sequence) ≡ false =
        ap (λ j. eq_i64 j (as_i64 b.sequence)) h.0
        ∙ eq-as_i64 c.sequence b.sequence (omega (arith, n.0)) (omega arith)
        ∙ (ground (arith, n.0)) in
      rw other (select_rows-found (suc first) rows older b newer h.2 n.1 (omega arith))

  decode-all_after :
      (first after : ℕ) (rows : List (ℤ × Bytes)) (bs : List Block)
      → Holds codec rows bs
      → Consecutive first bs
      → after < first
      → first + length bs ≤ i64_limit
      → decode_all codec (rows_after (as_i64 after) rows) ≡ ok bs
  unfolding decode_all rows_after
  decode-all_after first after [] [] h n lt fits = refl
  decode-all_after first after [] (b ∷ bs) h n lt fits = absurd h
  decode-all_after first after (r ∷ rows) [] h n lt fits = absurd h
  decode-all_after first after ((k, d) ∷ rows) (b ∷ bs) h n lt fits =
      let new : lt_i64 (as_i64 after) k ≡ true =
        ap (lt_i64 (as_i64 after)) h.0
        ∙ lt-as_i64 after b.sequence (omega arith) (omega (arith, n.0))
        ∙ (ground (arith, n.0)) in
      let rest = decode-all_after (suc first) after rows bs h.2 n.1 (omega arith) (omega arith) in
      rw new (rw h.1 (rw rest refl))

  -- Loading gives exactly the blocks behind the sequence, in their order.
  pub decode-rows_after :
      (first after : ℕ) (rows : List (ℤ × Bytes)) (older newer : List Block)
      → Holds codec rows (older ++ newer)
      → Consecutive first (older ++ newer)
      → first + length older ≡ suc after
      → first + length (older ++ newer) ≤ i64_limit
      → decode_all codec (rows_after (as_i64 after) rows) ≡ ok newer
  unfolding rows_after
  decode-rows_after first after rows [] newer h n e fits =
      decode-all_after first after rows newer h n (omega arith) fits
  decode-rows_after first after [] (b ∷ older) newer h n e fits = absurd h
  decode-rows_after first after ((k, d) ∷ rows) (b ∷ older) newer h n e fits =
      let old : lt_i64 (as_i64 after) k ≡ false =
        ap (lt_i64 (as_i64 after)) h.0
        ∙ lt-as_i64 after b.sequence (omega (arith, length-append older newer)) (omega (arith, n.0))
        ∙ (ground (arith, n.0)) in
      rw old
        (decode-rows_after (suc first) after rows older newer h.2 n.1 (omega arith) (omega arith))

  pub max_key-Holds :
      (first : ℕ) (rows : List (ℤ × Bytes)) (bs : List Block) (b : Block)
      → Holds codec rows (b ∷ bs)
      → Consecutive first (b ∷ bs)
      → first + length bs < i64_limit
      → (k : ℤ) × (max_key rows ≡ some k) × (as_u64 k ≡ first + length bs)
  unfolding max_key
  max_key-Holds first [] bs b h n small = absurd h
  max_key-Holds first ((k, d) ∷ []) [] b h n small = (
    k,
    refl,
    ap as_u64 h.0 ∙ as_u64-as_i64 b.sequence (omega (arith, n.0)) ∙ (omega (arith, n.0)),
  )
  max_key-Holds first ((k, d) ∷ []) (c ∷ bs) b h n small = absurd h.2
  max_key-Holds first ((k, d) ∷ r ∷ rows) [] b h n small = absurd h.2
  max_key-Holds first ((k, d) ∷ r ∷ rows) (c ∷ bs) b h n small =
      let (m, e, last) = max_key-Holds (suc first) (r ∷ rows) bs c h.2 n.1 (omega arith) in
      (m, e, last ∙ (omega arith))
