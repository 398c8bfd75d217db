-- ===== src/ServerStore/Messages/Counts.antt =====
-- svalin_store/src/server_store/message_store.rs: how often a message stands somewhere.
use svalin.Prelude.{ℕ, suc, ◌+◌, ◌<◌, ◌≡◌, refl, true, ◌&&◌, List, [], ◌∷◌, ◌++◌, map, arith}
use svalin.Prelude.Tests.{◌==◌, if◌then◌else◌}
use svalin.Platform.{SpkiHash}
use svalin.ServerStore.Messages.{
  MessageRow, pending, drop_receiver, has_receiver, insert_by_time, order_by_time,
}

-- How often a message is among those loaded.
abbrev pub count_id {ℓ} : {A : Type ℓ} → ℕ → List (ℕ × A) → ℕ
count_id id [] = 0
count_id id ((i, m) ∷ l) = let rest = count_id id l in if i == id then suc rest else rest

abbrev pub count_key : SpkiHash → List SpkiHash → ℕ
count_key k [] = 0
count_key k (j ∷ l) = let rest = count_key k l in if j == k then suc rest else rest

-- How often a message is kept.
unfoldable pub count_row : ℕ → List MessageRow → ℕ
count_row id [] = 0
count_row id (m ∷ rows) = let rest = count_row id rows in if m.id == id then suc rest else rest

pub pending-drop_receiver :
    (id j : ℕ) (k l : SpkiHash) (rows : List (ℕ × SpkiHash))
    → pending j l (drop_receiver id k rows) ≡ (if id == j && k == l then 0 else pending j l rows)
unfolding pending drop_receiver
pending-drop_receiver id j k l [] = ground arith
pending-drop_receiver id j k l ((a, b) ∷ rows) = ground (arith, pending-drop_receiver id j k l rows)

pub pending-new :
    (id j : ℕ) (k : SpkiHash) (keys : List SpkiHash) (rows : List (ℕ × SpkiHash))
    → pending j k (map (λ l. (id, l)) keys ++ rows)
      ≡ (if id == j then count_key k keys else 0) + pending j k rows
unfolding pending
pending-new id j k [] rows = ground arith
pending-new id j k (l ∷ keys) rows = ground (arith, pending-new id j k keys rows)

pub has_receiver-pending :
    (id : ℕ) (k : SpkiHash) (rows : List (ℕ × SpkiHash))
    → 0 < pending id k rows
    → has_receiver id rows ≡ true
unfolding pending has_receiver
has_receiver-pending id k [] h = absurd (omega arith)
has_receiver-pending id k ((i, j) ∷ rows) h = ground (arith, has_receiver-pending id k rows)

pub count_row-insert :
    (id : ℕ) (m : MessageRow) (rows : List MessageRow)
    → count_row id (insert_by_time m rows)
      ≡ (if m.id == id then suc (count_row id rows) else count_row id rows)
unfolding count_row insert_by_time
count_row-insert id m [] = refl
count_row-insert id m (q ∷ rows) = ground (arith, count_row-insert id m rows)

pub count_row-order :
    (id : ℕ) (rows : List MessageRow) → count_row id (order_by_time rows) ≡ count_row id rows
unfolding count_row order_by_time
count_row-order id [] = refl
count_row-order id (m ∷ rows) =
    ground (arith, count_row-insert id m (order_by_time rows), count_row-order id rows)
