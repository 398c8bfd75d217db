-- ===== src/ServerStore/Messages/Load.antt =====
-- svalin_store/src/server_store/message_store.rs: what is loaded for a receiver.
use svalin.Prelude.{
  ℕ, zero, suc, ◌+◌, ◌*◌, ◌<◌, ◌≤◌, ◌≡◌, inl, inr, refl, ap, ◌∙◌, true, some, List, [], ◌∷◌, ◌++◌,
  arith,
}
use svalin.Prelude.Tests.{ltb, ◌==◌, ==_iff, if◌then◌else◌, Bool-cases}
use svalin.Prelude.Result.{ok}
use svalin.Platform.{SpkiHash}
use svalin.ServerStore.Messages.{
  MessageRow, MessageStore, MessageCodec, pending, insert_by_time, order_by_time, copies,
  join_receivers, read_rows, load_all_for,
}
use svalin.ServerStore.Messages.Counts.{count_id, count_row, count_row-order}

module _ {Message : Type 0} (codec : MessageCodec Message) where
  abbrev pub Readable : List MessageRow → Type 0
  Readable [] = Unit {0}
  Readable (m ∷ rows) =
      ((message : Message) × (codec.from_bytes m.content ≡ some message)) × Readable rows

  -- No id stands twice, each message can be read, and a message stands behind each receiver.
  pub record IsMessages (s : MessageStore) : Type 0 where
    pub answers : s.answers ≡ true
    pub unique : (id : ℕ) → count_row id s.messages ≤ 1
    pub readable : Readable s.messages
    pub covered :
        (id : ℕ) (k : SpkiHash) → 0 < pending id k s.receivers → count_row id s.messages ≡ 1

  Readable-insert :
      (m : MessageRow) (rows : List MessageRow)
      → Readable (m ∷ rows)
      → Readable (insert_by_time m rows)
  unfolding insert_by_time
  Readable-insert m [] h = h
  Readable-insert m (q ∷ rows) h = elim (Bool-cases (ltb q.received_at m.received_at)) [
    | inl e ↦ rw e (h.1.0, Readable-insert m rows (h.0, h.1.1))
    | inr e ↦ rw e h
  ]

  Readable-order : (rows : List MessageRow) → Readable rows → Readable (order_by_time rows)
  unfolding order_by_time
  Readable-order [] h = tt
  Readable-order (m ∷ rows) h =
      Readable-insert m (order_by_time rows) (h.0, Readable-order rows h.1)

  read_copies :
      (n : ℕ) (m : MessageRow) (rest : List MessageRow) (message : Message)
      (read : List (ℕ × Message))
      → codec.from_bytes m.content ≡ some message
      → read_rows codec rest ≡ ok read
      → (all : List (ℕ × Message)) × (read_rows codec (copies n m ++ rest) ≡ ok all)
        × ((id : ℕ) → count_id id all ≡ (if m.id == id then n else 0) + count_id id read)
  unfolding read_rows copies
  read_copies zero m rest message read e h = (read, h, λ id. ground arith)
  read_copies (suc n) m rest message read e h =
      let (all, done, counts) = read_copies n m rest message read e h in
      ((m.id, message) ∷ all, (rw e (rw done refl)), λ id. ground (arith, counts id))

  counted :
      (id : ℕ) (k : SpkiHash) (receivers : List (ℕ × SpkiHash)) (m : MessageRow)
      (rows : List MessageRow) (read all : List (ℕ × Message))
      → count_id id all ≡ (if m.id == id then pending m.id k receivers else 0) + count_id id read
      → count_id id read ≡ count_row id rows * pending id k receivers
      → count_id id all ≡ count_row id (m ∷ rows) * pending id k receivers
  unfolding count_row
  counted id k receivers m rows read all h g = elim (Bool-cases (m.id == id)) [
    | inl e ↦
        let same : m.id ≡ id = (==_iff m.id id).0 e in
        let pend : pending m.id k receivers ≡ pending id k receivers =
          ap (λ x. pending x k receivers) same in
        rw e (
          let h' : count_id id all ≡ pending m.id k receivers + count_id id read = rw e at h in
          grind (arith, h', g, pend))
    | inr e ↦
        rw e (let h' : count_id id all ≡ 0 + count_id id read = rw e at h in omega (arith, h', g))
  ]

  read_join :
      (k : SpkiHash) (receivers : List (ℕ × SpkiHash)) (rows : List MessageRow)
      → Readable rows
      → (all : List (ℕ × Message)) × (read_rows codec (join_receivers k receivers rows) ≡ ok all)
        × ((id : ℕ) → count_id id all ≡ count_row id rows * pending id k receivers)
  unfolding join_receivers count_row read_rows
  read_join k receivers [] h = ([], refl, λ id. omega arith)
  read_join k receivers (m ∷ rows) h =
      let (read, done, counts) = read_join k receivers rows h.1 in
      let (all, e, more) =
        read_copies (pending m.id k receivers) m (join_receivers k receivers rows) h.0.0 read h.0.1
          done in
      (all, e, λ id. counted id k receivers m rows read all (more id) (counts id))

  -- While the database answers, loading gives each message as often as it stands for the receiver.
  pub load_all_for-pending :
      (s : MessageStore) (k : SpkiHash)
      → IsMessages s
      → (all : List (ℕ × Message)) × (load_all_for codec s k ≡ ok all)
        × ((id : ℕ) → count_id id all ≡ pending id k s.receivers)
  unfolding load_all_for
  load_all_for-pending s k here =
      let (all, done, counts) =
        read_join k s.receivers (order_by_time s.messages)
          (Readable-order s.messages here.readable) in
      (
        all,
        (rw (here.answers, load_all_for) done),
        λ id.
            once (pending id k s.receivers) (count_row id s.messages) (count_id id all)
              (counts id ∙ ap (λ n. n * pending id k s.receivers) (count_row-order id s.messages))
              (here.covered id k),
      )
    where
      once : (n rows all : ℕ) → all ≡ rows * n → (0 < n → rows ≡ 1) → all ≡ n
      once zero rows all e h = omega (arith, e)
      once (suc n) rows all e h = let one : rows ≡ 1 = h (omega arith) in grind (arith, e, one)
