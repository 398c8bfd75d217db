-- ===== src/Messaging/Rows.antt =====
-- svalin/src/message_streaming/server.rs: the rows of the receivers of one message.
use svalin.Prelude.{
  ℕ, ◌≤◌, ◌<◌, ◌≡◌, ◌≢◌, ◌⊎◌, refl, ap, ◌∙◌, List, [], ◌∷◌, ◌++◌, map, arith, inl, inr,
}
use svalin.Prelude.Tests.{==_self, Bool-cases, Option-cases}
use svalin.Prelude.Lists.{All, All-map}
use svalin.Prelude.Result.{Result, Done, ok, err, panicked, Result-cases}
use svalin.Platform.{SpkiHash}
use svalin.ServerStore.Messages.{MessageCodec, add_message, pending, has_message}
use svalin.ServerStore.Subscriptions.{Channels}
use svalin.Mls.OpenMls.{OpenMls, PublicGroups}
use svalin.Mls.Transport.{MessageToMemberTransport, MessageToSend, remove_receiver, retain_others}
use svalin.Messaging.{MlsMessageHandler, MlsHandleError, and_then, store_message}

abbrev pub row : ℕ → SpkiHash → ℕ × SpkiHash
row id k = (id, k)

-- The sender gets no row.
pub pending-sender :
    (i id : ℕ) (sender : SpkiHash) (receivers : List SpkiHash) (rows : List (ℕ × SpkiHash))
    → pending i sender (map (row id) (retain_others sender receivers) ++ rows)
      ≡ pending i sender rows
unfolding pending retain_others
pending-sender i id sender [] rows = refl
pending-sender i id sender (r ∷ receivers) rows =
    ground (arith, pending-sender i id sender receivers rows)

pub pending-le :
    (i k id : ℕ) (receivers : List SpkiHash) (rows : List (ℕ × SpkiHash))
    → pending i k rows ≤ pending i k (map (row id) receivers ++ rows)
unfolding pending
pending-le i k id [] rows = omega arith
pending-le i k id (r ∷ receivers) rows = ground (arith, pending-le i k id receivers rows)

-- Each of the receivers has a row.
pub pending-All :
    (id : ℕ) (receivers : List SpkiHash) (rows : List (ℕ × SpkiHash))
    → All (λ k. 0 < pending id k (map (row id) receivers ++ rows)) receivers
unfolding pending
pending-All id [] rows = tt
pending-All id (r ∷ receivers) rows = (
  ground (arith, ==_self id, ==_self r),
  All-map (λ k h. ground (arith, h)) receivers (pending-All id receivers rows),
)

abbrev pub rows : {M : OpenMls} {G : PublicGroups M} → MlsMessageHandler G → List (ℕ × SpkiHash)
rows s = s.message_store.receivers

module _ {M : OpenMls} (G : PublicGroups M) (codec : MessageCodec MessageToMemberTransport)
    (channels : Channels) (now : ℕ) where
  -- A message is stored for its receivers, or the rows are as before.
  pub store_message-cases :
      (id : ℕ) (m : MessageToSend) (s : MlsMessageHandler G)
      → (((store_message G codec channels now id m s).0 ≡ ok tt)
          × (rows (store_message G codec channels now id m s).1
              ≡ map (row id) m.receivers ++ rows s))
        ⊎ (((store_message G codec channels now id m s).0 ≢ ok tt)
            × (rows (store_message G codec channels now id m s).1 ≡ rows s))
  unfolding store_message add_message
  store_message-cases id m s = elim (Option-cases (codec.to_stdvec m.message)) [
    | inl none_ ↦ inr (ground arith, ground arith)
    | inr (d, e) ↦ elim (Bool-cases s.message_store.answers) [
      | inr down ↦ inr (ground arith, ground arith)
      | inl up ↦ elim (Bool-cases (has_message id s.message_store.messages)) [
        | inl known ↦ inr (ground arith, ground arith)
        | inr new ↦ inl (ground arith, ground arith)
      ]
    ]
  ]

  pub and_then-cases :
      (r : Result MlsHandleError Done) (s : MlsMessageHandler G)
      (rest : Result MlsHandleError Done × MlsMessageHandler G)
      → ((r ≡ ok tt) × (and_then G codec channels now r s rest ≡ rest))
        ⊎ (((and_then G codec channels now r s rest).0 ≢ ok tt)
            × ((and_then G codec channels now r s rest).1 ≡ s))
  unfolding and_then
  and_then-cases (ok tt) s rest = inl (refl, refl)
  and_then-cases (err e) s rest = inr (λ h. absurd (cc h), refl)
  and_then-cases panicked s rest = inr (λ h. absurd (cc h), refl)

  pub store_message-sender :
      (id i : ℕ) (sender : SpkiHash) (m : MessageToSend) (s : MlsMessageHandler G)
      → pending i sender
          (rows (store_message G codec channels now id (remove_receiver sender m) s).1)
        ≡ pending i sender (rows s)
  unfolding remove_receiver
  store_message-sender id i sender m s =
      elim (store_message-cases id (remove_receiver sender m) s) [
        | inl (_, there) ↦
            ap (pending i sender) there ∙ pending-sender i id sender m.receivers (rows s)
        | inr (_, same) ↦ ap (pending i sender) same
      ]

  pub store_message-le :
      (id i : ℕ) (k : SpkiHash) (m : MessageToSend) (s : MlsMessageHandler G)
      → pending i k (rows s) ≤ pending i k (rows (store_message G codec channels now id m s).1)
  store_message-le id i k m s = elim (store_message-cases id m s) [
    | inl (_, there) ↦ rw there (pending-le i k id m.receivers (rows s))
    | inr (_, same) ↦ rw same (omega arith)
  ]

  pub store_message-groups :
      (id : ℕ) (m : MessageToSend) (s : MlsMessageHandler G)
      → (store_message G codec channels now id m s).1.mls_server ≡ s.mls_server
  unfolding store_message
  store_message-groups id m s =
      elim (Result-cases (add_message codec s.message_store m.message m.receivers id now).0) [
        | inl (_, e) ↦ rw (e, store_message) refl
        | inr (inl (_, e)) ↦ rw (e, store_message) refl
        | inr (inr e) ↦ rw (e, store_message) refl
      ]
