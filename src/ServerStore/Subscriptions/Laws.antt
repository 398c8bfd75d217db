-- ===== src/ServerStore/Subscriptions/Laws.antt =====
-- svalin_store/src/server_store/message_store.rs: who is handed a message.
use svalin.Prelude.{
  ℕ, suc, ◌+◌, ◌≡◌, refl, ◌∙◌, not, ◌&&◌, Bool, false, none, some, List, [], ◌∷◌, arith, inl, inr,
}
use svalin.Prelude.Tests.{◌==◌, ==_iff, if◌then◌else◌, Bool-cases, Option-cases}
use svalin.Platform.{SpkiHash}
use svalin.HashMap.{lookup, lookup-erase}
use svalin.ServerStore.Messages.Counts.{count_key}
use svalin.ServerStore.Subscriptions.{
  Sender, Channels, Subscriptions, distribute, send_to, send_to_all, handle_request,
}

-- How often a receiver was sent the message.
abbrev pub count_sent : SpkiHash → ℕ → List (SpkiHash × Sender × ℕ) → ℕ
count_sent k id [] = 0
count_sent k id ((j, sender, i) ∷ sent) =
    let rest = count_sent k id sent in if j == k && i == id then suc rest else rest

branches :
    (a b c : Bool) (n m : ℕ)
    → (if a && c then n else 0) + (if a && (b && c) then suc m else m)
      ≡ (if a && c then (if b then suc n else n) else 0) + m
branches a b c n m = ground arith

module _ (channels : Channels) where
  -- The receiver has a channel that is open and takes messages.
  abbrev pub is_reachable : Subscriptions → SpkiHash → Bool
  is_reachable s k = elim (lookup k s.subscribed) [
    | none ↦ false
    | some sender ↦ not (channels.is_closed sender) && channels.sends sender
  ]

  send_to-reachable :
      (s : Subscriptions) (id : ℕ) (j k : SpkiHash)
      → is_reachable (send_to channels s id j) k ≡ is_reachable s k
  unfolding send_to
  send_to-reachable s id j k = elim (Option-cases (lookup j s.subscribed)) [
    | inl e ↦ rw (e, send_to) refl
    | inr (sender, e) ↦ elim (Bool-cases (j == k)) [
      | inl same ↦
          let e' : lookup k s.subscribed ≡ some sender = rw ((==_iff j k).0 same) at e in
          ground (arith, e, e', lookup-erase j k s.subscribed)
      | inr other ↦ ground (arith, e, lookup-erase j k s.subscribed)
    ]
  ]

  send_to-sent :
      (s : Subscriptions) (id i : ℕ) (j k : SpkiHash)
      → count_sent k i (send_to channels s id j).sent ≡ (
          if is_reachable s k && (j == k && id == i)
          then suc (count_sent k i s.sent)
          else count_sent k i s.sent)
  unfolding send_to
  send_to-sent s id i j k = elim (Option-cases (lookup j s.subscribed)) [
    | inl e ↦ elim (Bool-cases (j == k)) [
      | inl same ↦
          let e' : lookup k s.subscribed ≡ none = rw ((==_iff j k).0 same) at e in
          ground (arith, e, e')
      | inr other ↦ ground (arith, e)
    ]
    | inr (sender, e) ↦ elim (Bool-cases (j == k)) [
      | inl same ↦
          let e' : lookup k s.subscribed ≡ some sender = rw ((==_iff j k).0 same) at e in
          ground (arith, e, e')
      | inr other ↦ ground (arith, e)
    ]
  ]

  -- Distributing a message sends it to each receiver with an open channel as often as the message
  -- names it, and to no other; nothing else is sent.
  pub distribute-sent :
      (s : Subscriptions) (id i : ℕ) (receivers : List SpkiHash) (k : SpkiHash)
      → count_sent k i (handle_request channels s (distribute id receivers)).sent
        ≡ (if is_reachable s k && id == i then count_key k receivers else 0) + count_sent k i s.sent
  unfolding handle_request send_to_all
  distribute-sent s id i [] k = ground arith
  distribute-sent s id i (j ∷ receivers) k =
      distribute-sent (send_to channels s id j) id i receivers k ∙ step_sent
    where
      step_sent :
          (if is_reachable (send_to channels s id j) k && id == i then count_key k receivers else 0)
            + count_sent k i (send_to channels s id j).sent
          ≡ (if is_reachable s k && id == i then count_key k (j ∷ receivers) else 0)
            + count_sent k i s.sent
      step_sent = rw (send_to-reachable s id j k) (
          rw (send_to-sent s id i j k) (
            branches (is_reachable s k) (j == k) (id == i) (count_key k receivers)
              (count_sent k i s.sent)))
