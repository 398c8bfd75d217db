-- ===== src/ServerStore/Subscriptions.antt =====
-- svalin_store/src/server_store/message_store.rs: `SubscriptionManager`, the task that hands messages
-- to the receivers that are connected.
pub mod Laws
use svalin.Prelude.{ℕ, not, ◌&&◌, Bool, true, false, Option, none, some, List, [], ◌∷◌}
use svalin.Prelude.Tests.{◌==◌, if◌then◌else◌}
use svalin.Platform.{SpkiHash}
use svalin.HashMap.{HashMap, lookup, insert, erase}

-- The sending half of a channel, by a number; the other half is dropped by the subscriber.
abbrev pub Sender : Type 0
Sender = ℕ

-- `sends` is that the channel is not closed while a message waits for its turn.
pub record Channels : Type 0 where
  pub is_closed : Sender → Bool
  pub sends : Sender → Bool

-- The subscribers, and what was sent: the receiver, the channel and the id of the message, newest
-- first.
pub record Subscriptions : Type 0 where
  pub subscribed : HashMap Sender
  pub sent : List (SpkiHash × Sender × ℕ)

pub data SubscriptionRequest : Type 0 where
  subscribe : SpkiHash → Sender → SubscriptionRequest
  distribute : ℕ → List SpkiHash → SubscriptionRequest

module _ (channels : Channels) where
  -- One receiver of a message that is distributed.
  unfoldable pub send_to : Subscriptions → ℕ → SpkiHash → Subscriptions
  send_to s id k = elim (lookup k s.subscribed) [
    | none ↦ s
    | some sender ↦
        if channels.is_closed sender
        then record s { subscribed = erase k s.subscribed }
        else if channels.sends sender
        then record s { sent = (k, sender, id) ∷ s.sent }
        else record s { subscribed = erase k s.subscribed }
  ]

  unfoldable pub send_to_all : Subscriptions → ℕ → List SpkiHash → Subscriptions
  unfolding send_to
  send_to_all s id [] = s
  send_to_all s id (k ∷ receivers) = send_to_all (send_to s id k) id receivers

  -- A round of the loop of `initialize`; a new subscription replaces the old one.
  unfoldable pub handle_request : Subscriptions → SubscriptionRequest → Subscriptions
  unfolding send_to_all
  handle_request s (subscribe k sender) = record s { subscribed = insert k sender s.subscribed }
  handle_request s (distribute id receivers) = send_to_all s id receivers
