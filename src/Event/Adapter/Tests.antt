-- ===== src/Event/Adapter/Tests.antt =====
-- Runs of the event adapter, and instances of its theorems.
use dht_hunter.Base.{ℕ, ◌^◌, ◌<◌, ◌≡◌, refl, [], ◌∷◌, arith}
use dht_hunter.Event.Bus.{EventBus, append_to, handlers_of, has_token}
use dht_hunter.Event.Bus.Tokens.{HasTokens}
use dht_hunter.Event.Adapter.{create_event_adapter, disconnect, connect}
use dht_hunter.Event.Adapter.Laws.{disconnect-connect}

abbrev used_bus : EventBus ℕ
used_bus = record {
  handlers = (7, record { token = 1; handler = 10 } ∷ []) ∷ [];
  next_token_id = 2;
}

used_bus-HasTokens : HasTokens used_bus.next_token_id used_bus.handlers
unfolding has_token handlers_of
used_bus-HasTokens = (λ token h. (ground (arith, h), λ class. refl), (refl, tt), tt)

tokens_left : 4 < 2 ^ 64
tokens_left = omega arith

disconnect-connect_example :
    ((disconnect (connect ((7, 11) ∷ (8, 12) ∷ []) (create_event_adapter, used_bus))).0
      ≡ create_event_adapter)
    × (handlers_of 7
          (disconnect
            (connect ((7, 11) ∷ (8, 12) ∷ []) (create_event_adapter, used_bus))).1.handlers
        ≡ record { token = 1; handler = 10 } ∷ [])
unfolding handlers_of
disconnect-connect_example =
    disconnect-connect ((7, 11) ∷ (8, 12) ∷ []) used_bus 7 used_bus-HasTokens tokens_left

connected_handlers :
    handlers_of 7 (connect ((7, 11) ∷ []) (create_event_adapter, used_bus)).1.handlers
    ≡ record { token = 1; handler = 10 } ∷ record { token = 2; handler = 11 } ∷ []
unfolding connect handlers_of append_to
connected_handlers = refl
