-- ===== src/Gateway/Router.antt =====
-- gateway/instrument_router.h and instrument_router.cpp: a pipeline of book, pool, engine and
-- gateway for each instrument, and one event buffer for all.
use hft_orderbook_engine.Base.{
  ℕ, zero, suc, ◌+◌, Bool, false, Option, none, some, List, [], ◌∷◌, ◌++◌, length, ◌==◌, ltb, ◌>>=◌,
  if◌then◌else◌, u64_mod, ◌-◌,
}
use hft_orderbook_engine.Core.{Store}
use hft_orderbook_engine.Pool
use hft_orderbook_engine.Book
use hft_orderbook_engine.Engine.{stp_none}
use hft_orderbook_engine.Engine.Submit
use hft_orderbook_engine.Transport.{OrderMessage}
use hft_orderbook_engine.Gateway.{
  OrderGateway, EventBuffer, GatewayResult, refusal, invalid_price, order_not_found, process_order,
  process_cancel, process_modify,
}
use hft_orderbook_engine.Gateway
use hft_orderbook_engine.Gateway.Registry.{InstrumentRegistry, InstrumentConfig, get_elem?}

-- A pipeline's book, pool and engine are those of its gateway.
pub record InstrumentPipeline : Type 0 where
  pub instrument_id : ℕ
  pub gateway : OrderGateway

-- `event_buffer` is the shared one: a gateway has it while it works.
pub record InstrumentRouter : Type 0 where
  pub pipelines : List InstrumentPipeline
  pub id_to_index : List ℕ
  pub event_buffer : Option EventBuffer

abbrev pub invalid_index : ℕ
invalid_index = u64_mod - 1

abbrev pub set_elem {ℓ} : {A : Type ℓ} → List A → ℕ → A → List A
set_elem [] i y = []
set_elem (x ∷ xs) zero y = y ∷ xs
set_elem (x ∷ xs) (suc i) y = x ∷ set_elem xs i y

abbrev pub replicate {ℓ} : {A : Type ℓ} → ℕ → A → List A
replicate zero x = []
replicate (suc n) x = x ∷ replicate n x

abbrev pub max_id : ℕ → List InstrumentConfig → ℕ
max_id m [] = m
max_id m (cfg ∷ rest) = max_id (if ltb m cfg.instrument_id then cfg.instrument_id else m) rest

-- `unset` is what the new pools' memory holds.
unfoldable pub make_pipeline : Store → Option EventBuffer → InstrumentConfig → InstrumentPipeline
make_pipeline unset event_buffer cfg = record {
  instrument_id = cfg.instrument_id;
  gateway =
      Gateway.make
        (Submit.make (Book.make cfg.min_price cfg.max_price cfg.tick_size cfg.max_orders) unset
          (Pool.make cfg.max_orders) stp_none)
        event_buffer cfg.instrument_id;
}

unfoldable pub add_pipelines : Store → InstrumentRouter → List InstrumentConfig → InstrumentRouter
add_pipelines unset r [] = r
add_pipelines unset r (cfg ∷ rest) =
    add_pipelines unset
      (record r {
        id_to_index = set_elem r.id_to_index cfg.instrument_id (length r.pipelines);
        pipelines = r.pipelines ++ make_pipeline unset r.event_buffer cfg ∷ [];
      })
      rest

unfoldable pub make : Store → InstrumentRegistry → Option EventBuffer → InstrumentRouter
make unset registry event_buffer = elim registry.instruments as (λ _. InstrumentRouter) [
  | [] ↦ record { pipelines = []; id_to_index = []; event_buffer = event_buffer }
  | cfg ∷ rest ↦
      add_pipelines unset
        (record {
          pipelines = [];
          id_to_index = replicate (max_id 0 registry.instruments + 1) invalid_index;
          event_buffer = event_buffer;
        })
        registry.instruments
]

-- The index of the instrument's pipeline.
unfoldable pub lookup_index : InstrumentRouter → ℕ → Option ℕ
lookup_index r id = elim (get_elem? r.id_to_index id) [
  | none ↦ none
  | some index ↦ if index == invalid_index then none else some index
]

unfoldable pub lookup : InstrumentRouter → ℕ → Option InstrumentPipeline
lookup r id = lookup_index r id >>= get_elem? r.pipelines

abbrev pub lend : InstrumentRouter → InstrumentPipeline → OrderGateway
lend r p = record (p.gateway) { event_buffer = r.event_buffer }

abbrev pub put_back : InstrumentRouter → ℕ → InstrumentPipeline → OrderGateway → InstrumentRouter
put_back r index p g = record r {
  pipelines = set_elem r.pipelines index (record p { gateway = g });
  event_buffer = g.event_buffer;
}

abbrev pub at {ℓ} :
    {A : Type ℓ}
    → InstrumentRouter
    → ℕ
    → A
    → (OrderGateway → Option (OrderGateway × A))
    → Option (InstrumentRouter × A)
at r id unknown act = elim (lookup_index r id) [
  | none ↦ some (r, unknown)
  | some index ↦ do
    p ← get_elem? r.pipelines index
    (g, answer) ← act (lend r p)
    some (put_back r index p g, answer)
]

module _ (consume : EventBuffer → EventBuffer) (fuel : ℕ) where
  unfoldable pub route_order :
      InstrumentRouter → OrderMessage → Option (InstrumentRouter × GatewayResult)
  route_order r msg =
      at r msg.instrument_id (refusal invalid_price) (λ g. process_order consume fuel g msg)

  unfoldable pub route_cancel : InstrumentRouter → ℕ → ℕ → Option (InstrumentRouter × Bool)
  route_cancel r id order_id = at r id false (λ g. process_cancel consume fuel g order_id)

  unfoldable pub route_modify :
      InstrumentRouter → OrderMessage → Option (InstrumentRouter × GatewayResult)
  route_modify r msg =
      at r msg.instrument_id (refusal order_not_found) (λ g. process_modify consume fuel g msg)

unfoldable pub order_book : InstrumentRouter → ℕ → Option Book.OrderBook
order_book r id = do p ← lookup r id; some p.gateway.engine.book

abbrev pub pipeline : InstrumentRouter → ℕ → Option InstrumentPipeline
pipeline r id = lookup r id

abbrev pub instrument_count : InstrumentRouter → ℕ
instrument_count r = length r.pipelines
