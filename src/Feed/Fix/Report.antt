-- ===== src/Feed/Fix/Report.antt =====
-- The execution report of an event, as `FixSerializer::to_execution_report` writes it and as
-- `FixParser::parse` reads it.
use hft_orderbook_engine.Base.{ℕ, ◌≡◌, true, false, none, some, List, [], has}
use hft_orderbook_engine.Transport.{EventMessage}
use hft_orderbook_engine.Feed.{Bytes}
use hft_orderbook_engine.Feed.Decimal.{print}
use hft_orderbook_engine.Feed.Fix.{FixMessage, soh}
use hft_orderbook_engine.Feed.Fix.Parser.{no_tags, read_tags, parse}
use hft_orderbook_engine.Feed.Fix.Serializer.{
  encode, headed, begin_string, wrap_message, to_execution_report,
}
use hft_orderbook_engine.Feed.Fix.Expected.{cl_ord_id_of, price_of, quantity_of, time_of, TagsOf}

-- What the parser finds in the report `raw`: the message, and the tags that the message leaves out.
pub record IsReport (event : EventMessage) (symbol sender target raw : Bytes) (m : FixMessage)
    : Type 0 where
  pub tags : TagsOf event.type event.sequence_num event.payload (read_tags soh [] raw no_tags)
  pub valid : m.valid ≡ true
  pub error : m.error ≡ none
  pub msg_type : m.msg_type ≡ b'8'
  pub version : m.begin_string ≡ begin_string
  pub sender_id : m.sender_comp_id ≡ sender
  pub target_id : m.target_comp_id ≡ target
  pub symbol_id : m.symbol ≡ symbol
  pub cl_ord_id : m.cl_ord_id ≡ cl_ord_id_of event.payload
  pub side : m.fix_side ≡ b'1'
  pub price : m.price ≡ price_of event.payload
  pub quantity : m.quantity ≡ quantity_of event.payload
  pub time : m.transact_time ≡ print (time_of event.payload)

module _ (symbol sender target : Bytes) (free_symbol : has soh symbol ≡ false)
    (free_sender : has soh sender ≡ false) (free_target : has soh target ≡ false) where
  module _ (event : EventMessage) where
    abbrev message : List (ℕ × Bytes) → Bytes
    message fs = wrap_message (encode soh (headed sender target fs)) soh

    abbrev Read : List (ℕ × Bytes) → Type 0
    Read fs = IsReport event symbol sender target (message fs) (parse (message fs))

    abbrev Written : Type 0
    Written =
        (raw : Bytes) × (to_execution_report event symbol sender target ≡ some raw)
        × IsReport event symbol sender target raw (parse raw)
