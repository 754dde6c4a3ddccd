-- ===== src/Feed/Fix.antt =====
-- feed/fix_message.h: the parsed FIX message. A tag is its number, a character its byte, and '\0' is
-- the byte 0.
pub mod Parser
pub mod Serializer
pub mod Tags
pub mod Frame
pub mod RoundTrip
pub mod Fields
pub mod Expected
pub mod Report
pub mod Sum
pub mod Sound
use hft_orderbook_engine.Base.{ℕ, Bool, false, Option, none, some, []}
use hft_orderbook_engine.Base.Int.{ℤ, pos}
use hft_orderbook_engine.Feed.{Bytes}

-- What the error text says. A missing field has the message type and the tag.
pub data FixError : Type 0 where
  empty_message missing_msg_type checksum_mismatch : FixError
  invalid_msg_type : Bytes → FixError
  unsupported_msg_type : ℕ → FixError
  missing_field : ℕ → ℕ → FixError
  body_length_mismatch : ℤ → ℕ → FixError

pub record FixMessage : Type 0 where
  pub msg_type : ℕ
  pub begin_string : Bytes
  pub sender_comp_id : Bytes
  pub target_comp_id : Bytes
  pub cl_ord_id : Bytes
  pub orig_cl_ord_id : Bytes
  pub symbol : Bytes
  pub fix_side : ℕ
  pub fix_ord_type : ℕ
  pub fix_tif : ℕ
  pub price : ℤ
  pub quantity : ℕ
  pub transact_time : Bytes
  pub body_length : ℤ
  pub checksum : Bytes
  pub valid : Bool
  pub error : Option FixError

abbrev pub blank : FixMessage
blank = record {
  msg_type = 0;
  begin_string = [];
  sender_comp_id = [];
  target_comp_id = [];
  cl_ord_id = [];
  orig_cl_ord_id = [];
  symbol = [];
  fix_side = 0;
  fix_ord_type = 0;
  fix_tif = 0;
  price = pos 0;
  quantity = 0;
  transact_time = [];
  body_length = pos 0;
  checksum = [];
  valid = false;
  error = none;
}

abbrev pub soh : ℕ
soh = 1

abbrev pub pipe : ℕ
pipe = b'|'

abbrev pub failed : FixMessage → FixError → FixMessage
failed msg e = record msg { error = some e }
