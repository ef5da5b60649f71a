-- ===== src/Tlm.antt =====
-- The TLM-2.0 generic payload as custom-endpoint uses it: the fields that its initiators set and
-- its targets read, and the blocking transport call as an interface.
use pcie_systemc_linux.Prelude
use pcie_systemc_linux.Prelude.{ℕ, Bool, true, false, List, ◌++◌, drop}

-- tlm_command
pub data Command : Type 0 where
  read write ignore : Command

-- tlm_response_status, the values that this code sets or tests
pub data Response : Type 0 where
  ok incomplete address_error generic_error : Response

-- `buffer` is what lies at the data pointer, a byte a place.
pub record Payload : Type 0 where
  pub command : Command
  pub address : ℕ
  pub buffer : List ℕ
  pub length : ℕ
  pub streaming_width : ℕ
  pub has_byte_enable : Bool
  pub dmi_allowed : Bool
  pub response : Response

abbrev pub is_read : Command → Bool
is_read Command.read = true
is_read Command.write = false
is_read ignore = false

abbrev pub is_response_ok : Response → Bool
is_response_ok ok = true
is_response_ok incomplete = false
is_response_ok address_error = false
is_response_ok generic_error = false

-- The transaction as every initiator here fills it in, before the call.
abbrev pub request : Command → ℕ → List ℕ → ℕ → Payload
request command addr bytes len = record {
  command = command;
  address = addr;
  buffer = bytes;
  length = len;
  streaming_width = len;
  has_byte_enable = false;
  dmi_allowed = false;
  response = incomplete;
}

-- memcpy of some bytes to the start of a buffer that has room for them
abbrev pub overwrite : List ℕ → List ℕ → List ℕ
overwrite buffer bytes = bytes ++ drop (Prelude.length bytes) buffer

-- What one socket call does: the target's state and the transaction after it, and the delay, in ns.
pub record Outcome (S : Type 0) : Type 0 where
  pub state : S
  pub trans : Payload
  pub delay : ℕ

-- `b_transport` of a target with state `S`.
abbrev pub Transport : Type 0 → Type 0
Transport S = S → Payload → ℕ → Outcome S
