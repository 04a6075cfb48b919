-- ===== src/Dns/Message.antt =====
-- The DNS messages of the crate hickory_proto, as companion/src/dns/cache.rs and server.rs use them:
-- accessors, setters and the wire format. All are parameters, with nothing assumed.
use not_another_ad_blocker.Prelude.{ℕ, Bool, List, Option}
use not_another_ad_blocker.Text.{Str}

-- `ResponseCode`, with the codes that the source names.
pub data ResponseCode : Type 0 where
  no_error form_err serv_fail nx_domain not_imp refused bad_version : ResponseCode
  other_code : ℕ → ResponseCode

pub record MessageOps (Message Record : Type 0) : Type 0 where
  pub truncated : Message → Bool
  pub response_code : Message → ResponseCode
  pub answers : Message → List Record
  pub name_servers : Message → List Record
  pub additionals : Message → List Record
  pub map_answers : (Record → Record) → Message → Message
  pub map_name_servers : (Record → Record) → Message → Message
  pub map_additionals : (Record → Record) → Message → Message
  pub ttl : Record → ℕ
  pub set_ttl : ℕ → Record → Record
  -- The minimum of a record with SOA data.
  pub soa_minimum : Record → Option ℕ
  pub to_vec : Message → Option (List ℕ)
  pub from_vec : List ℕ → Option Message

pub data MessageType : Type 0 where
  query_type response_type : MessageType

pub data OpCode : Type 0 where
  op_query : OpCode
  op_other : ℕ → OpCode

-- The record types that the source names.
pub data RecordType : Type 0 where
  any_type axfr_type ixfr_type opt_type tsig_type : RecordType
  other_type : ℕ → RecordType

pub record EdnsOps (Edns : Type 0) : Type 0 where
  pub new_edns : Edns
  pub max_payload : Edns → ℕ
  pub set_max_payload : ℕ → Edns → Edns
  pub dnssec_ok : Edns → Bool
  pub set_dnssec_ok : Bool → Edns → Edns
  pub version : Edns → ℕ
  pub has_options : Edns → Bool
  pub z_flags : Edns → ℕ

pub record QueryOps (Query : Type 0) : Type 0 where
  pub is_internet : Query → Bool
  pub record_type : Query → RecordType
  pub name_text : Query → Str
  pub lower_name : Query → Str
  pub type_text : Query → Str
  pub type_debug : Query → Str

-- The accessors and setters beyond those of `MessageOps`.
pub record RequestOps (Message Query Edns : Type 0) : Type 0 where
  pub new_message : Message
  pub id : Message → ℕ
  pub set_id : ℕ → Message → Message
  pub message_type : Message → MessageType
  pub set_message_type : MessageType → Message → Message
  pub op_code : Message → OpCode
  pub set_op_code : OpCode → Message → Message
  pub recursion_desired : Message → Bool
  pub set_recursion_desired : Bool → Message → Message
  pub recursion_available : Message → Bool
  pub set_recursion_available : Bool → Message → Message
  pub checking_disabled : Message → Bool
  pub set_checking_disabled : Bool → Message → Message
  pub authentic_data : Message → Bool
  pub set_authentic_data : Bool → Message → Message
  pub authoritative : Message → Bool
  pub set_truncated : Bool → Message → Message
  pub set_response_code : ResponseCode → Message → Message
  pub queries : Message → List Query
  pub add_query : Query → Message → Message
  pub clear_queries : Message → Message
  pub extensions : Message → Option Edns
  pub set_edns : Edns → Message → Message
  pub has_signature : Message → Bool
  pub take_records : Message → Message
