-- ===== src/Dns/Server.antt =====
-- companion/src/dns/server.rs: the responses, the checks on a request and the encoder. Messages are those of the crate
-- hickory_proto, which is a parameter.
pub mod Handle
pub mod Answers
pub mod Blocked
use mathlib.Core.Option
use not_another_ad_blocker.Prelude.{
  ℕ, ◌+◌, ◌/◌, ◌%◌, min, max, Bool, true, false, ◌&&◌, ◌||◌, not, List, [], ◌∷◌, ◌++◌, Option, none,
  some, leb, ltb, ◌==◌, length, if◌then◌else◌, Result, ok, err, zero, suc,
}
use not_another_ad_blocker.Text.{Str, codes, trim_end, to_ascii_lowercase}
use not_another_ad_blocker.Dns.Blocklist.Policy.{DnsPolicy}
use not_another_ad_blocker.Dns.Blocklist.Decide.{Decision, undecided, decide}
use not_another_ad_blocker.Dns.Diagnostics.{Activity, Diagnostics, record_activity}
use not_another_ad_blocker.Dns.Message.{
  ResponseCode, no_error, form_err, serv_fail, nx_domain, not_imp, refused, bad_version, other_code,
  MessageOps, MessageType, query_type, response_type, OpCode, op_query, op_other, RecordType,
  any_type, axfr_type, ixfr_type, opt_type, tsig_type, other_type, EdnsOps, QueryOps, RequestOps,
}
use not_another_ad_blocker.Dns.Cache.{Cache, lookup, insert}

abbrev pub is_query : MessageType → Bool
is_query query_type = true
is_query response_type = false

abbrev pub is_op_query : OpCode → Bool
is_op_query op_query = true
is_op_query (op_other n) = false

abbrev pub is_no_error : ResponseCode → Bool
is_no_error no_error = true
is_no_error form_err = false
is_no_error serv_fail = false
is_no_error nx_domain = false
is_no_error not_imp = false
is_no_error refused = false
is_no_error bad_version = false
is_no_error (other_code n) = false

abbrev pub is_refused_type : RecordType → Bool
is_refused_type any_type = true
is_refused_type axfr_type = true
is_refused_type ixfr_type = true
is_refused_type opt_type = true
is_refused_type tsig_type = true
is_refused_type (other_type n) = false

abbrev pub is_empty_list {ℓ} : {A : Type ℓ} → List A → Bool
is_empty_list [] = true
is_empty_list (x ∷ xs) = false

module _ {Message Record Query Edns : Type 0} (ops : MessageOps Message Record)
    (requests : RequestOps Message Query Edns) (query_ops : QueryOps Query)
    (edns_ops : EdnsOps Edns) where
  abbrev pub first_query : Message → Option Query
  first_query m = elim (requests.queries m) [ [] ↦ none | query ∷ rest ↦ some query ]

  abbrev pub reply_edns : Bool → Edns
  reply_edns dnssec =
      edns_ops.set_dnssec_ok dnssec (edns_ops.set_max_payload 1232 edns_ops.new_edns)

  -- The header of a response, before the query and the extensions of the request are added.
  unfoldable pub response_header : Message → ResponseCode → Message
  response_header request code = requests.set_response_code code (
      requests.set_authentic_data false (
        requests.set_checking_disabled (requests.checking_disabled request) (
          requests.set_recursion_available true (
            requests.set_recursion_desired (requests.recursion_desired request) (
              requests.set_op_code (requests.op_code request) (
                requests.set_message_type response_type
                  (requests.set_id (requests.id request) requests.new_message)))))))

  unfoldable pub response : Message → ResponseCode → Message
  response request code =
      let result = response_header request code in
      let asked : Message = elim (first_query request) [
        | none ↦ result
        | some query ↦ requests.add_query query result
      ] in
      elim (requests.extensions request) [
        | none ↦ asked
        | some edns ↦ requests.set_edns (reply_edns (edns_ops.dnssec_ok edns)) asked
      ]

  -- The checks on the extensions of a request.
  unfoldable pub edns_validation : Option Edns → Result ResponseCode (Unit {0})
  edns_validation none = ok tt
  edns_validation (some edns) =
      if not (edns_ops.version edns == 0)
      then err bad_version
      else if edns_ops.has_options edns || not (edns_ops.z_flags edns == 0)
      then err refused
      else ok tt

  -- The checks on the queries of a request: exactly one.
  unfoldable pub query_validation : List Query → Message → Result ResponseCode (Unit {0})
  query_validation [] request = err form_err
  query_validation (query ∷ _ ∷ _) request = err form_err
  query_validation (query ∷ []) request =
      if not (query_ops.is_internet query)
        || not (is_empty_list (ops.answers request))
        || not (is_empty_list (ops.name_servers request))
        || not (is_empty_list (ops.additionals request))
        || requests.has_signature request
      then err form_err
      else if is_refused_type (query_ops.record_type query)
      then err refused
      else edns_validation (requests.extensions request)

  unfoldable pub validation : Message → Result ResponseCode (Unit {0})
  validation request =
      if not (is_query (requests.message_type request))
        || ops.truncated request
        || requests.authoritative request
        || requests.recursion_available request
        || not (is_no_error (ops.response_code request))
      then err form_err
      else if not (is_op_query (requests.op_code request))
      then err not_imp
      else query_validation (requests.queries request) request

  abbrev pub plain_edns : Option Edns → Bool
  plain_edns none = true
  plain_edns (some edns) = not (edns_ops.dnssec_ok edns) && not (edns_ops.has_options edns)

  unfoldable pub cacheable : Message → Bool
  cacheable request =
      not (requests.checking_disabled request)
      && not (requests.authentic_data request)
      && plain_edns (requests.extensions request)

  -- `max_payload().clamp(512, 1232)`, or 512.
  abbrev pub payload_limit : Option Edns → ℕ
  payload_limit none = 512
  payload_limit (some edns) = min (max (edns_ops.max_payload edns) 512) 1232

  abbrev pub change_edns : (Edns → Edns) → Message → Message
  change_edns change m = elim (requests.extensions m) [
    | none ↦ m
    | some edns ↦ requests.set_edns (change edns) m
  ]

  -- The reply without its records, marked as truncated.
  unfoldable pub truncated_reply : Message → Message
  truncated_reply reply =
      change_edns (λ edns. reply_edns (edns_ops.dnssec_ok edns))
        (requests.set_authentic_data false
          (requests.set_truncated true (requests.take_records reply)))

  abbrev pub within : ℕ → List ℕ → Option (List ℕ)
  within limit bytes = if leb (length bytes) limit then some bytes else none

  abbrev pub size_limit : Bool → Message → ℕ
  size_limit tcp request = if tcp then 65535 else payload_limit (requests.extensions request)

  unfoldable pub encode : Message → Message → Bool → Option (List ℕ)
  encode reply request tcp =
      let sized = change_edns (edns_ops.set_max_payload 1232) reply in
      elim (ops.to_vec sized) [
        | none ↦ none
        | some bytes ↦
            if leb (length bytes) (size_limit tcp request)
            then some bytes
            else if tcp
            then ops.to_vec (response request serv_fail)
            else elim (ops.to_vec (truncated_reply sized)) [
              | none ↦ none
              | some short ↦ within (size_limit tcp request) short
            ]
      ]
