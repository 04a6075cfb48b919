-- ===== src/Dns/Server/Handle.antt =====
-- companion/src/dns/server.rs, `State::handle`: one request. The decoder and the upstream resolver
-- are parameters, and the clock's readings are arguments. Requests are handled one after the other.
use mathlib.Core.Option
use not_another_ad_blocker.Prelude.{
  ℕ, ◌+◌, ◌/◌, ◌%◌, Bool, true, false, ◌&&◌, not, List, [], ◌∷◌, ◌++◌, Option, none, some, ltb,
  ◌==◌, if◌then◌else◌, ok, err, zero, suc,
}
use not_another_ad_blocker.Text.{Str, codes, trim_end, to_ascii_lowercase}
use not_another_ad_blocker.Dns.Blocklist.Policy.{DnsPolicy}
use not_another_ad_blocker.Dns.Blocklist.Decide.{Decision, undecided, decide}
use not_another_ad_blocker.Dns.Diagnostics.{Diagnostics, record_activity}
use not_another_ad_blocker.Dns.Message.{
  ResponseCode, no_error, form_err, serv_fail, nx_domain, not_imp, refused, bad_version, other_code,
  MessageOps, EdnsOps, QueryOps, RequestOps,
}
use not_another_ad_blocker.Dns.Cache.{Cache, lookup, insert}
use not_another_ad_blocker.Dns.Server.{response, validation, cacheable, encode, first_query}

pub record State : Type 0 where
  pub diagnostics : Diagnostics
  pub cache : Cache

pub record Reply : Type 0 where
  pub bytes : Option (List ℕ)
  pub state : State

-- The readings of the clocks during one request.
pub record Clock : Type 0 where
  pub now_ms : ℕ
  pub lookup_time : ℕ
  pub insert_time : ℕ

-- A request, and the time that it is handled at.
pub record Arrival : Type 0 where
  pub bytes : List ℕ
  pub tcp : Bool
  pub clock : Clock

abbrev pub rejection_outcome : ResponseCode → Str
rejection_outcome no_error = codes "refused"
rejection_outcome form_err = codes "malformed"
rejection_outcome serv_fail = codes "refused"
rejection_outcome nx_domain = codes "refused"
rejection_outcome not_imp = codes "refused"
rejection_outcome refused = codes "refused"
rejection_outcome bad_version = codes "refused"
rejection_outcome (other_code n) = codes "refused"

-- The decimal digits of a number, as many as the fuel allows; a 16-bit number has five at most.
abbrev pub show_digits : ℕ → ℕ → Str
show_digits zero n = []
show_digits (suc fuel) n =
    let rest = show_digits fuel (n / 10) in
    if ltb n 10 then (48 + n) ∷ [] else rest ++ (48 + n % 10) ∷ []

-- `{:?}` of an optional payload size.
abbrev pub show_payload : Option ℕ → Str
show_payload none = codes "None"
show_payload (some n) = codes "Some(" ++ (show_digits 5 n ++ codes ")")

abbrev pub show_flag : Bool → Str
show_flag true = codes "true"
show_flag false = codes "false"

module _ {Message Record Query Edns : Type 0} (ops : MessageOps Message Record)
    (requests : RequestOps Message Query Edns) (query_ops : QueryOps Query)
    (edns_ops : EdnsOps Edns) where
  unfoldable pub hostname_of : Message → Str
  hostname_of request = elim (first_query ops requests query_ops edns_ops request) [
    | none ↦ []
    | some query ↦ to_ascii_lowercase (trim_end (λ c. c == 46) (query_ops.name_text query))
  ]

  unfoldable pub type_of : Message → Str
  type_of request = elim (first_query ops requests query_ops edns_ops request) [
    | none ↦ []
    | some query ↦ query_ops.type_text query
  ]

  -- `cache::key`, and the size that the client takes.
  unfoldable pub cache_key : Query → Message → Str
  cache_key query request =
      query_ops.lower_name query
      ++ (codes ":"
          ++ (query_ops.type_debug query
              ++ (codes ":"
                  ++ (show_flag (requests.recursion_desired request)
                      ++ (codes ":edns"
                          ++ show_payload
                              (Option.map edns_ops.max_payload (requests.extensions request)))))))

  unfoldable pub log : Str → Str → Str → Decision → ℕ → State → State
  log hostname type_name outcome decision now_ms state = record state {
    diagnostics =
        record_activity
          (record {
            now_ms = now_ms;
            hostname = hostname;
            query_type = type_name;
            outcome = outcome;
            decision = decision;
          })
          state.diagnostics;
  }

  abbrev pub keeps_plain : Message → Bool
  keeps_plain reply =
      elim (requests.extensions reply) [ none ↦ true | some edns ↦ not (edns_ops.has_options edns) ]
      && not (requests.has_signature reply)

  -- A cached reply, for the request at hand.
  unfoldable pub readdressed : Query → Message → Message → Message
  readdressed query request reply =
      requests.add_query query
        (requests.clear_queries (requests.set_id (requests.id request) reply))

  module _ (decode : List ℕ → Option Message) (forward : Message → Bool → Option Message)
      (to_ascii : Str → Option Str) (policy : DnsPolicy) where
    -- The answer of the upstreams, where no cached one was found.
    unfoldable pub forwarded : Str → Decision → Message → Bool → Clock → State → Reply
    forwarded key decision request tcp clock state =
        let hostname = hostname_of request in
        let type_name = type_of request in
        elim (forward request tcp) [
          | none ↦ record {
            bytes =
                encode ops requests query_ops edns_ops
                  (response ops requests query_ops edns_ops request serv_fail) request tcp;
            state = log hostname type_name (codes "upstream-error") decision clock.now_ms state;
          }
          | some reply ↦ record {
            bytes = encode ops requests query_ops edns_ops reply request tcp;
            state = log hostname type_name (codes "forwarded") decision clock.now_ms (
                if cacheable ops requests query_ops edns_ops request && keeps_plain reply
                then record state { cache = insert ops key reply clock.insert_time state.cache }
                else state);
          }
        ]

    abbrev pub cached : Str → Message → Clock → State → Option Message × Cache
    cached key request clock state =
        if cacheable ops requests query_ops edns_ops request
        then lookup ops key clock.lookup_time state.cache
        else (none, state.cache)

    -- A valid request for a name that is not blocked.
    unfoldable pub answered : Query → Decision → Message → Bool → Clock → State → Reply
    answered query decision request tcp clock state =
        let key = cache_key query request in
        let found = cached key request clock state in
        let after : State = record state { cache = found.1 } in
        elim found.0 [
          | some reply ↦ record {
            bytes =
                encode ops requests query_ops edns_ops (readdressed query request reply) request
                  tcp;
            state =
                log (hostname_of request) (type_of request) (codes "cache-hit") decision
                  clock.now_ms after;
          }
          | none ↦ forwarded key decision request tcp clock after
        ]

    -- A valid request.
    unfoldable pub decided_reply : Query → Message → Bool → Clock → State → Reply
    decided_reply query request tcp clock state =
        let decision = decide to_ascii policy (hostname_of request) in
        if decision.blocked
        then record {
          bytes =
              encode ops requests query_ops edns_ops
                (response ops requests query_ops edns_ops request nx_domain) request tcp;
          state =
              log (hostname_of request) (type_of request) (codes "blocked") decision clock.now_ms
                state;
        }
        else answered query decision request tcp clock state

    abbrev pub rejected : ResponseCode → Message → Bool → Clock → State → Reply
    rejected code request tcp clock state = record {
      bytes =
          encode ops requests query_ops edns_ops
            (response ops requests query_ops edns_ops request code) request tcp;
      state =
          log (hostname_of request) (type_of request) (rejection_outcome code) undecided
            clock.now_ms state;
    }

    abbrev pub malformed : Clock → State → Reply
    malformed clock state = record {
      bytes = none;
      state = log [] [] (codes "malformed") undecided clock.now_ms state;
    }

    -- `State::handle`. A validated request has a query, so that the last `none` is not reached.
    unfoldable pub handle : List ℕ → Bool → Clock → State → Reply
    handle bytes tcp clock state = elim (decode bytes) [
      | none ↦ malformed clock state
      | some request ↦ elim (validation ops requests query_ops edns_ops request) [
        | err code ↦ rejected code request tcp clock state
        | ok _ ↦ elim (first_query ops requests query_ops edns_ops request) [
          | none ↦ rejected form_err request tcp clock state
          | some query ↦ decided_reply query request tcp clock state
        ]
      ]
    ]
