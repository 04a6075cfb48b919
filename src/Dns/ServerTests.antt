-- ===== src/Dns/ServerTests.antt =====
-- companion/src/dns/cache.rs and server.rs: the theorems at concrete inputs, with a small format of
-- messages in place of the crate's.
use not_another_ad_blocker.Prelude.{
  ℕ, ◌≤◌, ◌<◌, ◌≡◌, min, map, refl, if◌then◌else◌, ◌↔◌, Bool, true, false, List, [], ◌∷◌, Option,
  none, some, length, ok,
}
use mathlib.Core.Option
use not_another_ad_blocker.Text.{Str, codes, to_ascii_lowercase, bytes}
use not_another_ad_blocker.Text.Ordered.{remove}
use not_another_ad_blocker.Dns.Blocklist.Policy.{DnsPolicy}
use not_another_ad_blocker.Dns.Blocklist.Compile.{start}
use not_another_ad_blocker.Dns.Diagnostics.{u64_max}
use not_another_ad_blocker.Dns.Message.{
  ResponseCode, no_error, MessageOps, query_type, op_query, other_type, EdnsOps, QueryOps,
  RequestOps,
}
use not_another_ad_blocker.Dns.Cache.{
  Entry, new, retain_others, min_of, evict, place, forget, aged, aged_message, lookup, soa_ttls,
  soa_ttl, negative_ttl, message_ttl, capped, entry_for, insert, Call, insert_call, call, run,
  age_of,
}
use not_another_ad_blocker.Dns.Cache.Bounds.{IsWellFormed, run-IsWellFormed}
use not_another_ad_blocker.Dns.Cache.Hits.{IsInserted, lookup-hit}
use not_another_ad_blocker.Dns.Server.{
  response, response_header, validation, query_validation, edns_validation, cacheable, encode,
  truncated_reply,
}
use not_another_ad_blocker.Dns.Server.Handle.{
  State, Clock, Arrival, hostname_of, type_of, cache_key, log, forwarded, answered, readdressed,
  decided_reply, handle,
}
use not_another_ad_blocker.Dns.Server.Answers.{
  handle-bounded, handle_all, answers, fresh_state, handle_all-IsWellFormed,
}
use not_another_ad_blocker.Dns.Server.Blocked.{blocks_name, AgreeUnblocked, answers-AgreeUnblocked}
use not_another_ad_blocker.Dns.Resolver.{
  Exchange, answered as answered_by, timed_out, forward_from, forward, IsFirstAnswer, forward_lem,
}
use not_another_ad_blocker.Dns.Tests.{program, as_given}

server : Unit {0}
unfolding program new remove retain_others min_of evict place forget aged aged_message lookup
    soa_ttls soa_ttl negative_ttl message_ttl capped entry_for insert call run response
    response_header validation query_validation edns_validation cacheable encode truncated_reply
    hostname_of type_of cache_key log forwarded answered readdressed decided_reply handle
server = tt

-- A message with a number, a response code, the names asked for and the times of its answers.
record Packet : Type 0 where
  id : ℕ
  code : ResponseCode
  names : List Str
  answers : List ℕ

abbrev packet_ops : MessageOps Packet ℕ
packet_ops = record {
  truncated = λ m. false;
  response_code = λ m. m.code;
  answers = λ m. m.answers;
  name_servers = λ m. [];
  additionals = λ m. [];
  map_answers = λ f m. record m { answers = map f m.answers };
  map_name_servers = λ f m. m;
  map_additionals = λ f m. m;
  ttl = λ r. r;
  set_ttl = λ ttl r. ttl;
  soa_minimum = λ r. none;
  to_vec = λ m. some (m.id ∷ m.answers);
  from_vec = λ bytes. elim bytes [
    | [] ↦ none
    | id ∷ answers ↦ some (record { id = id; code = no_error; names = []; answers = answers })
  ];
}

abbrev packet_requests : RequestOps Packet Str ℕ
packet_requests = record {
  new_message = record { id = 0; code = no_error; names = []; answers = [] };
  id = λ m. m.id;
  set_id = λ id m. record m { id = id };
  message_type = λ m. query_type;
  set_message_type = λ t m. m;
  op_code = λ m. op_query;
  set_op_code = λ c m. m;
  recursion_desired = λ m. true;
  set_recursion_desired = λ b m. m;
  recursion_available = λ m. false;
  set_recursion_available = λ b m. m;
  checking_disabled = λ m. false;
  set_checking_disabled = λ b m. m;
  authentic_data = λ m. false;
  set_authentic_data = λ b m. m;
  authoritative = λ m. false;
  set_truncated = λ b m. m;
  set_response_code = λ code m. record m { code = code };
  queries = λ m. m.names;
  add_query = λ name m. record m { names = name ∷ m.names };
  clear_queries = λ m. record m { names = [] };
  extensions = λ m. none;
  set_edns = λ e m. m;
  has_signature = λ m. false;
  take_records = λ m. record m { answers = [] };
}

abbrev name_ops : QueryOps Str
name_ops = record {
  is_internet = λ name. true;
  record_type = λ name. other_type 1;
  name_text = λ name. name;
  lower_name = to_ascii_lowercase;
  type_text = λ name. codes "A";
  type_debug = λ name. codes "A";
}

abbrev payload_ops : EdnsOps ℕ
payload_ops = record {
  new_edns = 0;
  max_payload = λ e. e;
  set_max_payload = λ n e. n;
  dnssec_ok = λ e. false;
  set_dnssec_ok = λ b e. e;
  version = λ e. 0;
  has_options = λ e. false;
  z_flags = λ e. 0;
}

abbrev reply_packet : Packet
reply_packet = record { id = 7; code = no_error; names = []; answers = 300 ∷ 60 ∷ [] }

abbrev calls : List (Call packet_ops)
calls = insert_call (codes "a") reply_packet 5 ∷ insert_call (codes "b") reply_packet 6 ∷ []

-- Ten seconds later.
abbrev later : ℕ
later = 10000000006

abbrev aged_packet : Packet
aged_packet = record { id = 7; code = no_error; names = []; answers = 290 ∷ 50 ∷ [] }

found_b : (lookup packet_ops (codes "b") later (run packet_ops calls (new 1))).0 ≡ some aged_packet
unfolding server
found_b = refl

evicted_a : (lookup packet_ops (codes "a") later (run packet_ops calls (new 1))).0 ≡ none
unfolding server
evicted_a = refl

run-IsWellFormed_example : IsWellFormed (run packet_ops calls (new 1))
run-IsWellFormed_example = run-IsWellFormed packet_ops 1 calls

lookup-hit_example :
    (entry : Entry) × IsInserted packet_ops calls (codes "b") entry
    × (age_of entry later < entry.ttl)
    × (entry.ttl ≤ 3600)
    × (length entry.bytes ≤ 16384)
    × (Option.map (aged_message packet_ops (age_of entry later)) (packet_ops.from_vec entry.bytes)
        ≡ some aged_packet)
lookup-hit_example = lookup-hit packet_ops 1 calls (codes "b") later aged_packet found_b

abbrev blocked_name : Str
blocked_name = codes "ads.example.com"

abbrev block_policy : DnsPolicy
block_policy =
    start [] ((blocked_name, record { source = codes "user block"; rule = blocked_name }) ∷ [])

abbrev question : Packet
question = record { id = 9; code = no_error; names = blocked_name ∷ []; answers = [] }

-- A decoder of one message.
abbrev decode_question : List ℕ → Option Packet
decode_question bytes = some question

-- A decoder of two messages: one for the blocked name, and one for another name.
abbrev decode_either : List ℕ → Option Packet
decode_either [] = some question
decode_either (b ∷ bs) = some (record question { names = codes "example.com" ∷ [] })

abbrev upstream : Packet → Bool → Option Packet
upstream request tcp = some reply_packet

abbrev no_upstream : Packet → Bool → Option Packet
no_upstream request tcp = none

abbrev clock : Clock
clock = record { now_ms = 1; lookup_time = 2; insert_time = 3 }

abbrev state : State
state =
    fresh_state packet_ops packet_requests name_ops payload_ops decode_question upstream as_given
      block_policy 10 10

question-answered :
    (handle packet_ops packet_requests name_ops payload_ops decode_question upstream as_given
      block_policy [] false clock state).bytes
    ≡ some (9 ∷ [])
unfolding server
question-answered = refl

handle-bounded_example : length {A = ℕ} (9 ∷ []) ≤ 1232
handle-bounded_example =
    handle-bounded packet_ops packet_requests name_ops payload_ops decode_question upstream as_given
      block_policy [] clock state (9 ∷ []) question-answered

abbrev arrivals : List Arrival
arrivals = record { bytes = []; tcp = false; clock = clock } ∷ []

-- A resolver that has an answer for the blocked name only.
abbrev spiteful : Packet → Bool → Option Packet
spiteful m tcp =
    if blocks_name packet_ops packet_requests name_ops payload_ops decode_either as_given
      block_policy m
    then some reply_packet
    else none

no_upstream-AgreeUnblocked :
    AgreeUnblocked packet_ops packet_requests name_ops payload_ops decode_either as_given
      block_policy no_upstream spiteful
no_upstream-AgreeUnblocked m tcp free = rw free refl

abbrev both_names : List Arrival
both_names =
    record { bytes = []; tcp = false; clock = clock }
    ∷ record { bytes = 1 ∷ []; tcp = true; clock = clock }
    ∷ []

answers-AgreeUnblocked_example :
    (answers packet_ops packet_requests name_ops payload_ops decode_either no_upstream as_given
        block_policy both_names state
      ≡ answers packet_ops packet_requests name_ops payload_ops decode_either spiteful as_given
          block_policy both_names state)
    × (handle_all packet_ops packet_requests name_ops payload_ops decode_either no_upstream as_given
          block_policy both_names state
        ≡ handle_all packet_ops packet_requests name_ops payload_ops decode_either spiteful as_given
            block_policy both_names state)
answers-AgreeUnblocked_example =
    answers-AgreeUnblocked packet_ops packet_requests name_ops payload_ops decode_either as_given
      block_policy no_upstream spiteful no_upstream-AgreeUnblocked both_names state

handle_all-IsWellFormed_example :
    IsWellFormed
      (handle_all packet_ops packet_requests name_ops payload_ops decode_question upstream as_given
        block_policy arrivals state).cache
    × ((handle_all packet_ops packet_requests name_ops payload_ops decode_question upstream as_given
          block_policy arrivals state).diagnostics.state.total
        ≡ min (length arrivals) u64_max)
handle_all-IsWellFormed_example =
    handle_all-IsWellFormed packet_ops packet_requests name_ops payload_ops decode_question upstream
      as_given block_policy arrivals 10 10

-- The first of two upstreams times out.
abbrev second_answers : Bool → Packet → Bool → Exchange Packet
second_answers true query tcp = timed_out
second_answers false query tcp = answered_by reply_packet

forward_lem_example :
    (forward packet_ops packet_requests second_answers question (true ∷ false ∷ []) false
      ≡ ok (record { id = 9; code = no_error; names = []; answers = 300 ∷ 60 ∷ [] }))
    ↔ ((m : Packet) × IsFirstAnswer packet_ops packet_requests second_answers question false
          (true ∷ false ∷ [])
          m
        × (record m { id = 9 }
            ≡ record { id = 9; code = no_error; names = []; answers = 300 ∷ 60 ∷ [] }))
forward_lem_example =
    forward_lem packet_ops packet_requests second_answers question
      (record { id = 9; code = no_error; names = []; answers = 300 ∷ 60 ∷ [] }) (true ∷ false ∷ [])
      false

forwarded_run :
    forward packet_ops packet_requests second_answers question (true ∷ false ∷ []) false
    ≡ ok (record { id = 9; code = no_error; names = []; answers = 300 ∷ 60 ∷ [] })
unfolding forward forward_from
forwarded_run = refl
