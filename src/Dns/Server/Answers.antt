-- ===== src/Dns/Server/Answers.antt =====
-- companion/src/dns/server.rs, `State::handle`: the size of its answers, and what it does to the log
-- and the cache.
use not_another_ad_blocker.Prelude.{
  ℕ, ◌+◌, ◌≤◌, ◌≡◌, refl, sym, ◌∙◌, ap, min, Bool, false, ◌&&◌, List, [], ◌∷◌, Option, none, some,
  arith, length, Bool-cases, Option-cases, Result-cases, inl, inr, ◌⊎◌,
}
use not_another_ad_blocker.Text.{Str}
use not_another_ad_blocker.Dns.Blocklist.Policy.{DnsPolicy}
use not_another_ad_blocker.Dns.Blocklist.Decide.{Decision, decide}
use not_another_ad_blocker.Dns.Diagnostics.{Activity, record_activity, saturating_suc, u64_max}
use not_another_ad_blocker.Dns.Diagnostics.{new as new_diagnostics}
use not_another_ad_blocker.Dns.Message.{MessageOps, EdnsOps, QueryOps, RequestOps}
use not_another_ad_blocker.Dns.Cache.{new, lookup, Call, lookup_call, insert_call, call, run}
use not_another_ad_blocker.Dns.Cache.Bounds.{IsWellFormed, run-IsWellFormed, run-IsWellFormed_from}
use not_another_ad_blocker.Dns.Server.{validation, cacheable, encode, first_query}
use not_another_ad_blocker.Dns.Server.Handle.{
  State, Reply, Clock, Arrival, hostname_of, cache_key, log, forwarded, answered, decided_reply,
  handle, keeps_plain,
}

module _ {Message Record Query Edns : Type 0} (ops : MessageOps Message Record)
    (requests : RequestOps Message Query Edns) (query_ops : QueryOps Query)
    (edns_ops : EdnsOps Edns) where
  encode-bounded :
      (reply request : Message) (out : List ℕ)
      → encode ops requests query_ops edns_ops reply request false ≡ some out
      → length out ≤ 1232
  unfolding encode
  encode-bounded reply request out h = elim (Option-cases (requests.extensions request)) [
    | inl e ↦ ground arith
    | inr (edns, e) ↦ ground arith
  ]

  module _ (decode : List ℕ → Option Message) (forward : Message → Bool → Option Message)
      (to_ascii : Str → Option Str) (policy : DnsPolicy) where
    abbrev handled : List ℕ → Bool → Clock → State → Reply
    handled = handle ops requests query_ops edns_ops decode forward to_ascii policy

    -- One entry of the log, and calls of the cache, are all that a step does to the state; its
    -- answer is none, or made by the encoder.
    record IsStep (tcp : Bool) (before : State) (reply : Reply) : Type 0 where
      logged : (a : Activity) × (reply.state.diagnostics ≡ record_activity a before.diagnostics)
      cached : (calls : List (Call ops)) × (reply.state.cache ≡ run ops calls before.cache)
      encoded :
          (reply.bytes ≡ none)
          ⊎ ((m request : Message) × (reply.bytes
                ≡ encode ops requests query_ops edns_ops m request tcp))

    forwarded-IsStep :
        (key : Str) (decision : Decision) (request : Message) (tcp : Bool) (clock : Clock)
        (s : State)
        → IsStep tcp s (
            forwarded ops requests query_ops edns_ops decode forward to_ascii policy key decision
              request tcp clock s)
    unfolding forwarded log run call
    forwarded-IsStep key decision request tcp clock s = elim (Option-cases (forward request tcp)) [
      | inl e ↦
          rw (forwarded, e)
            (record { logged = (_, refl); cached = ([], refl); encoded = inr (_, _, refl) })
      | inr (reply, e) ↦
          elim (Bool-cases (
            cacheable ops requests query_ops edns_ops request
            && keeps_plain ops requests query_ops edns_ops reply)) [
              | inl kept ↦
                  rw (forwarded, e, kept)
                    (record {
                      logged = (_, refl);
                      cached = (insert_call key reply clock.insert_time ∷ [], refl);
                      encoded = inr (_, _, refl);
                    })
              | inr other ↦
                  rw (forwarded, e, other)
                    (record { logged = (_, refl); cached = ([], refl); encoded = inr (_, _, refl) })
            ]
    ]

    answered-IsStep :
        (query : Query) (decision : Decision) (request : Message) (tcp : Bool) (clock : Clock)
        (s : State)
        → IsStep tcp s (
            answered ops requests query_ops edns_ops decode forward to_ascii policy query decision
              request tcp clock s)
    unfolding answered log run call
    answered-IsStep query decision request tcp clock s =
        elim (Bool-cases (cacheable ops requests query_ops edns_ops request)) [
          | inr other ↦
              rw (answered, other, other)
                (forwarded-IsStep (cache_key ops requests query_ops edns_ops query request) decision
                  request tcp clock s)
          | inl looked ↦
              let key = cache_key ops requests query_ops edns_ops query request in
              elim (Option-cases (lookup ops key clock.lookup_time s.cache).0) [
                | inr (reply, e) ↦
                    rw (answered, looked, e, looked)
                      (record {
                        logged = (_, refl);
                        cached = (lookup_call key clock.lookup_time ∷ [], refl);
                        encoded = inr (_, _, refl);
                      })
                | inl e ↦
                    let after : State = record s {
                      cache = (lookup ops key clock.lookup_time s.cache).1;
                    } in
                    let step = forwarded-IsStep key decision request tcp clock after in
                    let (calls, done) = step.cached in
                    rw (answered, looked, e, looked)
                      (record {
                        logged = step.logged;
                        cached = (lookup_call key clock.lookup_time ∷ calls, done);
                        encoded = step.encoded;
                      })
              ]
        ]

    decided_reply-IsStep :
        (query : Query) (request : Message) (tcp : Bool) (clock : Clock) (s : State)
        → IsStep tcp s (
            decided_reply ops requests query_ops edns_ops decode forward to_ascii policy query
              request tcp clock s)
    unfolding decided_reply log run decide
    decided_reply-IsStep query request tcp clock s =
        let decision =
          decide to_ascii policy (hostname_of ops requests query_ops edns_ops request) in
        elim (Bool-cases decision.blocked) [
          | inl e ↦
              rw (decided_reply, e)
                (record { logged = (_, refl); cached = ([], refl); encoded = inr (_, _, refl) })
          | inr e ↦ rw (decided_reply, e) (answered-IsStep query decision request tcp clock s)
        ]

    handle-IsStep :
        (bytes : List ℕ) (tcp : Bool) (clock : Clock) (s : State)
        → IsStep tcp s (handled bytes tcp clock s)
    unfolding handle log run
    handle-IsStep bytes tcp clock s = elim (Option-cases (decode bytes)) [
      | inl e ↦
          rw (handle, e) (record { logged = (_, refl); cached = ([], refl); encoded = inl refl })
      | inr (request, e) ↦
          elim (Result-cases (validation ops requests query_ops edns_ops request)) [
            | inr (code, e') ↦
                rw (handle, e, e')
                  (record { logged = (_, refl); cached = ([], refl); encoded = inr (_, _, refl) })
            | inl (valid, e') ↦
                elim (Option-cases (first_query ops requests query_ops edns_ops request)) [
                  | inl e'' ↦
                      rw (handle, e, e', e'')
                        (record {
                          logged = (_, refl);
                          cached = ([], refl);
                          encoded = inr (_, _, refl);
                        })
                  | inr (query, e'') ↦
                      rw (handle, e, e', e'') (decided_reply-IsStep query request tcp clock s)
                ]
          ]
    ]

    -- An answer over UDP has at most 1232 bytes, whatever the request, the cache and the upstreams.
    pub handle-bounded :
        (bytes : List ℕ) (clock : Clock) (s : State) (out : List ℕ)
        → (handled bytes false clock s).bytes ≡ some out
        → length out ≤ 1232
    handle-bounded bytes clock s out h = elim (handle-IsStep bytes false clock s).encoded [
      | inl none_given ↦ absurd (ground (arith, none_given))
      | inr (m, request, e) ↦ encode-bounded m request out (sym e ∙ h)
    ]

    unfoldable pub handle_all : List Arrival → State → State
    handle_all [] s = s
    handle_all (a ∷ arrivals) s = handle_all arrivals (handled a.bytes a.tcp a.clock s).state

    -- The answers to the requests, in their order.
    unfoldable pub answers : List Arrival → State → List (Option (List ℕ))
    answers [] s = []
    answers (a ∷ arrivals) s =
        let reply = handled a.bytes a.tcp a.clock s in reply.bytes ∷ answers arrivals reply.state

    handle_all-IsWellFormed_from :
        (arrivals : List Arrival) (s : State) (n : ℕ)
        → IsWellFormed s.cache
        → s.diagnostics.state.total ≡ min n u64_max
        → IsWellFormed (handle_all arrivals s).cache
          × ((handle_all arrivals s).diagnostics.state.total ≡ min (n + length arrivals) u64_max)
    unfolding handle_all record_activity saturating_suc
    handle_all-IsWellFormed_from [] s n w total = (w, omega arith)
    handle_all-IsWellFormed_from (a ∷ arrivals) s n w total =
        let step = handle-IsStep a.bytes a.tcp a.clock s in
        let (calls, cached) = step.cached in
        let (activity, logged) = step.logged in
        let (well, counted) =
          handle_all-IsWellFormed_from arrivals (handled a.bytes a.tcp a.clock s).state (n + 1)
            (rw cached (run-IsWellFormed_from ops calls s.cache w))
            (ap (λ d. d.state.total) logged ∙ omega arith) in
        (well, counted ∙ omega arith)

    abbrev pub fresh_state : ℕ → ℕ → State
    fresh_state activity_capacity cache_capacity = record {
      diagnostics = new_diagnostics activity_capacity;
      cache = new cache_capacity;
    }

    -- After any requests to a new server, whatever they are and whatever the upstreams answer, the
    -- cache is well formed and so within its capacity, and the log has counted each request once,
    -- up to the largest 64-bit number.
    pub handle_all-IsWellFormed :
        (arrivals : List Arrival) (activity_capacity cache_capacity : ℕ)
        → IsWellFormed (handle_all arrivals (fresh_state activity_capacity cache_capacity)).cache
          × ((handle_all arrivals
                (fresh_state activity_capacity cache_capacity)).diagnostics.state.total
              ≡ min (length arrivals) u64_max)
    unfolding new_diagnostics run
    handle_all-IsWellFormed arrivals activity_capacity cache_capacity =
        let (well, counted) =
          handle_all-IsWellFormed_from arrivals (fresh_state activity_capacity cache_capacity) 0
            (run-IsWellFormed ops cache_capacity []) (omega arith) in
        (well, counted ∙ omega arith)
