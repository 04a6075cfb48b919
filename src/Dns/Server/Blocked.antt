-- ===== src/Dns/Server/Blocked.antt =====
-- companion/src/dns/server.rs, `State::handle`: the upstreams have no say on the names that the policy
-- blocks.
use not_another_ad_blocker.Prelude.{
  ℕ, ◌≡◌, refl, ap, Bool, false, List, [], ◌∷◌, Option, Bool-cases, Option-cases, Result-cases, inl,
  inr,
}
use not_another_ad_blocker.Text.{Str}
use not_another_ad_blocker.Dns.Blocklist.Policy.{DnsPolicy}
use not_another_ad_blocker.Dns.Blocklist.Decide.{Decision, decide}
use not_another_ad_blocker.Dns.Message.{MessageOps, EdnsOps, QueryOps, RequestOps}
use not_another_ad_blocker.Dns.Cache.{lookup}
use not_another_ad_blocker.Dns.Server.{validation, cacheable, first_query}
use not_another_ad_blocker.Dns.Server.Handle.{
  State, Clock, Arrival, hostname_of, cache_key, forwarded, answered, decided_reply, handle,
}
use not_another_ad_blocker.Dns.Server.Answers.{handle_all, answers}

module _ {Message Record Query Edns : Type 0} (ops : MessageOps Message Record)
    (requests : RequestOps Message Query Edns) (query_ops : QueryOps Query)
    (edns_ops : EdnsOps Edns) (decode : List ℕ → Option Message) (to_ascii : Str → Option Str)
    (policy : DnsPolicy) where
  -- The policy blocks the name that a message asks for.
  abbrev pub blocks_name : Message → Bool
  blocks_name m = (decide to_ascii policy (hostname_of ops requests query_ops edns_ops m)).blocked

  -- Two resolvers that give the same answers for the names that are not blocked.
  abbrev pub AgreeUnblocked :
      (Message → Bool → Option Message) → (Message → Bool → Option Message) → Type 0
  AgreeUnblocked forward other =
      (m : Message) (tcp : Bool) → blocks_name m ≡ false → forward m tcp ≡ other m tcp

  module _ (forward other : Message → Bool → Option Message)
      (agree : AgreeUnblocked forward other) where
    forwarded-AgreeUnblocked :
        (key : Str) (decision : Decision) (request : Message) (tcp : Bool) (clock : Clock)
        (s : State)
        → blocks_name request ≡ false
        → forwarded ops requests query_ops edns_ops decode forward to_ascii policy key decision
            request tcp clock s
          ≡ forwarded ops requests query_ops edns_ops decode other to_ascii policy key decision
              request tcp clock s
    unfolding forwarded
    forwarded-AgreeUnblocked key decision request tcp clock s free =
        rw (forwarded, agree request tcp free) refl

    answered-AgreeUnblocked :
        (query : Query) (decision : Decision) (request : Message) (tcp : Bool) (clock : Clock)
        (s : State)
        → blocks_name request ≡ false
        → answered ops requests query_ops edns_ops decode forward to_ascii policy query decision
            request tcp clock s
          ≡ answered ops requests query_ops edns_ops decode other to_ascii policy query decision
              request tcp clock s
    unfolding answered
    answered-AgreeUnblocked query decision request tcp clock s free =
        let key = cache_key ops requests query_ops edns_ops query request in
        elim (Bool-cases (cacheable ops requests query_ops edns_ops request)) [
          | inr e ↦
              rw (answered, e) (forwarded-AgreeUnblocked key decision request tcp clock _ free)
          | inl e ↦ elim (Option-cases (lookup ops key clock.lookup_time s.cache).0) [
            | inr (reply, e') ↦ rw (answered, e, e') refl
            | inl e' ↦
                rw (answered, e, e')
                  (forwarded-AgreeUnblocked key decision request tcp clock _ free)
          ]
        ]

    decided_reply-AgreeUnblocked :
        (query : Query) (request : Message) (tcp : Bool) (clock : Clock) (s : State)
        → decided_reply ops requests query_ops edns_ops decode forward to_ascii policy query request
            tcp clock s
          ≡ decided_reply ops requests query_ops edns_ops decode other to_ascii policy query request
              tcp clock s
    unfolding decided_reply
    decided_reply-AgreeUnblocked query request tcp clock s =
        elim (Bool-cases (blocks_name request)) [
          | inl e ↦ rw (decided_reply, e) refl
          | inr e ↦ rw (decided_reply, e) (answered-AgreeUnblocked query _ request tcp clock s e)
        ]

    handle-AgreeUnblocked :
        (bytes : List ℕ) (tcp : Bool) (clock : Clock) (s : State)
        → handle ops requests query_ops edns_ops decode forward to_ascii policy bytes tcp clock s
          ≡ handle ops requests query_ops edns_ops decode other to_ascii policy bytes tcp clock s
    unfolding handle
    handle-AgreeUnblocked bytes tcp clock s = elim (Option-cases (decode bytes)) [
      | inl e ↦ rw (handle, e) refl
      | inr (request, e) ↦
          elim (Result-cases (validation ops requests query_ops edns_ops request)) [
            | inr (code, e') ↦ rw (handle, e, e') refl
            | inl (valid, e') ↦
                elim (Option-cases (first_query ops requests query_ops edns_ops request)) [
                  | inl e'' ↦ rw (handle, e, e', e'') refl
                  | inr (query, e'') ↦
                      rw (handle, e, e', e'')
                        (decided_reply-AgreeUnblocked query request tcp clock s)
                ]
          ]
    ]

    -- No request of any client lets an upstream have a say on a name that the policy blocks. Where
    -- two resolvers give the same answers for all other names, the answers to any sequence of
    -- requests are the same with either of them, and so are the cache and the log after it.
    pub answers-AgreeUnblocked :
        (arrivals : List Arrival) (s : State)
        → (answers ops requests query_ops edns_ops decode forward to_ascii policy arrivals s
            ≡ answers ops requests query_ops edns_ops decode other to_ascii policy arrivals s)
          × (handle_all ops requests query_ops edns_ops decode forward to_ascii policy arrivals s
              ≡ handle_all ops requests query_ops edns_ops decode other to_ascii policy arrivals s)
    unfolding answers handle_all
    answers-AgreeUnblocked [] s = (refl, refl)
    answers-AgreeUnblocked (a ∷ arrivals) s =
        let step = handle-AgreeUnblocked a.bytes a.tcp a.clock s in
        let reply =
          handle ops requests query_ops edns_ops decode other to_ascii policy a.bytes a.tcp a.clock
            s in
        let (same, left) = answers-AgreeUnblocked arrivals reply.state in
        (rw step (ap (λ rest. reply.bytes ∷ rest) same), rw step left)
