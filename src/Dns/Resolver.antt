-- ===== src/Dns/Resolver.antt =====
-- companion/src/dns/resolver.rs: the check of an upstream's response, and the loop over the
-- upstreams. The decoder and the exchange with one upstream, which may also time out, are
-- parameters; an upstream is whatever the exchange takes.
use not_another_ad_blocker.Prelude.{
  ℕ, ◌≡◌, refl, sym, ap, ◌∙◌, Bool, true, false, ◌||◌, not, ◌==◌, List, [], ◌∷◌, String, Result, ok,
  err, ok_inj, arith, Bool-cases, inl, inr, ◌⊎◌, ◌↔◌, if◌then◌else◌,
}
use not_another_ad_blocker.Dns.Message.{
  ResponseCode, no_error, form_err, serv_fail, nx_domain, not_imp, refused, bad_version, other_code,
  MessageOps, MessageType, query_type, response_type, OpCode, op_query, op_other, RequestOps,
}

-- What an exchange comes to.
pub data Exchange (Message : Type 0) : Type 0 where
  answered : Message → Exchange Message
  failed : String → Exchange Message
  timed_out : Exchange Message

abbrev pub is_response : MessageType → Bool
is_response query_type = false
is_response response_type = true

abbrev pub is_plain_query : OpCode → Bool
is_plain_query op_query = true
is_plain_query (op_other n) = false

-- The codes with which an upstream says that it could not answer.
abbrev pub could_not_answer : ResponseCode → Bool
could_not_answer no_error = false
could_not_answer form_err = false
could_not_answer serv_fail = true
could_not_answer nx_domain = false
could_not_answer not_imp = false
could_not_answer refused = true
could_not_answer bad_version = false
could_not_answer (other_code n) = false

module _ {Message Query Edns : Type 0} (requests : RequestOps Message Query Edns)
    (same_query : Query → Query → Bool) (decode : List ℕ → Result String Message) where
  -- The response has one query, and it is the request's first.
  abbrev pub queries_match : List Query → List Query → Bool
  queries_match (q ∷ []) (asked ∷ rest) = same_query q asked
  queries_match (q ∷ []) [] = false
  queries_match [] asked = false
  queries_match (q ∷ p ∷ rest) asked = false

  unfoldable pub validate : List ℕ → Message → Result String Message
  validate bytes query = elim (decode bytes) [
    | err message ↦ err message
    | ok m ↦
        if not (requests.id m == requests.id query)
          || not (is_response (requests.message_type m))
          || not (is_plain_query (requests.op_code m))
          || not (queries_match (requests.queries m) (requests.queries query))
        then err "Upstream DNS response did not match query"
        else ok m
  ]

module _ {Message Record Query Edns Upstream : Type 0} (ops : MessageOps Message Record)
    (requests : RequestOps Message Query Edns)
    (exchange : Upstream → Message → Bool → Exchange Message) where
  unfoldable pub forward_from : String → Message → List Upstream → Bool → Result String Message
  forward_from last_error query [] tcp = err last_error
  forward_from last_error query (upstream ∷ upstreams) tcp = elim (exchange upstream query tcp) [
    | answered m ↦
        if could_not_answer (ops.response_code m)
        then forward_from "DNS upstream could not answer" query upstreams tcp
        else ok (requests.set_id (requests.id query) m)
    | failed error ↦ forward_from error query upstreams tcp
    | timed_out ↦ forward_from "DNS upstream timed out" query upstreams tcp
  ]

  unfoldable pub forward : Message → List Upstream → Bool → Result String Message
  forward query upstreams tcp = forward_from "No DNS upstream available" query upstreams tcp

  -- An exchange that brought an answer to pass on.
  pub data IsAnswer : Exchange Message → Message → Type 0 where
    usable :
        (m : Message) → could_not_answer (ops.response_code m) ≡ false → IsAnswer (answered m) m

  -- An exchange after which the next upstream is asked.
  pub data IsFailure : Exchange Message → Type 0 where
    unable : (m : Message) → could_not_answer (ops.response_code m) ≡ true → IsFailure (answered m)
    broken : (error : String) → IsFailure (failed error)
    late : IsFailure timed_out

  -- Some upstream answers, and those before it do not.
  pub data IsFirstAnswer (query : Message) (tcp : Bool) : List Upstream → Message → Type 0 where
    first :
        (u : Upstream) (us : List Upstream) (m : Message)
        → IsAnswer (exchange u query tcp) m
        → IsFirstAnswer query tcp (u ∷ us) m
    later :
        (u : Upstream) (us : List Upstream) (m : Message)
        → IsFailure (exchange u query tcp)
        → IsFirstAnswer query tcp us m
        → IsFirstAnswer query tcp (u ∷ us) m

  Exchange-cases : (e : Exchange Message) → ((m : Message) × IsAnswer e m) ⊎ IsFailure e
  Exchange-cases (answered m) = elim (Bool-cases (could_not_answer (ops.response_code m))) [
    | inl e ↦ inr (unable m e)
    | inr e ↦ inl (m, usable m e)
  ]
  Exchange-cases (failed error) = inr (broken error)
  Exchange-cases timed_out = inr late

  forward_from-answer :
      (query : Message) (tcp : Bool) (u : Upstream) (us : List Upstream) (last_error : String)
      (e : Exchange Message) (m : Message)
      → exchange u query tcp ≡ e
      → IsAnswer e m
      → forward_from last_error query (u ∷ us) tcp ≡ ok (requests.set_id (requests.id query) m)
  unfolding forward_from
  forward_from-answer query tcp u us last_error _ _ h (usable m good) = ground arith

  forward_from-failure :
      (query : Message) (tcp : Bool) (u : Upstream) (us : List Upstream) (last_error : String)
      (e : Exchange Message)
      → exchange u query tcp ≡ e
      → IsFailure e
      → (next : String) × (forward_from last_error query (u ∷ us) tcp
          ≡ forward_from next query us tcp)
  unfolding forward_from
  forward_from-failure query tcp u us last_error _ h (unable m bad) =
      ("DNS upstream could not answer", ground arith)
  forward_from-failure query tcp u us last_error _ h (broken error) = (error, ground arith)
  forward_from-failure query tcp u us last_error _ h late = ("DNS upstream timed out", ground arith)

  forward_from_sound :
      (query : Message) (tcp : Bool) (upstreams : List Upstream) (last_error : String) (r : Message)
      → forward_from last_error query upstreams tcp ≡ ok r
      → (m : Message) × IsFirstAnswer query tcp upstreams m
        × (requests.set_id (requests.id query) m ≡ r)
  unfolding forward_from
  forward_from_sound query tcp [] last_error r h = absurd (ground arith)
  forward_from_sound query tcp (u ∷ us) last_error r h =
      elim (Exchange-cases (exchange u query tcp)) [
        | inl (m, answer) ↦
            let step =
              forward_from-answer query tcp u us last_error (exchange u query tcp) m refl answer in
            (m, first u us m answer, ok_inj (sym step ∙ h))
        | inr failure ↦
            let (next, step) =
              forward_from-failure query tcp u us last_error (exchange u query tcp) refl failure in
            let (m, found, same) = forward_from_sound query tcp us next r (sym step ∙ h) in
            (m, later u us m failure found, same)
      ]

  forward_from_complete :
      (query : Message) (tcp : Bool) (upstreams : List Upstream) (last_error : String) (m : Message)
      → IsFirstAnswer query tcp upstreams m
      → forward_from last_error query upstreams tcp ≡ ok (requests.set_id (requests.id query) m)
  forward_from_complete query tcp _ last_error _ (first u us m answer) =
      forward_from-answer query tcp u us last_error (exchange u query tcp) m refl answer
  forward_from_complete query tcp _ last_error _ (later u us m failure rest) =
      let (next, step) =
        forward_from-failure query tcp u us last_error (exchange u query tcp) refl failure in
      step ∙ forward_from_complete query tcp us next m rest

  -- The loop over the upstreams passes on the answer of the first one that answers: it returns a
  -- message exactly if some upstream answers where those before it fail, time out or say that they
  -- could not answer, and then that answer with the number of the query.
  pub forward_lem :
      (query r : Message) (upstreams : List Upstream) (tcp : Bool)
      → (forward query upstreams tcp ≡ ok r) ↔ (
          (m : Message) × IsFirstAnswer query tcp upstreams m
          × (requests.set_id (requests.id query) m ≡ r))
  unfolding forward
  forward_lem query r upstreams tcp = (
    forward_from_sound query tcp upstreams "No DNS upstream available" r,
    λ (m, found, same).
        forward_from_complete query tcp upstreams "No DNS upstream available" m found ∙ ap ok same,
  )
