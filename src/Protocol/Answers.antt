-- ===== src/Protocol/Answers.antt =====
-- companion/src/protocol.rs: every message is answered, and the shape of the answers.
use not_another_ad_blocker.Prelude.{
  ℕ, ◌≡◌, refl, subst, true, false, ◌||◌, not, ◌==◌, List, Option, none, some, some_inj, arith, ltb,
  Result, ok, err, inl, inr, ◌⊎◌, Bool-cases, Option-cases,
}
use not_another_ad_blocker.Text.{Str, codes, str_eq, len}
use not_another_ad_blocker.Rules.Compile.{compile}
use not_another_ad_blocker.Rules.Compile.Limits.{compile-total}
use not_another_ad_blocker.Protocol.{
  Request, CompilePayload, ProtocolError, Payload, status, compilation, Response, Parts, valid_id,
  success, answer, keep_valid, handle_compile, dispatch, handle_request, handle_value, handle,
}

module _ {Listed : Type 0} where
  -- A payload or an error, never both.
  abbrev pub IsSuccess : Response Listed → Type 0
  IsSuccess r =
      (r.succeeded ≡ true)
      × ((p : Payload Listed) × (r.payload ≡ some p))
      × (r.error ≡ none)
      × ((id : Str) × (r.id ≡ some id))

  abbrev pub IsFailure : Response Listed → Type 0
  IsFailure r =
      (r.succeeded ≡ false) × (r.payload ≡ none) × ((e : ProtocolError) × (r.error ≡ some e))

  pub record IsAnswer (r : Response Listed) : Type 0 where
    pub versioned : r.version ≡ 1
    pub named : (id : Str) → r.id ≡ some id → valid_id id ≡ true
    pub shaped : IsSuccess r ⊎ IsFailure r

  success-IsAnswer : (id : Str) (p : Payload Listed) → valid_id id ≡ true → IsAnswer (success id p)
  success-IsAnswer id p valid = record {
    versioned = refl;
    named = λ i e. subst (λ x. valid_id x ≡ true) (some_inj e) valid;
    shaped = inl (refl, (p, refl), refl, (id, refl));
  }

  error-IsAnswer :
      (id : Str) (e : ProtocolError) → valid_id id ≡ true → IsAnswer (answer id (err e))
  error-IsAnswer id e valid = record {
    versioned = refl;
    named = λ i e. subst (λ x. valid_id x ≡ true) (some_inj e) valid;
    shaped = inr (refl, refl, (e, refl));
  }

  abbrev failed : Option Str → ProtocolError → Response Listed
  failed id e = record { version = 1; id = id; succeeded = false; payload = none; error = some e }

  nameless-IsAnswer : (e : ProtocolError) → IsAnswer (failed none e)
  nameless-IsAnswer e = record {
    versioned = refl;
    named = λ i bad. absurd (ground arith);
    shaped = inr (refl, refl, (e, refl));
  }

  keep_valid-IsAnswer : (o : Option Str) (e : ProtocolError) → IsAnswer (failed (keep_valid o) e)
  unfolding keep_valid
  keep_valid-IsAnswer none e = nameless-IsAnswer e
  keep_valid-IsAnswer (some id) e = elim (Bool-cases (valid_id id)) [
    | inl valid ↦ rw valid (error-IsAnswer id e valid)
    | inr invalid ↦ rw invalid (nameless-IsAnswer e)
  ]

  -- The answer with the identifier of the request.
  abbrev pub IsAnswerTo : Str → Option (Response Listed) → Type 0
  IsAnswerTo id o = (r : Response Listed) × (o ≡ some r) × IsAnswer r × (r.id ≡ some id)

  answer-IsAnswerTo :
      (id : Str) (result : Result ProtocolError Listed)
      → valid_id id ≡ true
      → IsAnswerTo id (some (answer id result))
  answer-IsAnswerTo id (ok v) valid = (_, refl, success-IsAnswer id _ valid, refl)
  answer-IsAnswerTo id (err e) valid = (_, refl, error-IsAnswer id e valid, refl)

module _ (parts : Parts) where
  handle_compile-IsAnswerTo :
      (id : Str) (payload : CompilePayload)
      → valid_id id ≡ true
      → IsAnswerTo id (handle_compile parts id payload)
  unfolding handle_compile
  handle_compile-IsAnswerTo id payload valid = elim (Bool-cases (ltb 128 (len payload.source))) [
    | inl long ↦ rw long (_, refl, error-IsAnswer id _ valid, refl)
    | inr short ↦ elim (Option-cases (compile payload.text payload.source)) [
      | inl out ↦ absurd ((compile-total payload.text payload.source).0 out)
      | inr (ok result, e) ↦
          rw (handle_compile, short, e)
            (_, refl, success-IsAnswer id (compilation result) valid, refl)
      | inr (err message, e) ↦
          rw (handle_compile, short, e) (_, refl, error-IsAnswer id _ valid, refl)
    ]
  ]

  dispatch-IsAnswerTo :
      (r : Request parts.Raw) → valid_id r.id ≡ true → IsAnswerTo r.id (dispatch parts r)
  unfolding dispatch
  dispatch-IsAnswerTo r valid = elim (Bool-cases (str_eq r.kind (codes "status.get"))) [
    | inl a ↦ elim (Bool-cases (parts.is_empty_payload r.payload)) [
      | inl b ↦ rw (a, b) (_, refl, success-IsAnswer r.id status valid, refl)
      | inr b ↦ rw (a, b) (_, refl, error-IsAnswer r.id _ valid, refl)
    ]
    | inr a ↦ elim (Bool-cases (str_eq r.kind (codes "rules.compile"))) [
      | inl b ↦ elim (Option-cases (parts.to_compile r.payload)) [
        | inl c ↦ rw (dispatch, a, b, c) (_, refl, error-IsAnswer r.id _ valid, refl)
        | inr (payload, c) ↦ rw (dispatch, a, b, c) (handle_compile-IsAnswerTo r.id payload valid)
      ]
      | inr b ↦ elim (Bool-cases (str_eq r.kind (codes "lists.refresh"))) [
        | inl c ↦ elim (Option-cases (parts.to_refresh r.payload)) [
          | inl d ↦ rw (dispatch, a, b, c, d) (_, refl, error-IsAnswer r.id _ valid, refl)
          | inr (payload, d) ↦
              rw (dispatch, a, b, c, d) (answer-IsAnswerTo r.id (parts.refresh payload) valid)
        ]
        | inr c ↦ elim (Bool-cases (str_eq r.kind (codes "lists.page"))) [
          | inl d ↦ elim (Option-cases (parts.to_page r.payload)) [
            | inl e ↦ rw (dispatch, a, b, c, d, e) (_, refl, error-IsAnswer r.id _ valid, refl)
            | inr (payload, e) ↦
                rw (dispatch, a, b, c, d, e) (answer-IsAnswerTo r.id (parts.page payload) valid)
          ]
          | inr d ↦ rw (a, b, c, d) (_, refl, error-IsAnswer r.id _ valid, refl)
        ]
      ]
    ]
  ]

  handle_request-IsAnswerTo :
      (r : Request parts.Raw) → valid_id r.id ≡ true → IsAnswerTo r.id (handle_request parts r)
  unfolding handle_request
  handle_request-IsAnswerTo r valid = elim (Bool-cases (r.version == 1)) [
    | inl e ↦ rw (valid, e) (dispatch-IsAnswerTo r valid)
    | inr e ↦ rw (valid, e) (_, refl, error-IsAnswer r.id _ valid, refl)
  ]

  abbrev pub IsAnswered : Option (Response parts.Listed) → Type 0
  IsAnswered o = (r : Response parts.Listed) × (o ≡ some r) × IsAnswer r

  handle_request-IsAnswered : (r : Request parts.Raw) → IsAnswered (handle_request parts r)
  unfolding handle_request
  handle_request-IsAnswered r = elim (Bool-cases (valid_id r.id)) [
    | inl e ↦ let (a, same, is, to) = handle_request-IsAnswerTo r e in (a, same, is)
    | inr e ↦ rw e (_, refl, nameless-IsAnswer _)
  ]

  handle_value-IsAnswered :
      (bytes : List ℕ) (value : parts.Value) → IsAnswered (handle_value parts bytes value)
  unfolding handle_value
  handle_value-IsAnswered bytes value =
      elim (Bool-cases (not (parts.is_object value) || not (parts.has_payload value))) [
        | inl e ↦ rw e (_, refl, keep_valid-IsAnswer (parts.id_of value) _)
        | inr e ↦ elim (Option-cases (parts.to_request bytes)) [
          | inl e' ↦ rw (handle_value, e, e') (_, refl, keep_valid-IsAnswer (parts.id_of value) _)
          | inr (request, e') ↦ rw (handle_value, e, e') (handle_request-IsAnswered request)
        ]
      ]

  -- Every message is answered, whatever its bytes: in version 1, under an identifier of 1 to 128 bytes if
  -- any, and with either a payload and an identifier or an error.
  pub handle-IsAnswer : (bytes : List ℕ) → IsAnswered (handle parts bytes)
  unfolding handle
  handle-IsAnswer bytes = elim (Option-cases (parts.from_slice bytes)) [
    | inl e ↦ rw (handle, e) (_, refl, nameless-IsAnswer _)
    | inr (value, e) ↦ rw (handle, e) (handle_value-IsAnswered bytes value)
  ]

  -- A message that is a request with an object for its payload and a valid identifier is answered under
  -- that identifier, with a payload or an error.
  pub handle-IsAnswerTo :
      (bytes : List ℕ) (value : parts.Value) (request : Request parts.Raw)
      → parts.from_slice bytes ≡ some value
      → parts.is_object value ≡ true
      → parts.has_payload value ≡ true
      → parts.to_request bytes ≡ some request
      → valid_id request.id ≡ true
      → IsAnswerTo request.id (handle parts bytes)
  unfolding handle handle_value
  handle-IsAnswerTo bytes value request e object payload e' valid =
      rw (handle, e)
        (rw (handle_value, object, payload, e') (handle_request-IsAnswerTo request valid))
