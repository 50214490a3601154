-- ===== src/Gateway/Outcomes.antt =====
-- mcp_gateway/gateway.py: what a call of the gateway can end in.
use secure_portfolio_copilot.Base.{
  Bool, Bool-cases, List, List-eq, Option, Option-cases, Option-eq, String, String-eq, [], ap,
  arith, contains, false, inl, inr, length, ltb, nat_eq, nat_eq_iff, none, refl, some, subst, suc,
  sym, true, zero, ℕ, ℕ-eq, ◌&&◌, ◌+◌, ◌<◌, ◌∙◌, ◌∷◌, ◌≡◌, ◌≢◌, ◌≤◌, ◌⊎◌,
}
use secure_portfolio_copilot.Gateway.{
  input_schema_rejected, authorization_denied, has_capability, tool_not_shortlisted, unknown_tool,
  tool_value, approved_tool_name, ApprovedToolName, ApprovedToolName-eq, GatewayReasonCode,
  tool_timeout, tool_completed, ToolStatus, ToolStatus-eq, ToolStatus-discrete, Payload,
  tool_payload, calculation_payload, memory_search_payload, memory_proposal_payload,
  StructuredToolObservation, Attempt, returned, output_rejected, not_authorized, timed_out,
  adapter_error, raised, ApprovedToolAdapter,
}
use secure_portfolio_copilot.Policy.{AuthorizationScope}
use secure_portfolio_copilot.Gateway.Execution.{
  settle_failure, Log, Outcome, execute_named, lookup, execute_with, execute, denial, observation,
  settle_attempt, invoke_from, enforce_payload_shape,
}

abbrev pub repeat : {A : Type 0} → ℕ → A → List A
repeat zero x = []
repeat (suc n) x = x ∷ repeat n x

length-repeat : {A : Type 0} (n : ℕ) (x : A) → length (repeat n x) ≡ n
length-repeat zero x = refl
length-repeat (suc n) x = ap suc (length-repeat n x)

module _ {Arguments Evidence Proposal : Type 0} where
  -- A failure that is tried again.
  abbrev pub Transient : Attempt Arguments Evidence Proposal → Type 0
  Transient a = (a ≡ timed_out) ⊎ ((code : GatewayReasonCode) × (a ≡ adapter_error code true))

  abbrev transient_of : Attempt Arguments Evidence Proposal → Bool
  transient_of timed_out = true
  transient_of (adapter_error code transient) = transient
  transient_of _ = false

  Transient-flag :
      (a b : Attempt Arguments Evidence Proposal) → a ≡ b → Transient a → transient_of b ≡ true
  Transient-flag a b e (inl t) = ap transient_of (sym e ∙ t)
  Transient-flag a b e (inr (code, t)) = ap transient_of (sym e ∙ t)

  payload-shape :
      (name : ApprovedToolName) (code : GatewayReasonCode) (retries : ℕ)
      (payload : Payload Arguments Evidence Proposal)
      → enforce_payload_shape
          (observation (some name) ToolStatus.completed code retries (some payload))
        ≡ true
  unfolding enforce_payload_shape ToolStatus-discrete
  payload-shape name code retries (tool_payload []) = refl
  payload-shape name code retries (tool_payload (e ∷ es)) = refl
  payload-shape name code retries (calculation_payload []) = refl
  payload-shape name code retries (calculation_payload (c ∷ cs)) = refl
  payload-shape name code retries (memory_search_payload []) = refl
  payload-shape name code retries (memory_search_payload (m ∷ ms)) = refl
  payload-shape name code retries (memory_proposal_payload p) = refl

  empty-shape :
      (o : StructuredToolObservation Arguments Evidence Proposal)
      → o.evidence ≡ []
      → o.calculations ≡ []
      → o.memories ≡ []
      → o.memory_proposal ≡ none
      → enforce_payload_shape o ≡ true
  unfolding enforce_payload_shape
  empty-shape o e c m p = ground (arith, e, c, m, p)

  -- What the invocations of an adapter have come to, after `first` of them.
  pub record Invoked (adapter : ApprovedToolAdapter Arguments Evidence Proposal)
      (arguments : Arguments) (first limit : ℕ) (r : Outcome Arguments Evidence Proposal)
      : Type 0 where
    pub logged : r.1 ≡ repeat (1 + r.0.retry_count) (adapter.name, arguments)
    pub bounded : r.0.retry_count ≤ limit
    pub shaped : enforce_payload_shape r.0 ≡ true
    pub earned :
        r.0.status ≡ ToolStatus.completed
        → (payload : Payload Arguments Evidence Proposal) × (adapter.attempt r.0.retry_count
              arguments
            ≡ returned payload)
          × (r.0
              ≡ observation r.0.tool_name ToolStatus.completed tool_completed r.0.retry_count
                  (some payload))
    pub retried :
        (k : ℕ) → first ≤ k → k < r.0.retry_count → Transient (adapter.attempt k arguments)
    pub spent : Transient (adapter.attempt r.0.retry_count arguments) → r.0.retry_count ≡ limit

  module _ (adapter : ApprovedToolAdapter Arguments Evidence Proposal) (name : ApprovedToolName)
      (arguments : Arguments) where
    -- The loop ends, in such a way.
    abbrev pub Ends : ℕ → ℕ → Option (Outcome Arguments Evidence Proposal) → Type 0
    Ends first limit result =
        (r : Outcome Arguments Evidence Proposal) × (result ≡ some r)
        × Invoked adapter arguments first limit r

    module _ (first limit : ℕ) (log : Log Arguments) (bound : first ≤ limit)
        (logged : log ≡ repeat (1 + first) (adapter.name, arguments)) where
      empty-Ends :
          (status : ToolStatus) (code : GatewayReasonCode)
          → status ≢ ToolStatus.completed
          → (Transient (adapter.attempt first arguments) → first ≡ limit)
          → Ends first limit (some (observation (some name) status code first none, log))
      empty-Ends status code n spent = (
        (observation (some name) status code first none, log),
        refl,
        record {
          logged = logged;
          bounded = bound;
          shaped = empty-shape (observation (some name) status code first none) refl refl refl refl;
          earned = λ e. absurd (n e);
          retried = λ k a b. absurd (omega (arith, a, b));
          spent = spent;
        },
      )

      settle_failure-Ends :
          (again : Option (Outcome Arguments Evidence Proposal)) (code : GatewayReasonCode)
          (transient : Bool)
          → (Transient (adapter.attempt first arguments) → transient ≡ true)
          → (first < limit → transient ≡ true → Ends first limit again)
          → Ends first limit (settle_failure name limit first again code transient log)
      settle_failure-Ends again code transient flag k =
          elim (Bool-cases (transient && ltb first limit)) [
            | inl e ↦ rw e (k (ground (arith, e)) (ground (arith, e)))
            | inr e ↦ rw e (
                empty-Ends ToolStatus.failed code (λ p. cc)
                  (λ t. let yes = flag t in ground (arith, bound, e, yes)))
          ]

      settle_attempt-Ends :
          (attempt : Attempt Arguments Evidence Proposal)
          (again : Option (Outcome Arguments Evidence Proposal))
          → adapter.attempt first arguments ≡ attempt
          → (first < limit → Transient attempt → Ends first limit again)
          → Ends first limit (settle_attempt name limit first again attempt log)
      unfolding settle_attempt
      settle_attempt-Ends (returned payload) again e k = (
        _,
        refl,
        record {
          logged = logged;
          bounded = bound;
          shaped = payload-shape name tool_completed first payload;
          earned = λ _. (payload, e, refl);
          retried = λ k a b. absurd (omega (arith, a, b));
          spent = λ t. absurd (cc (Transient-flag _ (returned payload) e t));
        },
      )
      settle_attempt-Ends output_rejected again e k =
          empty-Ends ToolStatus.failed _ (λ p. cc)
            (λ t. absurd (cc (Transient-flag _ output_rejected e t)))
      settle_attempt-Ends not_authorized again e k =
          empty-Ends ToolStatus.denied _ (λ p. cc)
            (λ t. absurd (cc (Transient-flag _ not_authorized e t)))
      settle_attempt-Ends timed_out again e k =
          settle_failure-Ends again tool_timeout true (λ t. refl) (λ below _. k below (inl refl))
      settle_attempt-Ends (adapter_error code transient) again e k =
          settle_failure-Ends again code transient
            (Transient-flag _ (adapter_error code transient) e)
            (λ below t. k below (inr (code, ap (adapter_error code) t)))
      settle_attempt-Ends raised again e k =
          empty-Ends ToolStatus.failed _ (λ p. cc) (λ t. absurd (cc (Transient-flag _ raised e t)))

    -- One more transient failure before the invocations of the rest.
    Ends-retry :
        (first limit : ℕ) (result : Option (Outcome Arguments Evidence Proposal))
        → Transient (adapter.attempt first arguments)
        → Ends (first + 1) limit result
        → Ends first limit result
    Ends-retry first limit result t (r, e, i) = (
      r,
      e,
      record {
        logged = i.logged;
        bounded = i.bounded;
        shaped = i.shaped;
        earned = i.earned;
        spent = i.spent;
        retried = λ k a b. elim (Bool-cases (nat_eq k first)) [
          | inl e ↦
              subst (λ n. Transient (adapter.attempt n arguments)) (sym ((nat_eq_iff k first).0 e))
                t
          | inr e ↦ i.retried k (ground arith) b
        ];
      },
    )

    -- Enough fuel: more than there are retries left.
    pub invoke_from-Ends :
        (fuel first limit : ℕ) (log : Log Arguments)
        → log ≡ repeat first (adapter.name, arguments)
        → first ≤ limit
        → limit < first + fuel
        → Ends first limit (invoke_from adapter name arguments limit fuel first log)
    unfolding invoke_from
    invoke_from-Ends zero first limit log logged bound enough =
        absurd (omega (arith, bound, enough))
    invoke_from-Ends (suc fuel) first limit log logged bound enough =
        let long : length log ≡ first =
          ap length logged ∙ length-repeat first (adapter.name, arguments) in
        let here : adapter.attempt first arguments ≡ adapter.attempt (length log) arguments =
          ap (λ n. adapter.attempt n arguments) (sym long) in
        let ahead : suc first ≡ 1 + first = omega arith in
        let behind : 1 + first ≡ first + 1 = omega arith in
        let entry : ApprovedToolName × Arguments = (adapter.name, arguments) in
        let counts = ap (λ n. repeat n entry) ahead in
        let invoked = ap (λ l. (adapter.name, arguments) ∷ l) logged ∙ counts in
        settle_attempt-Ends first limit ((adapter.name, arguments) ∷ log) bound invoked
          (adapter.attempt (length log) arguments) _ here
          (λ below t. Ends-retry first limit _ (subst Transient (sym here) t) (
            invoke_from-Ends fuel (first + 1) limit ((adapter.name, arguments) ∷ log)
              (invoked ∙ ap (λ n. repeat n entry) behind) (omega (arith, below))
              (omega (arith, enough))))

  -- A denial that has invoked nothing.
  pub record Refused (r : Outcome Arguments Evidence Proposal) : Type 0 where
    pub denied : r.0.status ≡ ToolStatus.denied
    pub uninvoked : r.1 ≡ []
    pub unretried : r.0.retry_count ≡ 0
    pub shaped : enforce_payload_shape r.0 ≡ true

  -- An invocation that has passed every guard of the gateway.
  pub record Admitted (adapters : List (ApprovedToolAdapter Arguments Evidence Proposal))
      (limit : ℕ) (tool_name : String) (arguments : Arguments) (scope : AuthorizationScope)
      (permitted_tools : List String) (r : Outcome Arguments Evidence Proposal) : Type 0 where
    pub name : ApprovedToolName
    pub adapter : ApprovedToolAdapter Arguments Evidence Proposal
    pub validated : Arguments
    pub known : approved_tool_name tool_name ≡ some name
    pub shortlisted : contains permitted_tools (tool_value name) ≡ true
    pub found : lookup adapters name ≡ some adapter
    pub capable : has_capability scope adapter.required_capability ≡ true
    pub accepted : adapter.validate_input arguments ≡ some validated
    pub invoked : Invoked adapter validated 0 limit r

  module _ (adapters : List (ApprovedToolAdapter Arguments Evidence Proposal)) (limit : ℕ)
      (tool_name : String) (arguments : Arguments) (scope : AuthorizationScope)
      (permitted_tools : List String) where
    -- A call that returns, refused or admitted.
    abbrev pub Answered : Option (Outcome Arguments Evidence Proposal) → Type 0
    Answered result =
        (r : Outcome Arguments Evidence Proposal) × (result ≡ some r)
        × (Refused r ⊎ Admitted adapters limit tool_name arguments scope permitted_tools r)

    denial-Answered :
        (name : Option ApprovedToolName) (code : GatewayReasonCode) → Answered (denial name code [])
    denial-Answered name code = (
      _,
      refl,
      inl (record {
        denied = refl;
        uninvoked = refl;
        unretried = refl;
        shaped = empty-shape (observation name ToolStatus.denied code 0 none) refl refl refl refl;
      }),
    )

    execute_with-Answered :
        (name : ApprovedToolName)
        → approved_tool_name tool_name ≡ some name
        → contains permitted_tools (tool_value name) ≡ true
        → Answered (execute_with scope arguments limit name [] (lookup adapters name))
    unfolding execute_with
    execute_with-Answered name known shortlisted = elim (Option-cases (lookup adapters name)) [
      | inl e ↦ rw e (denial-Answered (some name) unknown_tool)
      | inr (adapter, e) ↦
          rw e (elim (Bool-cases (has_capability scope adapter.required_capability)) [
            | inr c ↦ rw c (denial-Answered (some name) authorization_denied)
            | inl c ↦ rw c (elim (Option-cases (adapter.validate_input arguments)) [
              | inl v ↦ rw v (denial-Answered (some name) input_schema_rejected)
              | inr (validated, v) ↦ rw v (
                  let (r, done, invoked) =
                    invoke_from-Ends adapter name validated (limit + 1) 0 limit [] refl
                      (omega arith) (omega arith) in
                  (
                    r,
                    done,
                    inr (record {
                      name = name;
                      adapter = adapter;
                      validated = validated;
                      known = known;
                      shortlisted = shortlisted;
                      found = e;
                      capable = c;
                      accepted = v;
                      invoked = invoked;
                    }),
                  ))
            ])
          ])
    ]

    execute_named-Answered :
        (named : Option ApprovedToolName)
        → approved_tool_name tool_name ≡ named
        → Answered (execute_named adapters limit named arguments scope permitted_tools [])
    unfolding execute_named
    execute_named-Answered none e = denial-Answered none unknown_tool
    execute_named-Answered (some name) e =
        elim (Bool-cases (contains permitted_tools (tool_value name))) [
          | inl p ↦ rw p (execute_with-Answered name e p)
          | inr p ↦ rw p (denial-Answered (some name) tool_not_shortlisted)
        ]

    -- A call of the gateway returns. It either is denied and its log of invocations is empty, or
    -- the tool is known and shortlisted, has an adapter whose capability a grant of the scope
    -- holds, and accepts the arguments. The log then has that adapter with the validated arguments
    -- once more than the observation says it was retried, and nothing else. It was retried at most
    -- `limit` times, after transient failures only, and its last invocation ended in such a failure
    -- only if it was retried `limit` times. A completed observation carries the payload that the
    -- last invocation returned. Either way the observation passes its own validator.
    pub execute-Answered :
        Answered (execute adapters limit tool_name arguments scope permitted_tools)
    unfolding execute
    execute-Answered = execute_named-Answered (approved_tool_name tool_name) refl
