-- ===== src/Http/Admission.antt =====
-- transport/httpapi/auth.go: whose requests reach the handler, and what a client makes of a refusal.
use realy.Common.{
  ◌∙◌, eq_iff, ◌≢◌, sym, String, Bool, true, false, not, ◌&&◌, Option, none, some, ◌==◌, ◌≡◌, refl,
  sym, ap, subst, arith, if◌then◌else◌, ◌⊎◌, inl, inr, Bool-cases,
}
use realy.Controlplane.Types.{Error}
use realy.Controlplane.Access.{AccessScope, is_node, is_host}
use realy.Http.Wire.{text_of, Message, Response, Wiring, line_of, limited}
use realy.Http.Handler.{write_message}
use realy.Http.Auth.{
  guarded, is_public, is_node_route, is_mismatch, check_scope, check_token, admit,
}
use realy.Http.Permission.{
  IsPublic, IsPermitted, is_host_iff, is_node_iff, is_node_route_sound, is_node_route_complete,
  is_public_sound, is_public_complete, is_mismatch_complete, chosen-IsPermitted,
}
use realy.Http.Client.{unexpected, received, protocol_error}
use realy.Http.Exchange.{kind_of}

abbrev scope_choice :
    (node_route is_a_node is_a_host foreign : Bool)
    → (a b c : Response) → AccessScope
    → Response ⊎ Option AccessScope
scope_choice node_route is_a_node is_a_host foreign a b c scope =
    if node_route && not is_a_node
    then inl a
    else (if not node_route && not is_a_host
        then inl b
        else (if foreign then inl c else inr (some scope)))

scope_choice-some :
    (r n h x : Bool) (a b c : Response) (scope found : AccessScope)
    → scope_choice r n h x a b c scope ≡ inr (some found)
    → (scope ≡ found) × ((if r then n else h) ≡ true) × (x ≡ false)
scope_choice-some true true h true a b c scope found e = ground (arith, e)
scope_choice-some true true h false a b c scope found e = (ground (arith, e), refl, refl)
scope_choice-some true false h x a b c scope found e = ground (arith, e)
scope_choice-some false n true true a b c scope found e = ground (arith, e)
scope_choice-some false n true false a b c scope found e = (ground (arith, e), refl, refl)
scope_choice-some false n false x a b c scope found e = ground (arith, e)

scope_choice_refusal :
    (r n h x : Bool) (a b c : Response) (scope : AccessScope) (refusal : Response)
    → scope_choice r n h x a b c scope ≡ inl refusal
    → (refusal ≡ a) ⊎ ((refusal ≡ b) ⊎ (refusal ≡ c))
scope_choice_refusal true true h true a b c scope refusal e = inr (inr (ground (arith, e)))
scope_choice_refusal true true h false a b c scope refusal e = ground (arith, e)
scope_choice_refusal true false h x a b c scope refusal e = inl (ground (arith, e))
scope_choice_refusal false n true true a b c scope refusal e = inr (inr (ground (arith, e)))
scope_choice_refusal false n true false a b c scope refusal e = ground (arith, e)
scope_choice_refusal false n false x a b c scope refusal e = inr (inl (ground (arith, e)))

module _ (wiring : Wiring) (part : String → String) where
  check_token-IsPermitted :
      (known : Option AccessScope) (found : AccessScope) (m : Message)
      → check_token wiring part known m ≡ inr (some found)
      → (known ≡ some found) × IsPermitted part found m
  check_token-IsPermitted none found m h = ground (arith, h)
  check_token-IsPermitted (some scope) found m h =
      let (same, kind, own) = scope_choice-some _ _ _ _ _ _ _ scope found h in
      (
        ap some same,
        subst (λ x. IsPermitted part x m) same (chosen-IsPermitted part scope m kind own),
      )

  IsPermitted-check_scope :
      (scope : AccessScope) (m : Message)
      → IsPermitted part scope m
      → check_scope wiring part scope m ≡ inr (some scope)
  IsPermitted-check_scope scope m permitted =
      let own = is_mismatch_complete part scope m.path permitted.own in
      elim (Bool-cases (is_node_route m.method m.path)) [
        | inl e ↦
            let kind =
              (is_node_iff scope.kind).1 (permitted.node (is_node_route_sound m.method m.path e)) in
            rw (e, kind, own) refl
        | inr e ↦
            let kind = (is_host_iff scope.kind).1 (
              permitted.host (λ route.
                let e' = is_node_route_complete m.method m.path route in ground (arith, e, e'))) in
            rw (e, kind, own) refl
      ]

  -- A request that reaches the handler with a scope.
  pub record IsLetIn (auth : String → Option AccessScope) (m : Message) (scope : AccessScope)
      : Type 0 where
    pub bears : m.bearer ≢ ""
    pub known : auth m.bearer ≡ some scope
    pub closed : ¬ IsPublic m.path
    pub permitted : IsPermitted part scope m

  admit_sound :
      (auth : String → Option AccessScope) (m : Message) (scope : AccessScope)
      → admit wiring part (some auth) m ≡ inr (some scope)
      → IsLetIn auth m scope
  unfolding admit
  admit_sound auth m scope h = elim (Bool-cases (is_public m.path)) [
    | inl p ↦ ground (arith, rw p at h)
    | inr p ↦ elim (Bool-cases (m.bearer == "")) [
      | inl b ↦ ground (arith, rw b at (rw p at h))
      | inr b ↦
          let (known, permitted) =
            check_token-IsPermitted (auth m.bearer) scope m (rw b at (rw p at h)) in
          record {
            bears = λ empty. let e = (eq_iff m.bearer "").1 empty in ground (arith, b, e);
            known = known;
            closed =
                λ open_path. let e = is_public_complete m.path open_path in ground (arith, p, e);
            permitted = permitted;
          }
    ]
  ]

  admit_complete :
      (auth : String → Option AccessScope) (m : Message) (scope : AccessScope)
      → IsLetIn auth m scope
      → admit wiring part (some auth) m ≡ inr (some scope)
  unfolding admit
  admit_complete auth m scope l = elim (Bool-cases (is_public m.path)) [
    | inl p ↦ elim (l.closed (is_public_sound m.path p)) [ ]
    | inr p ↦ elim (Bool-cases (m.bearer == "")) [
      | inl b ↦ elim (l.bears ((eq_iff m.bearer "").0 b)) [ ]
      | inr b ↦ rw p (
          rw b (
            ap (λ known. check_token wiring part known m) l.known
            ∙ IsPermitted-check_scope scope m l.permitted))
    ]
  ]

  -- A request reaches the handler with a scope exactly where it bears a token of that scope, its path
  -- is not public, and the scope permits it: a node's the routes of nodes, a host's all others, and a
  -- node's only those paths below /v1/nodes that name its own node, up to a slash in the ID. A
  -- node's scope without a subject may act for every node, and the path that has the word register
  -- in the node's place is open to all of them.
  pub admit-IsPermitted :
      (auth : String → Option AccessScope) (m : Message) (scope : AccessScope)
      → (admit wiring part (some auth) m ≡ inr (some scope) → IsLetIn auth m scope)
        × (IsLetIn auth m scope → admit wiring part (some auth) m ≡ inr (some scope))
  admit-IsPermitted auth m scope = (admit_sound auth m scope, admit_complete auth m scope)

  -- A failure's body with this message is read back to it.
  unfoldable pub IsRead : String → Type 0
  IsRead text =
      wiring.message.decode (limited wiring (line_of (wiring.message.encode text))) ≡ some text

  -- A response that a client reads as an error of no kind.
  IsPlain : Response → Type 0
  IsPlain r =
      (is_claim : Bool) → (f : Error) × (received wiring is_claim r ≡ inl f) × (kind_of f ≡ none)

  forbidden-IsPlain : (text : String) → IsPlain (write_message wiring 403 text)
  unfolding IsPlain protocol_error
  forbidden-IsPlain text is_claim = (_, refl, refl)

  check_scope-IsPlain :
      (scope : AccessScope) (m : Message) (r : Response)
      → check_scope wiring part scope m ≡ inl r
      → IsPlain r
  check_scope-IsPlain scope m r h =
      elim (scope_choice_refusal (is_node_route m.method m.path) (is_node scope.kind)
        (is_host scope.kind) (is_mismatch part scope m.path) _ _ _ scope r h) [
          | inl e ↦ subst IsPlain (sym e) (forbidden-IsPlain "node token is required")
          | inr (inl e) ↦ subst IsPlain (sym e) (forbidden-IsPlain "host token is required")
          | inr (inr e) ↦ subst IsPlain (sym e) (forbidden-IsPlain "node identity mismatch")
        ]

  required-IsPlain :
      IsRead "bearer token is required"
      → IsPlain (write_message wiring 401 "bearer token is required")
  unfolding IsPlain protocol_error IsRead text_of
  required-IsPlain reads is_claim =
      (unexpected wiring 401 "bearer token is required", rw reads refl, refl)

  invalid-IsPlain :
      IsRead "invalid bearer token" → IsPlain (write_message wiring 401 "invalid bearer token")
  unfolding IsPlain protocol_error IsRead text_of
  invalid-IsPlain reads is_claim =
      (unexpected wiring 401 "invalid bearer token", rw reads refl, refl)

  check_token-IsPlain :
      (known : Option AccessScope) (m : Message) (r : Response)
      → IsRead "invalid bearer token"
      → check_token wiring part known m ≡ inl r
      → IsPlain r
  check_token-IsPlain none m r reads h =
      subst IsPlain {y = r} (ground (arith, h)) (invalid-IsPlain reads)
  check_token-IsPlain (some scope) m r reads h = check_scope-IsPlain scope m r h

  -- A request that the middleware refuses changes nothing, and the client reads the refusal as an
  -- error that is none of the control plane's: neither a lost lease nor a cancelled run.
  pub refusal-IsPlain :
      {S : Type 0} (auth : Option (String → Option AccessScope)) (m : Message) (r : Response)
      (next : Option AccessScope → Message → S → Response × S) (s : S)
      → IsRead "bearer token is required"
      → IsRead "invalid bearer token"
      → admit wiring part auth m ≡ inl r
      → (guarded wiring part auth next m s ≡ (r, s))
        × ((is_claim : Bool)
            → (f : Error) × (received wiring is_claim r ≡ inl f) × (kind_of f ≡ none))
  unfolding admit guarded IsPlain
  refusal-IsPlain none m r next s required invalid h = ground (arith, h)
  refusal-IsPlain (some auth) m r next s required invalid h = (rw h refl, plain)
    where
      plain : IsPlain r
      plain = elim (Bool-cases (is_public m.path)) [
        | inl p ↦ ground (arith, rw p at h)
        | inr p ↦ elim (Bool-cases (m.bearer == "")) [
          | inl b ↦
              subst IsPlain {x = write_message wiring 401 "bearer token is required"} {y = r}
                (ground (arith, rw b at (rw p at h))) (required-IsPlain required)
          | inr b ↦ check_token-IsPlain (auth m.bearer) m r invalid (rw b at (rw p at h))
        ]
      ]
