-- ===== src/Http/Permission.antt =====
-- transport/httpapi/auth.go: the rules of the middleware, stated apart from its tests, and that the
-- tests decide them.
use realy.Common.{
  String, true, false, List, [], ◌∷◌, ◌==◌, ◌≡◌, refl, ap, subst, arith, if◌then◌else◌, ◌⊎◌, inl,
  inr, Bool-cases, eq_iff, ◌∙◌,
}
use realy.Controlplane.Access.{AccessKind, AccessScope, is_node, is_host}
use realy.Http.Wire.{Method, get, post, Message}
use realy.Http.Auth.{is_public, is_node_route, is_mismatch}

-- The paths that need no token.
pub IsPublic : List String → Type 0
IsPublic path =
    (path ≡ "health" ∷ [])
    ⊎ ((path ≡ "version" ∷ [])
        ⊎ (((rest : List String) × (path ≡ "console" ∷ rest))
            ⊎ (path ≡ "v1" ∷ "console" ∷ "session" ∷ [])))

-- The routes of nodes: those of an attempt, and a post to those of a node.
pub IsNodeRoute : Method → List String → Type 0
IsNodeRoute method path =
    (id : String) × (rest : List String) × ((path ≡ "v1" ∷ "attempts" ∷ id ∷ rest)
      ⊎ ((method ≡ post) × (path ≡ "v1" ∷ "nodes" ∷ id ∷ rest)))

-- For whom a scope may act on a path that names a node: for the scope's own node, and for any where
-- the scope names none. The middleware takes the word register in the node's place for no ID.
pub IsOwn : (String → String) → AccessScope → List String → Type 0
IsOwn part scope path =
    (id : String) (rest : List String)
    → path ≡ "v1" ∷ "nodes" ∷ id ∷ rest
    → scope.kind ≡ AccessKind.node
    → (part id ≡ "register") ⊎ ((scope.subject ≡ "") ⊎ (part id ≡ scope.subject))

-- A scope that may send a request.
pub record IsPermitted (part : String → String) (scope : AccessScope) (m : Message) : Type 0 where
  pub node : IsNodeRoute m.method m.path → scope.kind ≡ AccessKind.node
  pub host : ¬ IsNodeRoute m.method m.path → scope.kind ≡ AccessKind.host
  pub own : IsOwn part scope m.path

pub is_host_iff :
    (kind : AccessKind)
    → (is_host kind ≡ true → kind ≡ AccessKind.host)
      × (kind ≡ AccessKind.host → is_host kind ≡ true)
is_host_iff AccessKind.host = (λ h. refl, λ h. refl)
is_host_iff AccessKind.node = (λ h. ground (arith, h), λ h. ap is_host h)
is_host_iff (AccessKind.other_access kind) = (λ h. ground (arith, h), λ h. ap is_host h)

pub is_node_iff :
    (kind : AccessKind)
    → (is_node kind ≡ true → kind ≡ AccessKind.node)
      × (kind ≡ AccessKind.node → is_node kind ≡ true)
is_node_iff AccessKind.host = (λ h. ground (arith, h), λ h. ap is_node h)
is_node_iff AccessKind.node = (λ h. refl, λ h. refl)
is_node_iff (AccessKind.other_access kind) = (λ h. ground (arith, h), λ h. ap is_node h)

pub is_public_sound : (path : List String) → is_public path ≡ true → IsPublic path
unfolding IsPublic
is_public_sound [] h = ground (arith, h)
is_public_sound (a ∷ []) h = elim (Bool-cases (a == "health")) [
  | inl e ↦ inl (rw ((eq_iff a "health").0 e) refl)
  | inr e ↦ elim (Bool-cases (a == "version")) [
    | inl f ↦ inr (inl (rw ((eq_iff a "version").0 f) refl))
    | inr f ↦ inr (inr (inl ([], rw ((eq_iff a "console").0 (ground (arith, e, f, h))) refl)))
  ]
]
is_public_sound (a ∷ b ∷ []) h = inr (inr (inl (b ∷ [], rw ((eq_iff a "console").0 h) refl)))
is_public_sound (a ∷ b ∷ c ∷ []) h = elim (Bool-cases (a == "console")) [
  | inl e ↦ inr (inr (inl (b ∷ c ∷ [], rw ((eq_iff a "console").0 e) refl)))
  | inr e ↦
      let p = (eq_iff a "v1").0 (ground (arith, e, h)) in
      let q = (eq_iff b "console").0 (ground (arith, e, h)) in
      let r = (eq_iff c "session").0 (ground (arith, e, h)) in inr (inr (inr (rw (p, q, r) refl)))
]
is_public_sound (a ∷ b ∷ c ∷ d ∷ rest) h =
    inr (inr (inl (b ∷ c ∷ d ∷ rest, rw ((eq_iff a "console").0 h) refl)))

console_public : (rest : List String) → is_public ("console" ∷ rest) ≡ true
console_public [] = refl
console_public (b ∷ []) = refl
console_public (b ∷ c ∷ []) = refl
console_public (b ∷ c ∷ d ∷ rest) = refl

pub is_public_complete : (path : List String) → IsPublic path → is_public path ≡ true
unfolding IsPublic
is_public_complete path (inl e) = ap is_public e
is_public_complete path (inr (inl e)) = ap is_public e
is_public_complete path (inr (inr (inl (rest, e)))) = ap is_public e ∙ console_public rest
is_public_complete path (inr (inr (inr e))) = ap is_public e

pub is_node_route_sound :
    (method : Method) (path : List String)
    → is_node_route method path ≡ true
    → IsNodeRoute method path
unfolding IsNodeRoute
is_node_route_sound get [] h = ground (arith, h)
is_node_route_sound post [] h = ground (arith, h)
is_node_route_sound get (a ∷ []) h = ground (arith, h)
is_node_route_sound post (a ∷ []) h = ground (arith, h)
is_node_route_sound get (a ∷ b ∷ []) h = ground (arith, h)
is_node_route_sound post (a ∷ b ∷ []) h = ground (arith, h)
is_node_route_sound get (v ∷ group ∷ id ∷ rest) h =
    let p = (eq_iff v "v1").0 (ground (arith, h)) in
    let q = (eq_iff group "attempts").0 (ground (arith, h)) in (id, rest, inl (rw (p, q) refl))
is_node_route_sound post (v ∷ group ∷ id ∷ rest) h =
    let p = (eq_iff v "v1").0 (ground (arith, h)) in
    elim (Bool-cases (group == "attempts")) [
      | inl e ↦ (id, rest, inl (rw (p, (eq_iff group "attempts").0 e) refl))
      | inr e ↦
          let q = (eq_iff group "nodes").0 (ground (arith, e, h)) in
          (id, rest, inr (refl, rw (p, q) refl))
    ]

pub is_node_route_complete :
    (method : Method) (path : List String)
    → IsNodeRoute method path
    → is_node_route method path ≡ true
unfolding IsNodeRoute
is_node_route_complete method path (id, rest, inl e) = ap (is_node_route method) e
is_node_route_complete method path (id, rest, inr (m, e)) = rw (m, e) refl

is_mismatch_sound :
    (part : String → String) (scope : AccessScope) (path : List String)
    → is_mismatch part scope path ≡ false
    → IsOwn part scope path
unfolding IsOwn
is_mismatch_sound part scope path h id rest at kind =
    let h' =
      rw (kind, is_node) at
        (subst (λ p. is_mismatch part scope p ≡ false) {x = path} {y = "v1" ∷ "nodes" ∷ id ∷ rest}
          at h) in
    elim (Bool-cases (part id == "register")) [
      | inl e ↦ inl ((eq_iff (part id) "register").0 e)
      | inr e ↦ elim (Bool-cases (scope.subject == "")) [
        | inl f ↦ inr (inl ((eq_iff scope.subject "").0 f))
        | inr f ↦ inr (inr ((eq_iff (part id) scope.subject).0 (ground (arith, e, f, h'))))
      ]
    ]

pub is_mismatch_complete :
    (part : String → String) (scope : AccessScope) (path : List String)
    → IsOwn part scope path
    → is_mismatch part scope path ≡ false
unfolding IsOwn
is_mismatch_complete part scope [] own = refl
is_mismatch_complete part scope (a ∷ []) own = refl
is_mismatch_complete part scope (a ∷ b ∷ []) own = refl
is_mismatch_complete part scope (v ∷ group ∷ id ∷ rest) own =
    elim (Bool-cases (is_mismatch part scope (v ∷ group ∷ id ∷ rest))) [
      | inr e ↦ e
      | inl e ↦
          let p = (eq_iff v "v1").0 (ground (arith, e)) in
          let q = (eq_iff group "nodes").0 (ground (arith, e)) in
          let kind = (is_node_iff scope.kind).0 (ground (arith, e)) in
          elim (own id rest (rw (p, q) refl) kind) [
            | inl same ↦ let r = (eq_iff (part id) "register").1 same in ground (arith, e, r)
            | inr (inl empty) ↦ let r = (eq_iff scope.subject "").1 empty in ground (arith, e, r)
            | inr (inr same) ↦
                let r = (eq_iff (part id) scope.subject).1 same in ground (arith, e, r)
          ]
    ]

pub chosen-IsPermitted :
    (part : String → String) (scope : AccessScope) (m : Message)
    → (if is_node_route m.method m.path then is_node scope.kind else is_host scope.kind) ≡ true
    → is_mismatch part scope m.path ≡ false
    → IsPermitted part scope m
chosen-IsPermitted part scope m kind own = elim (Bool-cases (is_node_route m.method m.path)) [
  | inl e ↦ record {
    node = λ route. (is_node_iff scope.kind).0 (rw e at kind);
    host = λ other. elim (other (is_node_route_sound m.method m.path e)) [ ];
    own = is_mismatch_sound part scope m.path own;
  }
  | inr e ↦ record {
    node = λ route. let e' = is_node_route_complete m.method m.path route in ground (arith, e, e');
    host = λ other. (is_host_iff scope.kind).0 (rw e at kind);
    own = is_mismatch_sound part scope m.path own;
  }
]
