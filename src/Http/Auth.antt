-- ===== src/Http/Auth.antt =====
-- transport/httpapi/auth.go: who may send a request. `part` is what strings.Split at "/" leaves of a
-- segment before its first slash: the middleware reads the unescaped path, in which an escaped slash
-- of a segment is a slash again. No route has one in its first two segments.
use realy.Common.{
  String, Bool, true, false, not, ◌||◌, ◌&&◌, Option, none, some, List, [], ◌∷◌, ◌==◌,
  if◌then◌else◌, ◌⊎◌, inl, inr,
}
use realy.Controlplane.Access.{AccessScope, is_node, is_host}
use realy.Http.Wire.{Method, get, post, Message, Response, Wiring}
use realy.Http.Handler.{write_message}

pub record Token : Type 0 where
  pub value : String
  pub scope : AccessScope

-- StaticTokens: the first token of this value.
unfoldable pub authenticate : List Token → String → Option AccessScope
authenticate [] value = none
authenticate (candidate ∷ tokens) value =
    let later = authenticate tokens value in
    if value == candidate.value then some candidate.scope else later

abbrev pub is_public : List String → Bool
is_public (a ∷ []) = a == "health" || (a == "version" || a == "console")
is_public (a ∷ b ∷ []) = a == "console"
is_public (a ∷ b ∷ c ∷ []) = a == "console" || (a == "v1" && (b == "console" && c == "session"))
is_public (a ∷ rest) = a == "console"
is_public [] = false

abbrev pub is_attempts : List String → Bool
is_attempts (v ∷ group ∷ id ∷ rest) = v == "v1" && group == "attempts"
is_attempts _ = false

abbrev pub is_nodes : List String → Bool
is_nodes (v ∷ group ∷ id ∷ rest) = v == "v1" && group == "nodes"
is_nodes _ = false

abbrev pub is_post : Method → Bool
is_post post = true
is_post get = false

abbrev pub is_node_route : Method → List String → Bool
is_node_route method path = is_attempts path || (is_post method && is_nodes path)

-- A node's token with a subject, on a path below /v1/nodes that names another node.
abbrev pub is_mismatch : (part : String → String) → AccessScope → List String → Bool
is_mismatch part scope (v ∷ group ∷ id ∷ rest) =
    is_node scope.kind
    && (v == "v1"
        && (group == "nodes"
            && (not (part id == "register")
                && (not (scope.subject == "") && not (part id == scope.subject)))))
is_mismatch part scope _ = false

module _ (wiring : Wiring) (part : String → String) where
  abbrev pub check_scope : AccessScope → Message → Response ⊎ Option AccessScope
  check_scope scope m =
      if is_node_route m.method m.path && not (is_node scope.kind)
      then inl (write_message wiring 403 "node token is required")
      else (if not (is_node_route m.method m.path) && not (is_host scope.kind)
          then inl (write_message wiring 403 "host token is required")
          else (if is_mismatch part scope m.path
              then inl (write_message wiring 403 "node identity mismatch")
              else inr (some scope)))

  abbrev pub check_token : Option AccessScope → Message → Response ⊎ Option AccessScope
  check_token none m = inl (write_message wiring 401 "invalid bearer token")
  check_token (some scope) m = check_scope scope m

  -- The middleware's answer, or the scope with which the request goes on; `none` is a server without
  -- an authenticator.
  unfoldable pub admit :
      Option (String → Option AccessScope) → Message → Response ⊎ Option AccessScope
  admit none m = inr none
  admit (some auth) m =
      if is_public m.path
      then inr none
      else (if m.bearer == ""
          then inl (write_message wiring 401 "bearer token is required")
          else check_token (auth m.bearer) m)

  abbrev pub pass :
      {S : Type 0}
      → Response ⊎ Option AccessScope
      → (Option AccessScope → S → Response × S)
      → S
      → Response × S
  pass (inl refusal) next s = (refusal, s)
  pass (inr scope) next s = next scope s

  unfoldable pub guarded :
      {S : Type 0}
      → Option (String → Option AccessScope)
      → (Option AccessScope → Message → S → Response × S)
      → Message
      → S
      → Response × S
  guarded auth next m s = pass (admit auth m) (λ scope s'. next scope m s') s
