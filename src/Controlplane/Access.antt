-- ===== src/Controlplane/Access.antt =====
-- controlplane/access.go: who asks, as the context carries it.
use realy.Common.{String, Bool, true, false, not, ◌&&◌, Option, none, some, ◌==◌, if◌then◌else◌}
use realy.Types.{Run}
use realy.Controlplane.Types.{Error, not_found}

pub data AccessKind : Type 0 where
  host node : AccessKind
  other_access : String → AccessKind

pub record AccessScope : Type 0 where
  pub kind : AccessKind
  pub subject : String
  pub tenant_id : String
  pub project_id : String

abbrev pub is_host : AccessKind → Bool
is_host AccessKind.host = true
is_host _ = false

abbrev pub is_node : AccessKind → Bool
is_node AccessKind.node = true
is_node _ = false

-- What `AccessFrom` gives: no scope where the context has none. The listings then read the zero
-- scope, whose texts are empty.
abbrev pub tenant_of : Option AccessScope → String
tenant_of none = ""
tenant_of (some scope) = scope.tenant_id

abbrev pub project_of : Option AccessScope → String
project_of none = ""
project_of (some scope) = scope.project_id

-- `none` is Go's nil error.
unfoldable pub authorize_run_scope : Option AccessScope → Run → Option Error
authorize_run_scope none run = none
authorize_run_scope (some scope) run =
    if is_node scope.kind
    then none
    else (if not (scope.tenant_id == "") && not (scope.tenant_id == run.tenant_id)
        then some not_found
        else (if not (scope.project_id == "") && not (scope.project_id == run.project_id)
            then some not_found
            else none))
