-- ===== src/Http/Answers.antt =====
-- transport/httpapi: the calls of a node that ask for something, through the client and the server,
-- against the calls made of the service itself.
use realy.Common.{String, Option, ◌≡◌}
use realy.Types.{Request}
use realy.Controlplane.Types.{Result}
use realy.Controlplane.Access.{AccessScope}
use realy.Node.Plane.{ControlPlane}
use realy.Http.Wire.{Wiring}
use realy.Http.Client
use realy.Http.Client.{received}
use realy.Http.Exchange.{SameResult}

module _ {S : Type 0} (wiring : Wiring) (part : String → String)
    (auth : Option (String → Option AccessScope)) (service : ControlPlane S) (blank : Request) where
  -- What the client has read and the state, against what the service gave.
  pub Answers : {A : Type 0} → Result A × S → Result A × S → Type 0
  Answers here there = SameResult here.0 there.0 × (there.1 ≡ here.1)
