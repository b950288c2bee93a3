-- ===== src/Http/Remote.antt =====
-- transport/httpapi: a node's calls through the client and the server against the calls made of the
-- service itself.
use realy.Common.{String, true, false, Option, none, some, List, ◌∷◌, ◌==◌, ◌≡◌, refl, ◌⊎◌, inr}
use text.Mathlib.Text.{starts_with}
use realy.Types.{Request, RunResult, CapabilityResult}
use realy.Controlplane.Types.{Assignment, CapabilityReservation, Error, raw, World}
use realy.Controlplane.Access.{AccessScope, is_node}
use realy.Node.Plane.{ControlPlane}
use realy.Http.Wire.{Message, Response, Codec, EventCall, Wiring}
use realy.Http.Handler.{is_skipped, serve, decoded}
use realy.Http.Auth.{guarded, admit}
use realy.Http.Client
use realy.Http.Client.{Transport, names_claim, received, output, message_to, post_encoded}
use realy.Http.Exchange.{SameError, IsSent, decoded_sent}

-- A token with which the server takes a node's requests: any where it has no authenticator, else one
-- of a node.
pub data IsAdmitted : Option (String → Option AccessScope) → String → Type 0 where
  open_server : {token : String} → IsAdmitted none token
  node_token :
      {auth : String → Option AccessScope} {token : String} {scope : AccessScope}
      → (token == "") ≡ false
      → auth token ≡ some scope
      → is_node scope.kind ≡ true
      → IsAdmitted (some auth) token

-- An ID that a path can carry, and that does not make it look like a claim's.
pub record IsPathId (id : String) : Type 0 where
  pub filled : is_skipped id ≡ false
  pub unlike_claim : starts_with id "claim" ≡ false

-- The server takes a node's request below /v1/attempts.
module _ {S : Type 0} (wiring : Wiring) (part : String → String) where
  guarded_attempt :
      (auth : Option (String → Option AccessScope)) (token id op body : String) (rest : List String)
      (s : S) (next : Option AccessScope → Message → S → Response × S)
      → IsAdmitted auth token
      → (scope : Option AccessScope) × (guarded wiring part auth next
            (message_to token ("v1" ∷ "attempts" ∷ id ∷ op ∷ rest) body)
            s
          ≡ next scope (message_to token ("v1" ∷ "attempts" ∷ id ∷ op ∷ rest) body) s)
  unfolding guarded admit
  guarded_attempt _ token id op body rest s next IsAdmitted.open_server = (none, refl)
  guarded_attempt _ token id op body rest s next
        (IsAdmitted.node_token {scope = scope} filled known node) =
      (some scope, rw filled (rw known (rw node refl)))

module _ {S : Type 0} (wiring : Wiring) (part : String → String)
    (auth : Option (String → Option AccessScope)) (service : ControlPlane S) (blank : Request) where
  -- The server as a transport that loses nothing.
  abbrev pub delivered : Response × S → (String ⊎ Response) × S
  delivered (r, s) = (inr r, s)

  unfoldable pub server : Transport S
  server m s =
      delivered
        (guarded wiring part auth (λ scope m' s'. serve wiring service blank scope m' s') m s)

  -- A body that is sent to a route below /v1/attempts is answered by that route's handler.
  pub post_attempt :
      {A B : Type 0} (codec : Codec A) (value : A) (token id op : String) (rest : List String)
      (read : Error ⊎ Option String → B) (next : A → S → Response × S) (s : S)
      → IsAdmitted auth token
      → IsSent wiring codec value
      → names_claim ("v1" ∷ "attempts" ∷ id ∷ op ∷ rest) ≡ false
      → ((scope : Option AccessScope) (body : String)
          → serve wiring service blank scope
              (message_to token ("v1" ∷ "attempts" ∷ id ∷ op ∷ rest) body)
              s
            ≡ decoded wiring codec body next s)
      → post_encoded wiring server token read
          ("v1" ∷ "attempts" ∷ id ∷ op ∷ rest)
          (codec.encode value)
          s
        ≡ (read (received wiring false (next value s).0), (next value s).1)
  unfolding server
  post_attempt codec value token id op rest read next s admitted sent plain served =
      let path = "v1" ∷ "attempts" ∷ id ∷ op ∷ rest in
      let (scope, at) =
        guarded_attempt wiring part auth token id op sent.text rest s
          (λ scope m' s'. serve wiring service blank scope m' s') admitted in
      rw sent.encoded (
        rw plain (
          rw at
            (rw (served scope sent.text) (rw (decoded_sent wiring codec value sent next s) refl))))

  -- The calls by which a node reports.
  pub data Report : Type 0 where
    start acknowledge : Assignment → Report
    event : (run_id attempt_id lease kind payload id : String) → Report
    complete : Assignment → RunResult → Report
    fail : Assignment → String → Report
    finish : Assignment → CapabilityReservation → CapabilityResult → (cause : String) → Report

  -- A report to the service itself, and one through the client and the server.
  pub report_local : Report → S → Option Error × S
  report_local (Report.start a) s = service.start a s
  report_local (Report.acknowledge a) s = service.acknowledge_cancellation a s
  report_local (Report.event run_id attempt_id lease kind payload id) s =
      service.append_event run_id attempt_id lease kind (raw payload) (some id) s
  report_local (Report.complete a result) s = service.complete a result s
  report_local (Report.fail a cause) s = service.fail a cause s
  report_local (Report.finish a reservation result cause) s =
      service.finish_capability a reservation result cause s

  pub report_remote : World → String → Report → S → Option Error × S
  report_remote w token (Report.start a) s = Client.start wiring server token a s
  report_remote w token (Report.acknowledge a) s =
      Client.acknowledge_cancellation wiring server token a s
  report_remote w token (Report.event run_id attempt_id lease kind payload id) s =
      Client.append_event wiring server token w run_id attempt_id lease kind (raw payload) (some id)
        s
  report_remote w token (Report.complete a result) s =
      Client.complete wiring server token a result s
  report_remote w token (Report.fail a cause) s = Client.fail wiring server token a cause s
  report_remote w token (Report.finish a reservation result cause) s =
      Client.finish_capability wiring server token a reservation result cause s

  abbrev pub event_call : (run_id lease kind payload id : String) → EventCall
  event_call run_id lease kind payload id = record {
    event_id = id;
    run_id = run_id;
    lease_token = lease;
    kind = kind;
    payload = payload;
  }

  -- The report's IDs can stand in a path, and its body is at most 8 MiB and is read back.
  unfoldable pub IsReady : World → Report → Type 0
  IsReady w (Report.start a) = IsPathId a.attempt_id × IsSent wiring wiring.assignment a
  IsReady w (Report.acknowledge a) = IsPathId a.attempt_id × IsSent wiring wiring.assignment a
  IsReady w (Report.event run_id attempt_id lease kind payload id) =
      IsPathId attempt_id
      × (w.marshal (raw payload) ≡ some payload)
      × IsSent wiring wiring.event (event_call run_id lease kind payload id)
  IsReady w (Report.complete a result) =
      IsPathId a.attempt_id
      × IsSent wiring wiring.completion (record { assignment = a; result = result })
  IsReady w (Report.fail a cause) =
      IsPathId a.attempt_id
      × IsSent wiring wiring.failure (record { assignment = a; error = cause })
  IsReady w (Report.finish a reservation result cause) =
      IsPathId a.attempt_id
      × IsPathId reservation.call_id
      × IsSent wiring wiring.finish
          (record { assignment = a; reservation = reservation; result = result; error = cause })

  -- What the server gave and the client read, against what the service gave.
  pub Agrees : Option Error × S → Option Error × S → Type 0
  Agrees here there = SameError here.0 there.0 × (there.1 ≡ here.1)
