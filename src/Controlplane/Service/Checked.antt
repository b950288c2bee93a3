-- ===== src/Controlplane/Service/Checked.antt =====
-- controlplane/service.go: what the Service passes on to its storage, and the state of nodes.
use realy.Common.{
  ◌∙◌, sym, ◌≡◌, ◌≢◌, refl, ap, ◌⊎◌, inl, inr, String, Option, none, some, List, [], ◌∷◌, arith,
  eq_iff, ℤ, pos, true, false, ◌==◌, Bool-cases, Option-cases, le_nat, if◌then◌else◌,
}
use realy.Types.{RetryPolicy, Request}
use realy.Controlplane.Types.{Error, err, World, NodeRegistration, Runtime, incompatible_protocol}
use realy.Controlplane.Access.{is_host, AccessKind, AccessScope}
use realy.Controlplane.Service.{
  Storage, seen_before, named_runtimes, no_runtimes, request_fault, with_runtimes, invalid,
  is_positive, parses, scoped_request, with_attempts, protocol_version, shown, is_offline,
}
use realy.Controlplane.Service
use realy.Controlplane.Service.Naming.{
  HasDistinctIds, IsNamed, named_runtimes-IsNamed, IsNamed-named_runtimes,
}

-- What the Service asks of a request before the storage sees it.
pub record IsSubmittable (w : World) (request : Request) : Type 0 where
  pub agent : request.agent_id ≢ ""
  pub key : request.idempotency_key ≢ ""
  pub prompt : request.input.prompt ≢ ""
  pub provider : request.runtime.provider ≢ ""
  pub counted : le_nat request.retry.max_attempts 0 ≡ false
  pub backoff :
      (request.retry.backoff ≡ "") ⊎ (parses (w.parse_duration request.retry.backoff) ≡ true)
  pub timeout : (request.timeout ≡ "") ⊎ (is_positive (w.parse_duration request.timeout) ≡ true)

request_fault-none :
    (w : World) (request : Request)
    → request_fault w request ≡ none
    → le_nat request.retry.max_attempts 0 ≡ false
    → IsSubmittable w request
unfolding request_fault
request_fault-none w request h counted = ground (
  arith,
  eq_iff request.agent_id "",
  eq_iff request.idempotency_key "",
  eq_iff request.input.prompt "",
  eq_iff request.runtime.provider "",
  eq_iff request.retry.backoff "",
  eq_iff request.timeout "",
)

with_attempts-counted :
    (request : Request) → le_nat (with_attempts request).retry.max_attempts 0 ≡ false
with_attempts-counted request = elim (Bool-cases (le_nat request.retry.max_attempts 0)) [
  | inl e ↦ rw e refl
  | inr e ↦ rw e e
]

IsSubmittable-request_fault :
    (w : World) (request : Request) → IsSubmittable w request → request_fault w request ≡ none
unfolding request_fault
IsSubmittable-request_fault w request fits = ground (
  arith,
  fits.agent,
  fits.key,
  fits.prompt,
  fits.provider,
  fits.backoff,
  fits.timeout,
  eq_iff request.agent_id "",
  eq_iff request.idempotency_key "",
  eq_iff request.input.prompt "",
  eq_iff request.runtime.provider "",
  eq_iff request.retry.backoff "",
  eq_iff request.timeout "",
)

-- What the Service passes on for a request: the request with the tenant and project of a host, where
-- a host asks, and with at least one attempt.
pub record IsPassedOn (scope : Option AccessScope) (given passed : Request) : Type 0 where
  pub of_host :
      (host : AccessScope)
      → scope ≡ some host
      → host.kind ≡ AccessKind.host
      → (passed.tenant_id ≡ host.tenant_id) × (passed.project_id ≡ host.project_id)
  pub of_others :
      ((host : AccessScope) → scope ≡ some host → host.kind ≢ AccessKind.host)
      → (passed.tenant_id ≡ given.tenant_id) × (passed.project_id ≡ given.project_id)
  pub attempts :
      ((le_nat given.retry.max_attempts 0 ≡ true) × (passed.retry.max_attempts ≡ pos 1))
      ⊎ ((le_nat given.retry.max_attempts 0 ≡ false)
          × (passed.retry.max_attempts ≡ given.retry.max_attempts))
  pub rest : passed ≡ record given {
    tenant_id = passed.tenant_id;
    project_id = passed.project_id;
    retry = record (given.retry) { max_attempts = passed.retry.max_attempts };
  }

is_host_sound : (kind : AccessKind) → is_host kind ≡ true → kind ≡ AccessKind.host
is_host_sound AccessKind.host h = refl
is_host_sound AccessKind.node h = ground (arith, h)
is_host_sound (AccessKind.other_access kind) h = ground (arith, h)

attempts-IsPassedOn :
    (scope : Option AccessScope) (given scoped : Request)
    → scoped ≡ record given { tenant_id = scoped.tenant_id; project_id = scoped.project_id }
    → ((host : AccessScope)
        → scope ≡ some host
        → host.kind ≡ AccessKind.host
        → (scoped.tenant_id ≡ host.tenant_id) × (scoped.project_id ≡ host.project_id))
    → (((host : AccessScope) → scope ≡ some host → host.kind ≢ AccessKind.host)
        → (scoped.tenant_id ≡ given.tenant_id) × (scoped.project_id ≡ given.project_id))
    → IsPassedOn scope given (with_attempts scoped)
attempts-IsPassedOn scope given scoped same host others =
    let retry = ap (λ (r : Request). r.retry) same in
    elim (Bool-cases (le_nat scoped.retry.max_attempts 0)) [
      | inl e ↦ rw e (record {
        of_host = host;
        of_others = others;
        attempts = inl (ap (λ (r : RetryPolicy). le_nat r.max_attempts 0) (sym retry) ∙ e, refl);
        rest =
            ap (λ (r : Request). record r { retry = record (r.retry) { max_attempts = pos 1 } })
              same;
      })
      | inr e ↦ rw e (record {
        of_host = host;
        of_others = others;
        attempts = inr (
          ap (λ (r : RetryPolicy). le_nat r.max_attempts 0) (sym retry) ∙ e,
          ap (λ (r : RetryPolicy). r.max_attempts) retry,
        );
        rest =
            ap
              (λ (r : Request). record r {
                retry = record (r.retry) { max_attempts = scoped.retry.max_attempts };
              })
              same;
      })
    ]

scoped-IsPassedOn :
    (scope : Option AccessScope) (given : Request)
    → IsPassedOn scope given (with_attempts (scoped_request scope given))
scoped-IsPassedOn none given =
    attempts-IsPassedOn none given given refl (λ host e k. ground (arith, e)) (λ h. (refl, refl))
scoped-IsPassedOn (some scope) given = elim (Bool-cases (is_host scope.kind)) [
  | inl e ↦ rw e (
      attempts-IsPassedOn (some scope) given
        (record given { tenant_id = scope.tenant_id; project_id = scope.project_id }) refl
        (λ host same k.
          let is : scope ≡ host = ground (arith, same) in
          (ap (λ (x : AccessScope). x.tenant_id) is, ap (λ (x : AccessScope). x.project_id) is))
        (λ other. elim (other scope refl (is_host_sound scope.kind e)) [ ]))
  | inr e ↦ rw e (
      attempts-IsPassedOn (some scope) given given refl
        (λ host same k.
          let is : scope ≡ host = ground (arith, same) in
          let kind = ap (λ (x : AccessScope). is_host x.kind) is ∙ ap is_host k in
          ground (arith, e, kind))
        (λ other. (refl, refl)))
]

-- A submission is judged as the Service passes it on: with the tenant and project of a host, where a
-- host asks, and with one attempt where none is asked for. If it is submittable, the storage's answer
-- for it is given, and otherwise it is refused with nothing changed.
pub submit_checked :
    {S : Type 0} (storage : Storage S) (w : World) (scope : Option AccessScope) (given : Request)
    (s : S)
    → (passed : Request) × IsPassedOn scope given passed
      × ((IsSubmittable w passed
            × (Service.submit storage w scope given s ≡ storage.submit passed s))
          ⊎ ((e : String) × (Service.submit storage w scope given s ≡ (err (invalid e), s))
              × (¬ IsSubmittable w passed)))
unfolding Service.submit
submit_checked storage w scope given s =
    let request = with_attempts (scoped_request scope given) in
    (
      request,
      scoped-IsPassedOn scope given,
      elim (Option-cases (request_fault w request)) [
        | inl e ↦ inl (
          request_fault-none w request e (with_attempts-counted (scoped_request scope given)),
          ap (λ fault. Service.checked fault s (storage.submit request s)) e,
        )
        | inr (fault, e) ↦ inr (
          fault,
          ap (λ fault. Service.checked fault s (storage.submit request s)) e,
          λ fits.
              let none_found = IsSubmittable-request_fault w request fits in
              ground (arith, e, none_found),
        )
      ],
    )

-- What the Service passes on for a registration that it accepts: the registration, with the server's
-- protocol version, an ID and at least one runtime, only with a capacity of at least one and with an
-- ID of its own for each runtime.
pub record IsRegistrable (trim : String → String) (registration passed : NodeRegistration)
    : Type 0 where
  pub protocol : registration.protocol_version ≡ protocol_version
  pub filled : registration.id ≢ ""
  pub some_runtime : registration.runtimes ≢ []
  pub are_named : IsNamed trim registration.id registration.runtimes passed.runtimes
  pub distinct : HasDistinctIds passed.runtimes
  pub capacity :
      ((le_nat registration.capacity 0 ≡ true) × (passed.capacity ≡ pos 1))
      ⊎ ((le_nat registration.capacity 0 ≡ false) × (passed.capacity ≡ registration.capacity))
  pub rest : passed ≡ record registration { capacity = passed.capacity; runtimes = passed.runtimes }

capacity-cases :
    (capacity : ℤ)
    → ((le_nat capacity 0 ≡ true) × ((if le_nat capacity 0 then pos 1 else capacity) ≡ pos 1))
      ⊎ ((le_nat capacity 0 ≡ false) × ((if le_nat capacity 0 then pos 1 else capacity) ≡ capacity))
capacity-cases capacity = elim (Bool-cases (le_nat capacity 0)) [
  | inl e ↦ inl (e, rw e refl)
  | inr e ↦ inr (e, rw e refl)
]

no_runtimes-nil : (runtimes : List Runtime) → no_runtimes runtimes ≡ true → runtimes ≡ []
no_runtimes-nil [] h = refl
no_runtimes-nil (_ ∷ _) h = ground (arith, h)

-- A registration of the server's protocol version that has an ID and at least one runtime, whose
-- runtimes have different IDs once the empty ones are made of the node's ID and the provider, reaches
-- the storage with these IDs and a capacity of at least one, and the storage's answer is given. Any
-- other is refused, with nothing changed.
pub register_checked :
    {S : Type 0} (storage : Storage S) (trim : String → String) (registration : NodeRegistration)
    (s : S)
    → ((passed : NodeRegistration) × IsRegistrable trim registration passed
        × (Service.register_node storage trim registration s ≡ storage.register_node passed s))
      ⊎ ((e : Error) × (Service.register_node storage trim registration s ≡ (err e, s))
          × ((passed : NodeRegistration) → ¬ IsRegistrable trim registration passed))
unfolding Service.register_node seen_before
register_checked storage trim registration s =
    let runtimes = registration.runtimes in
    elim (Bool-cases (registration.protocol_version == protocol_version)) [
      | inr e ↦ inr (
        incompatible_protocol,
        rw e refl,
        λ passed fits.
            let same = (eq_iff registration.protocol_version protocol_version).1 fits.protocol in
            ground (arith, e, same),
      )
      | inl e ↦ elim (Bool-cases (registration.id == "")) [
        | inl f ↦ inr (
          invalid "node ID and at least one runtime are required",
          rw e (rw f refl),
          λ passed fits. fits.filled ((eq_iff registration.id "").0 f),
        )
        | inr f ↦ elim (Bool-cases (no_runtimes runtimes)) [
          | inl g ↦ inr (
            invalid "node ID and at least one runtime are required",
            rw e (rw f (rw g refl)),
            λ passed fits. fits.some_runtime (no_runtimes-nil runtimes g),
          )
          | inr g ↦ elim (Option-cases (named_runtimes trim registration.id [] runtimes)) [
            | inl n ↦ inr (
              invalid "runtime instance IDs must be unique within a node",
              rw e (rw f (rw g (ap (λ r. Service.register_named storage registration r s) n))),
              λ passed fits.
                  let named =
                    IsNamed-named_runtimes trim registration.id [] runtimes passed.runtimes
                      fits.are_named (λ runtime m. refl) fits.distinct in
                  ground (arith, n, named),
            )
            | inr (named, n) ↦
                let (is_named, _, distinct) =
                  named_runtimes-IsNamed trim registration.id [] runtimes named n in
                inl (
                  with_runtimes registration named,
                  record {
                    protocol = (eq_iff registration.protocol_version protocol_version).0 e;
                    filled = λ empty.
                        let is_empty = (eq_iff registration.id "").1 empty in
                        ground (arith, f, is_empty);
                    some_runtime = λ nil.
                        let is_nil = ap (λ (l : List Runtime). no_runtimes l) nil in
                        ground (arith, g, is_nil);
                    are_named = is_named;
                    distinct = distinct;
                    capacity = capacity-cases registration.capacity;
                    rest = refl;
                  },
                  rw e (rw f (rw g (ap (λ r. Service.register_named storage registration r s) n))),
                )
          ]
        ]
      ]
    ]
