-- ===== src/Lib.antt =====
-- A verification library for fabric-x-operator, a Kubernetes operator that runs Hyperledger Fabric-X
-- networks. It models the reconcilers that obtain and use credentials, those that unfold an orderer
-- group or a committer into its components, the choice of certificate providers, the routes, and the
-- helpers that they share, and proves what they may write, when they may act, and what is true when
-- they report success.
--
-- The parts. A CA resource runs a Fabric certificate authority. An Identity or a CAEnrollment
-- enrolls with it and keeps the credentials in a secret of the cluster. A ChainNamespace takes the
-- secret of an Identity, builds a local MSP directory and a signing identity of it, signs a
-- namespace transaction, and broadcasts it to an orderer. An OrdererGroup and a Committer are turned
-- into one resource for each of their components, whose specs merge the settings of component and
-- parent; the components get certificates from the provider that their enrollment settings choose,
-- which may be a secret that a CAEnrollment wrote. Each reconciler reads its object, acts,
-- and writes the status of the object, through an API server where every call can fail.
--
-- How code is modelled. A Go function with result R that makes calls is an action
-- `List Event → R × List Event` (Go.Act): it takes the history of the calls made so far, newest
-- first, each with its arguments and its answer, and returns its result and the longer history. The
-- environment (API server, certificate authority, file system, clock, orderer) is a record of
-- functions of the history, so that it may answer the same call differently each time, and fail at
-- any call; a theorem for every environment is one for every interleaving with other writers. A
-- return of `if err != nil` is the step `check`, a nil test is `if_nil`, `defer` is `deferred`. An
-- object that the code changes in place is passed on explicitly; after a successful write it is the
-- answer of the server, as the client decodes it. Errors keep the reason that IsNotFound and
-- IsAlreadyExists read (Go). Go.Triple is a program logic on actions: a rule for each step, and the
-- invariants of histories whose events each meet a condition on the events before them; Go.Makes has
-- the rule for sequences of checked calls each of which establishes a lasting fact.
--
-- The files.
--   Prelude          shared names, Boolean tests on numbers, lists.
--   Go               errors, results, maps, with Act (actions), Triple and Makes (their program
--                    logic) and Decimal (the decimal text of an index).
--   Kube             the Kubernetes objects, and controllerutil, x509 and pem as parameters.
--   Utils            internal/controller/utils/helpers.go and hash.go: Text (service names and the
--                    joining of texts), Sorting (sort.Strings), Finalizers (ContainsString,
--                    RemoveString), Conditions (UpdateConditionIfChanged), Hash (the Compute…Hash
--                    functions and HashBuilder).
--   Identity         internal/controller/identity_controller.go, internal/enrollment/x509.go and
--                    api/v1alpha1/identity_types.go: Status (updateStatus and its two variants),
--                    Secrets (createOutputSecrets, outputSecretsExist, validateExistingSecrets),
--                    X509 (EnrollX509), Enroll (handleEnrollment), Idemix (handleIdemixEnrollment,
--                    createIdemixSecret), Reconcile (Reconcile, handleDeletion, validateSpec). Rules
--                    and Invariant carry any invariant through them; Ready, Errors, Guard, Frame,
--                    TempDir, Outputs, IdemixOutputs and Disabled hold the theorems.
--   CaEnrollment     internal/controller/caenrollment_controller.go and
--                    api/v1alpha1/caenrollment_types.go: Status (updateStatus), Renewal
--                    (needsRenewal, getCertificateExpiry), Enroll (enrollIdentity), Reconcile
--                    (Reconcile, handleDeletion). Due, Deletion and Ignored hold the theorems.
--   ChainNamespace   internal/controller/chainnamespace_controller.go and
--                    api/v1alpha1/namespace_types.go: Conditions (updateStatus), Validation
--                    (validateNamespace), PublicKey (getPubKeyFromPemData), Transaction
--                    (createNamespacesTx, createSignedEnvelope, createEnvelope, extractPublicPem),
--                    Msp (setupMSPFromIdentity, initializeMSP, getSecretData), Broadcast
--                    (broadcast), Reconcile (Reconcile, deployNamespace, handleDeletion). Confirmed
--                    and Deployed hold theorems on runs; Conditions, Validation and PublicKey hold
--                    their own.
--   Api              the types of api/v1alpha1 for an OrdererGroup, a Committer and their components:
--                    Pod and Component (shared settings, orderergroup_types.go), Orderer, Committer.
--                    A slice, a map or a pointer may be nil.
--   OrdererGroup     internal/controller/orderergroup_controller.go: Specs (the four build…Spec
--                    functions; Settings compares them), Env (the children and the calls), Status
--                    (updateOrdererGroupStatus), Children (the creation, update and cleanup of each
--                    child), Reconcile (Reconcile, reconcileOrdererGroup, handleDeletion,
--                    ensureFinalizer, removeFinalizer). Applied, Rules and Cleanup say what the
--                    children's functions bring about; Rollout, Deletion and Conditions hold
--                    theorems on runs and on the status.
--   Committer        internal/controller/committer_controller.go, laid out in the same way, with
--                    Progress (a run reaches its end), Settings and Ignored (the settings of the
--                    children).
--   Certs            internal/controller/certs: Types and Provision (provider.go, provision.go),
--                    Convert (api_converter.go), Factory (provider_factory.go), Providers
--                    (provider_manual.go, provider_vault.go), Client (EnrollUser, GetClient and
--                    readKey of ca_provision.go), Component (the enrollment of a component,
--                    ca_provision.go) and FabricCa (provider_fabricca.go). Choice, Provisioned,
--                    Reuse and Panics hold the theorems.
--   Routes           internal/controller/gateway_helpers.go: Gateway (the parsing of gateway
--                    references), Route (ReconcileTLSRoute, ReconcileTCPRoute and ReconcileHTTPRoute
--                    as one function of the kind, and DeleteTLSRoute). And
--                    internal/controller/istio_helpers.go: Istio
--                    (ReconcileIstioVirtualService and ReconcileIstioDestinationRule). Current and
--                    IstioCurrent hold the theorems.
--   The Examples of each part run it in a small cluster and apply the theorems there.
--
-- Bounds. Loops over lists are recursion on the list. The loop over PEM blocks takes the length of
-- the input as fuel, which is enough since a block takes at least one byte. Times are seconds; the
-- counter of enrollments and the version of a namespace do not overflow in any run of practical
-- length, and have no bound here. A panic ends the process and is no result, except in
-- Certs.Client and Certs.Component, where it is a way to end.
--
-- Not modelled. Logging; the fabric-ca client (idemix.Enroll, and certs.EnrollUser where Identity and
-- CaEnrollment call it: there its panic on a nil client and the temporary files that it leaves behind
-- are left out), whether os.RemoveAll succeeds, a typed nil pointer as a configuration, protobuf, protoutil,
-- msp, bccsp, gRPC, SHA-256 and the Go standard library, which are parameters; fields that a
-- reconciler neither reads nor writes. Resource requirements and environment variables, which are
-- only copied, are their JSON text. The recovery from a panic in the reconcilers of groups and
-- committers is left out, since no call of the model panics. The reconcilers of the CA, the genesis
-- block, the endorser and of the single components, and the secrets that are made of component
-- certificates, are not part of the library yet.
pub mod Prelude
pub mod Go
pub mod Kube
pub mod Api
pub mod CaEnrollment
pub mod Certs
pub mod ChainNamespace
pub mod Committer
pub mod Identity
pub mod OrdererGroup
pub mod Routes
pub mod Utils
