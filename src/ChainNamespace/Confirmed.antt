-- ===== src/ChainNamespace/Confirmed.antt =====
-- "Deployed" is written only for a transaction that the orderer has accepted.
use mathlib.Core.Path.{subst}
use fabric_x_operator.Go.Act.{pure}
use fabric_x_operator.Prelude.{ℕ, String, ◌≡◌, refl, true, List, ◌∷◌, nat_eq}
use fabric_x_operator.Go.{GoError, Bytes, Outcome, ok, err}
use fabric_x_operator.Go.Triple.{
  Triple, Triple-pure, Triple-if, Triple-call, Triple-check, Triple-invoke, Triple-weaken,
  Triple-deferred, Each, Occurs, last, before, Occurs-answer, ok_injective,
}
use fabric_x_operator.ChainNamespace.Types.{Ref, ChainNamespace, Header, Envelope, Tx}
use fabric_x_operator.ChainNamespace.Env.{Env, Event, updated_status, sent, received, signed}
use fabric_x_operator.ChainNamespace.Validation.{validate_namespace}
use fabric_x_operator.ChainNamespace.PublicKey.{get_pub_key_from_pem_data}
use fabric_x_operator.ChainNamespace.Transaction.{
  create_namespaces_tx, create_envelope, create_signed_envelope,
}
use fabric_x_operator.ChainNamespace.Broadcast.{tls_ref, broadcast_on, broadcast}
use fabric_x_operator.ChainNamespace.Reconcile.{channel_of, submit, deploy_namespace}
use fabric_x_operator.ChainNamespace.Rules.{
  Keeps, is_plain, Triple-setup_msp_from_identity, Triple-policy_key, Triple-endorse,
  Triple-secure_options,
}

-- The envelope is signed, and its payload has a header with this transaction ID.
pub data IsSigned (env : Env) (e : Envelope) (tx_id : String) (h : List Event) : Type 0 where
  signed_as :
      (signer : Ref) (hdr : Header) (contents : Bytes)
      → hdr.tx_id ≡ tx_id
      → e.payload ≡ env.marshal_payload hdr contents
      → Occurs (signed signer e.payload (ok e.signature)) h
      → IsSigned env e tx_id h

-- The envelope was sent to an orderer, and a success was received on the same stream.
pub data IsAccepted (env : Env) (e : Envelope) (h : List Event) : Type 0 where
  accepted :
      (abc : Ref) (status : ℕ)
      → Occurs (sent abc e (ok tt)) h
      → Occurs (received abc (ok status)) h
      → nat_eq status env.success ≡ true
      → IsAccepted env e h

-- The transaction of this ID was signed, sent and accepted.
pub data Confirmed (env : Env) (tx_id : String) (h : List Event) : Type 0 where
  confirmed : (e : Envelope) → IsSigned env e tx_id h → IsAccepted env e h → Confirmed env tx_id h

-- A status update that says "Deployed" comes after the transaction that it names was confirmed.
abbrev pub DeployedIsTrue : Env → List Event → Event → Type 0
DeployedIsTrue env h (updated_status i r) =
    i.status.status ≡ "Deployed" → Confirmed env i.status.tx_id h
DeployedIsTrue env h _ = Unit

abbrev pub Truthful : Env → List Event → Type 0
Truthful env = Each (DeployedIsTrue env)

IsSigned-before :
    {env : Env} {e : Envelope} {t : String} {h : List Event} (d : Event)
    → IsSigned env e t h
    → IsSigned env e t (d ∷ h)
IsSigned-before d (signed_as s hdr c t p o) = signed_as s hdr c t p (before o)

IsAccepted-before :
    {env : Env} {e : Envelope} {h : List Event} (d : Event)
    → IsAccepted env e h
    → IsAccepted env e (d ∷ h)
IsAccepted-before d (accepted abc s o p q) = accepted abc s (before o) (before p) q

pub Confirmed-before :
    {env : Env} {t : String} {h : List Event} (d : Event)
    → Confirmed env t h
    → Confirmed env t (d ∷ h)
Confirmed-before d (confirmed e s a) = confirmed e (IsSigned-before d s) (IsAccepted-before d a)

module _ (env : Env) (I : List Event → Type 0)
    (plain : (e : Event) → is_plain e ≡ true → Keeps I e) where
  create_envelope-IsSigned :
      (signer : Ref) (hdr : Header) (contents : Bytes)
      → Triple I
          (create_envelope env signer hdr contents)
          (λ r h. I h × ((e : Envelope) → r ≡ ok e → IsSigned env e hdr.tx_id h))
  unfolding create_envelope
  create_envelope-IsSigned signer hdr contents =
      let payload = env.marshal_payload hdr contents in
      Triple-call _
        (λ r h. I h × ((s : Bytes) → r ≡ ok s → Occurs (signed signer payload (ok s)) h))
        (λ h p. (plain _ refl h p, λ s x. Occurs-answer (signed signer payload) _ _ h x))
        λ r.
          Triple-check r (λ _ _. Triple-pure _ (λ h p. (p.0, λ e x. cc)))
            λ s x. Triple-pure _ (λ h p. (
              p.0,
              λ e y.
                  subst (λ e'. IsSigned env e' hdr.tx_id h) (ok_injective y)
                    (signed_as signer hdr contents refl refl (p.1 s x)),
            ))

  create_signed_envelope-IsSigned :
      (signer : Ref) (channel : String) (tx : Tx)
      → Triple I
          (create_signed_envelope env signer channel tx)
          (λ r h. I h × ((e : Envelope × String) → r ≡ ok e → IsSigned env e.0 e.1 h))
  unfolding create_signed_envelope
  create_signed_envelope-IsSigned signer channel tx =
      Triple-call _ (λ _. I) (λ h p. plain _ refl h p)
        λ sig_hdr.
          Triple-call _ (λ _. I) (λ h p. plain _ refl h p)
            λ got.
              Triple-check got (λ _ _. Triple-pure _ (λ h p. (p, λ e x. cc)))
                λ creator _.
                  Triple-check (env.unmarshal_identity creator)
                    (λ _ _. Triple-pure _ (λ h p. (p, λ e x. cc)))
                    λ sid _.
                      Triple-invoke (λ _. I) (Triple-endorse env I plain signer sid _ tx.namespaces)
                        λ endorsed.
                          Triple-check endorsed (λ _ _. Triple-pure _ (λ h p. (p, λ e x. cc)))
                            λ endorsements _.
                              Triple-invoke _ (create_envelope-IsSigned signer _ _) λ made.
                                Triple-check made (λ _ _. Triple-pure _ (λ h p. (p.0, λ e x. cc)))
                                  λ e x. Triple-pure _ (λ h p. (
                                    p.0,
                                    λ e' y.
                                        subst (λ d. IsSigned env d.0 d.1 h) (ok_injective y)
                                          (p.1 e x),
                                  ))

  module _
      (sends : (abc : Ref) (e : Envelope) (r : Outcome (Unit {0})) → Keeps I (sent abc e r)) where
    broadcast_on-IsAccepted :
        (conn : Ref) (e : Envelope)
        → Triple I (broadcast_on env conn e) (λ r h. I h × (r ≡ ok tt → IsAccepted env e h))
    unfolding broadcast_on
    broadcast_on-IsAccepted conn e =
        Triple-call _ (λ _. I) (λ h p. plain _ refl h p)
          λ opened.
            Triple-check opened (λ _ _. Triple-pure _ (λ h p. (p, λ x. cc)))
              λ abc _.
                Triple-call (sent abc e) (λ r h. I h × (r ≡ ok tt → Occurs (sent abc e (ok tt)) h))
                  (λ h p. (sends _ _ _ h p, λ x. Occurs-answer (sent abc e) _ _ h x))
                  λ sending.
                    Triple-check sending (λ _ _. Triple-pure _ (λ h p. (p.0, λ x. cc)))
                      λ u x.
                        Triple-call (received abc)
                          (λ r h. I h × Occurs (sent abc e (ok tt)) h × Occurs (received abc r) h)
                          (λ h p. (plain _ refl h p.0, before (p.1 x), last))
                          λ answer.
                            Triple-check answer (λ _ _. Triple-pure _ (λ h p. (p.0, λ y. cc)))
                              λ status y.
                                Triple-if (nat_eq status env.success)
                                  (λ b. Triple-pure _ (λ h p. (
                                    p.0,
                                    λ _.
                                        accepted abc status p.1
                                          (subst (λ a. Occurs (received abc a) h) y p.2) b,
                                  )))
                                  (λ _. Triple-pure _ (λ h p. (p.0, λ z. cc)))

    broadcast-IsAccepted :
        (ns : ChainNamespace) (e : Envelope)
        → Triple I (broadcast env ns e) (λ r h. I h × (r ≡ ok tt → IsAccepted env e h))
    unfolding broadcast
    broadcast-IsAccepted ns e =
        Triple-invoke (λ _. I) (Triple-secure_options env I plain (tls_ref ns.spec.tls))
          λ options.
            Triple-check options (λ _ _. Triple-pure _ (λ h p. (p, λ x. cc)))
              λ opts _.
                Triple-call _ (λ _. I) (λ h p. plain _ refl h p)
                  λ dialing.
                    Triple-check dialing (λ _ _. Triple-pure _ (λ h p. (p, λ x. cc)))
                      λ conn _.
                        Triple-deferred _ _ (broadcast_on-IsAccepted conn e)
                          (λ r h p. (plain _ refl h p.0, λ x. IsAccepted-before _ (p.1 x)))

module _ (env : Env) where
  abbrev T : List Event → Type 0
  T = Truthful env

  pub Truthful-plain : (e : Event) → is_plain e ≡ true → Keeps T e
  Truthful-plain (updated_status i r) b h p = cc
  Truthful-plain _ b h p = (tt, p)

  abbrev WithSigned : Envelope → String → List Event → Type 0
  WithSigned e t h = T h × IsSigned env e t h

  abbrev pub Deploys : Outcome String → List Event → Type 0
  Deploys r h = T h × ((t : String) → r ≡ ok t → Confirmed env t h)

  broadcast-Confirmed :
      (ns : ChainNamespace) (e : Envelope) (t : String)
      → Triple (WithSigned e t) (broadcast env ns e) (λ r h. T h × (r ≡ ok tt → Confirmed env t h))
  broadcast-Confirmed ns e t = record {
    at = λ h p.
        let q =
          (broadcast-IsAccepted env (WithSigned e t)
              (λ d b h' p'. (Truthful-plain d b h' p'.0, IsSigned-before d p'.1))
              (λ abc d r h' p'. ((tt, p'.0), IsSigned-before _ p'.1)) ns e).at
            h p in
        (q.0.0, λ x. confirmed e q.0.1 (q.1 x));
  }

  submit-Deploys :
      (ns : ChainNamespace) (sid : Ref) (key : Bytes) → Triple T (submit env ns sid key) Deploys
  unfolding submit
  submit-Deploys ns sid key =
      Triple-invoke _
        (create_signed_envelope-IsSigned env T Truthful-plain sid (channel_of ns)
          (create_namespaces_tx env "ECDSA" key ns.spec.name ns.spec.version))
        λ r.
          Triple-check r (λ _ _. Triple-pure _ (λ h p. (p.0, λ t x. cc)))
            λ e x.
              Triple-invoke _
                (Triple-weaken (λ h p. (p.0, p.1 e x)) (broadcast-Confirmed ns e.0 e.1))
                λ b.
                  Triple-check b (λ _ _. Triple-pure _ (λ h p. (p.0, λ t y. cc)))
                    λ _ y. Triple-pure _ (λ h p.
                      (p.0, λ t z. subst (λ t'. Confirmed env t' h) (ok_injective z) (p.1 y)))

  pub deploy_namespace-Deploys : (ns : ChainNamespace) → Triple T (deploy_namespace env ns) Deploys
  unfolding deploy_namespace
  deploy_namespace-Deploys ns =
      Triple-check (validate_namespace ns) (λ _ _. stop _)
        λ _ _.
          Triple-call _ (λ _. T) (λ h p. (tt, p))
            λ made.
              Triple-check made (λ _ _. stop _)
                λ dir _.
                  Triple-invoke (λ _. T)
                    (Triple-setup_msp_from_identity env T Truthful-plain ns.spec.identity dir)
                    λ set_up.
                      Triple-check set_up (λ _ _. stop _)
                        λ m _.
                          Triple-call _ (λ _. T) (λ h p. (tt, p))
                            λ got.
                              Triple-check got (λ _ _. stop _)
                                λ sid _.
                                  Triple-invoke (λ _. T)
                                    (Triple-policy_key env T Truthful-plain ns sid)
                                    λ found.
                                      Triple-check found (λ _ _. stop _)
                                        λ pem _.
                                          Triple-check (get_pub_key_from_pem_data env pem)
                                            (λ _ _. stop _) (λ key _. submit-Deploys ns sid key)
    where
      stop : (e : GoError) → Triple T (pure {E = Event} (err e)) Deploys
      stop e = Triple-pure _ (λ h p. (p, λ t x. cc))
