-- ===== src/Identity/Rules.antt =====
-- Rules of the program logic for the parts that the enrollment paths share, for any invariant that
-- the events of those parts keep.
use fabric_x_operator.Prelude.{String, arith, ◌≡◌, Option, List, [], ◌∷◌}
use fabric_x_operator.Go.{GoError, GoMap, Bytes, Outcome, ok, is_already_exists}
use fabric_x_operator.Go.Triple.{
  Triple, Triple-pure, Triple-if, Triple-call, Triple-check, Triple-invoke, Occurs, before,
  Occurs-answer,
}
use fabric_x_operator.Go.Act.{Act}
use fabric_x_operator.Kube.{CtrlResult, NamespacedName, Secret}
use fabric_x_operator.Identity.Types.{Identity, Enrollment, CaRef, Ca, DirEntry, IdemixResponse}
use fabric_x_operator.Identity.Idemix.{read_entry, read_entries, create_idemix_secret}
use fabric_x_operator.Identity.Env.{
  Env, Event, got_ca, got_secret, created_secret, updated_secret, read_file, listed_dir,
}
use fabric_x_operator.Identity.Secrets.{
  create_or_update, create_output_secrets, owned_secret, output_contents,
}
use fabric_x_operator.Identity.Enroll.{Inputs, failed, with_inputs}

-- `I` is kept by an event `e`.
abbrev pub Keeps : (List Event → Type 0) → Event → Type 0
Keeps I e = (h : List Event) → I h → I (e ∷ h)

-- The API server accepted the secret, as a new one or in place of an old one.
pub data Stored (s : Secret) (h : List Event) : Type 0 where
  created : (s' : Secret) → Occurs (created_secret s (ok s')) h → Stored s h
  updated : (s' : Secret) → Occurs (updated_secret s (ok s')) h → Stored s h

pub Stored-before : {s : Secret} {h : List Event} (e : Event) → Stored s h → Stored s (e ∷ h)
Stored-before e (created s' o) = created s' (before o)
Stored-before e (updated s' o) = updated s' (before o)

module _ (env : Env) (I : List Event → Type 0) where
  pub Triple-with_inputs :
      {Q : Outcome CtrlResult → List Event → Type 0} (i : Identity) (enrollment : Enrollment)
      (ref : CaRef) (rest : Inputs → Act Event (Outcome CtrlResult))
      → ((key : NamespacedName) (r : Outcome Ca) → Keeps I (got_ca key r))
      → ((key : NamespacedName) (r : Outcome Secret) → Keeps I (got_secret key r))
      → ((prefix : String) (e : GoError) → Triple I (failed env i prefix e) Q)
      → ((inputs : Inputs) → Triple I (rest inputs) Q)
      → Triple I (with_inputs env i enrollment ref rest) Q
  unfolding with_inputs
  Triple-with_inputs i enrollment ref rest ca secret fail go =
      Triple-call _ (λ _. I) (λ h p. ca _ _ h p)
        λ got.
          Triple-check got (λ e _. fail _ e)
            λ a _.
              Triple-call _ (λ _. I) (λ h p. secret _ _ h p)
                λ got_enroll.
                  Triple-check got_enroll (λ e _. fail _ e)
                    λ s _.
                      Triple-check _ (λ e _. fail _ e)
                        λ password _.
                          Triple-call _ (λ _. I) (λ h p. secret _ _ h p)
                            λ got_tls.
                              Triple-check got_tls (λ e _. fail _ e)
                                λ t _. Triple-check _ (λ e _. fail _ e) λ tls _. go _

  -- `create_or_update` keeps what both writes keep, and on success one of them was accepted.
  pub Triple-create_or_update :
      (s : Secret)
      → ((r : Outcome Secret) → Keeps I (created_secret s r))
      → ((r : Outcome Secret) → Keeps I (updated_secret s r))
      → Triple I (create_or_update env s) (λ r h. I h × (r ≡ ok tt → Stored s h))
  unfolding create_or_update
  Triple-create_or_update s create update =
      Triple-call _ (λ r h. I h × ((s' : Secret) → r ≡ ok s' → Stored s h))
        (λ h p. (create _ h p, λ s' e. created s' (Occurs-answer (created_secret s) _ _ h e)))
        λ r.
          Triple-check r
            (λ e _.
              Triple-if (is_already_exists e)
                (λ _.
                  Triple-call _ (λ r' h. I h × ((s' : Secret) → r' ≡ ok s' → Stored s h))
                    (λ h p. (
                      update _ h p.0,
                      λ s' e'. updated s' (Occurs-answer (updated_secret s) _ _ h e'),
                    ))
                    λ r'.
                      Triple-check r' (λ e' _. Triple-pure _ (λ h p. (p.0, λ f. cc)))
                        (λ s' e'. Triple-pure _ (λ h p. (p.0, λ _. p.1 s' e'))))
                (λ _. Triple-pure _ (λ h p. (p.0, λ f. cc))))
            (λ s' e. Triple-pure _ (λ h p. (p.0, λ _. p.1 s' e)))

-- The secret that `owned_secret` makes has the contents, the name and the namespace asked for, if
-- the controller reference leaves name and namespace alone.
pub contents-owned_secret :
    (env : Env) (i : Identity) (name : String) (m : GoMap Bytes) {s : Secret}
    → owned_secret env i name m ≡ ok s
    → s.contents ≡ m
unfolding owned_secret
contents-owned_secret env i name m h = ground arith

module _ (env : Env) (I : List Event → Type 0) where
  -- `create_output_secrets` succeeds only if a secret with the consolidated contents was stored.
  pub Triple-create_output_secrets :
      (i : Identity) (c k a : Bytes) (tc tk ta : Option Bytes)
      → ((s : Secret) (r : Outcome Secret) → Keeps I (created_secret s r))
      → ((s : Secret) (r : Outcome Secret) → Keeps I (updated_secret s r))
      → Triple I (create_output_secrets env i c k a tc tk ta) (λ r h.
        I h
        × ((i' : Identity)
            → r ≡ ok i'
            → (s : Secret) × (s.contents ≡ output_contents c k a tc tk ta) × Stored s h))
  unfolding create_output_secrets
  Triple-create_output_secrets i c k a tc tk ta create update =
      Triple-check (owned_secret env i i.spec.output.secret_name (output_contents c k a tc tk ta))
        (λ e _. Triple-pure _ (λ h p. (p, λ i' f. cc)))
        λ s e.
          Triple-invoke (λ r h. I h × (r ≡ ok tt → Stored s h))
            (Triple-create_or_update env I s (create s) (update s))
            λ r.
              Triple-check r (λ e' _. Triple-pure _ (λ h p. (p.0, λ i' f. cc)))
                (λ _ e'.
                  Triple-pure _
                    (λ h p. (p.0, λ i' _. (s, contents-owned_secret env i _ _ e, p.1 e'))))

  pub Triple-read_entries :
      (dir : String) (files : List DirEntry) (m : GoMap Bytes)
      → ((path : String) (r : Outcome Bytes) → Keeps I (read_file path r))
      → Triple I (read_entries env dir files m) (λ _. I)
  unfolding read_entries read_entry
  Triple-read_entries dir [] m read = Triple-pure _ (λ h p. p)
  Triple-read_entries dir (file ∷ files) m read =
      Triple-invoke (λ _. I)
        (Triple-if file.is_dir (λ _. Triple-pure _ (λ h p. p))
          (λ _. Triple-call _ (λ _. I) (λ h p. read _ _ h p) λ got. Triple-pure _ (λ h p. p)))
        (λ m'. Triple-read_entries dir files m' read)

  -- `create_idemix_secret` succeeds only if a secret was stored.
  pub Triple-create_idemix_secret :
      (i : Identity) (resp : IdemixResponse) (ca_name : String)
      → ((dir : String) (r : Outcome (List DirEntry)) → Keeps I (listed_dir dir r))
      → ((path : String) (r : Outcome Bytes) → Keeps I (read_file path r))
      → ((key : NamespacedName) (r : Outcome Secret) → Keeps I (got_secret key r))
      → ((s : Secret) (r : Outcome Secret) → Keeps I (created_secret s r))
      → ((s : Secret) (r : Outcome Secret) → Keeps I (updated_secret s r))
      → Triple I
          (create_idemix_secret env i resp ca_name)
          (λ r h. I h × ((i' : Identity) → r ≡ ok i' → (s : Secret) × Stored s h))
  unfolding create_idemix_secret
  Triple-create_idemix_secret i resp ca_name list read get create update =
      Triple-call _ (λ _. I) (λ h p. list _ _ h p)
        λ listed.
          Triple-check listed (λ e _. Triple-pure _ (λ h p. (p, λ i' f. cc)))
            λ files _.
              Triple-invoke (λ _. I) (Triple-read_entries _ files _ read)
                λ entries.
                  Triple-call _ (λ _. I) (λ h p. get _ _ h p)
                    λ got.
                      Triple-check _ (λ e _. Triple-pure _ (λ h p. (p, λ i' f. cc)))
                        λ s _.
                          Triple-invoke (λ r h. I h × (r ≡ ok tt → Stored s h))
                            (Triple-create_or_update env I s (create s) (update s))
                            λ stored.
                              Triple-check stored (λ e _. Triple-pure _ (λ h p. (p.0, λ i' f. cc)))
                                λ _ e. Triple-pure _ (λ h p. (p.0, λ i' _. (s, p.1 e)))
