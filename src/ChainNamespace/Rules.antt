-- ===== src/ChainNamespace/Rules.antt =====
-- Rules of the program logic for the parts of a deployment, for any invariant that their events
-- keep.
use fabric_x_operator.Prelude.{
  String, ◌≡◌, refl, not, ◌&&◌, Bool, true, false, Option, none, some, List, [], ◌∷◌, ◌==◌,
}
use fabric_x_operator.Go.{Bytes}
use fabric_x_operator.Go.Triple.{
  Triple, Triple-pure, Triple-if, Triple-call, Triple-check, Triple-invoke,
}
use fabric_x_operator.Go.Act.{pure}
use fabric_x_operator.Identity.Types.{Identity}
use fabric_x_operator.ChainNamespace.Types.{
  Ref, ChainNamespace, SecretKeyRef, TxNamespace, SerializedIdentity,
}
use fabric_x_operator.ChainNamespace.Env.{Env, Event, updated_status, sent}
use fabric_x_operator.ChainNamespace.Msp.{
  get_secret_data, initialize_msp, make_dirs, write, copy_credential, fill_msp, open_msp,
  setup_msp_from_identity,
}
use fabric_x_operator.ChainNamespace.Transaction.{extract_public_pem, endorse}
use fabric_x_operator.ChainNamespace.Broadcast.{secure_options}
use fabric_x_operator.ChainNamespace.Reconcile.{policy_key}

-- `I` is kept by an event `e`.
abbrev pub Keeps : (List Event → Type 0) → Event → Type 0
Keeps I e = (h : List Event) → I h → I (e ∷ h)

-- The events other than status updates and sends.
abbrev pub is_plain : Event → Bool
is_plain (updated_status i r) = false
is_plain (sent abc e r) = false
is_plain _ = true

module _ (env : Env) (I : List Event → Type 0)
    (plain : (e : Event) → is_plain e ≡ true → Keeps I e) where
  -- A call whose error ends the function.
  stop : {R : Type 0} (r : R) → Triple I (pure {E = Event} r) (λ _. I)
  stop r = Triple-pure r (λ h p. p)

  get_secret_data-keeps :
      (name namespace key : String) → Triple I (get_secret_data env name namespace key) (λ _. I)
  unfolding get_secret_data
  get_secret_data-keeps name namespace key =
      Triple-if (name == "") (λ _. stop _)
        λ _.
          Triple-call _ (λ _. I) (λ h p. plain _ refl h p)
            λ got. Triple-check got (λ _ _. stop _) (λ _ _. stop _)

  write-keeps :
      (what path : String) (contents : Bytes) → Triple I (write env what path contents) (λ _. I)
  unfolding write
  write-keeps what path contents =
      Triple-call _ (λ _. I) (λ h p. plain _ refl h p)
        λ wrote. Triple-check wrote (λ _ _. stop _) (λ _ _. stop _)

  copy_credential-keeps :
      (name namespace key what file_what path : String)
      → Triple I (copy_credential env name namespace key what file_what path) (λ _. I)
  unfolding copy_credential
  copy_credential-keeps name namespace key what file_what path =
      Triple-invoke (λ _. I) (get_secret_data-keeps name namespace key)
        λ got. Triple-check got (λ _ _. stop _) (λ contents _. write-keeps file_what path contents)

  make_dirs-keeps : (dirs : List String) → Triple I (make_dirs env dirs) (λ _. I)
  unfolding make_dirs
  make_dirs-keeps [] = stop _
  make_dirs-keeps (dir ∷ dirs) =
      Triple-call _ (λ _. I) (λ h p. plain _ refl h p)
        λ made. Triple-check made (λ _ _. stop _) (λ _ _. make_dirs-keeps dirs)

  fill_msp-keeps :
      (name namespace path : String) → Triple I (fill_msp env name namespace path) (λ _. I)
  unfolding fill_msp
  fill_msp-keeps name namespace path =
      Triple-invoke (λ _. I)
        (make_dirs-keeps
          (env.join path "signcerts" ∷ env.join path "keystore" ∷ env.join path "cacerts" ∷ []))
        λ made.
          Triple-check made (λ _ _. stop _)
            λ _ _.
              Triple-invoke (λ _. I) (copy_credential-keeps name namespace _ "sign certificate" _ _)
                λ cert.
                  Triple-check cert (λ _ _. stop _)
                    λ _ _.
                      Triple-invoke (λ _. I) (copy_credential-keeps name namespace _ "sign key" _ _)
                        λ key.
                          Triple-check key (λ _ _. stop _)
                            λ _ _.
                              Triple-invoke (λ _. I)
                                (copy_credential-keeps name namespace _ "CA certificate" _ _)
                                λ ca. Triple-check ca (λ _ _. stop _) (λ _ _. write-keeps _ _ _)

  initialize_msp-keeps : (path msp_id : String) → Triple I (initialize_msp env path msp_id) (λ _. I)
  unfolding initialize_msp
  initialize_msp-keeps path msp_id =
      Triple-call _ (λ _. I) (λ h p. plain _ refl h p)
        λ got.
          Triple-check got (λ _ _. stop _)
            λ conf _.
              Triple-call _ (λ _. I) (λ h p. plain _ refl h p)
                λ store.
                  Triple-check store (λ _ _. stop _)
                    λ ks _.
                      Triple-call _ (λ _. I) (λ h p. plain _ refl h p)
                        λ provider.
                          Triple-check provider (λ _ _. stop _)
                            λ cp _.
                              Triple-call _ (λ _. I) (λ h p. plain _ refl h p)
                                λ made.
                                  Triple-check made (λ _ _. stop _)
                                    λ m _.
                                      Triple-call _ (λ _. I) (λ h p. plain _ refl h p)
                                        λ ready. Triple-check ready (λ _ _. stop _) (λ _ _. stop _)

  open_msp-keeps :
      (i : Identity) (namespace dir : String) → Triple I (open_msp env i namespace dir) (λ _. I)
  unfolding open_msp
  open_msp-keeps i namespace dir =
      Triple-invoke (λ _. I) (fill_msp-keeps _ namespace _)
        λ filled.
          Triple-check filled (λ _ _. stop _)
            λ _ _.
              Triple-invoke (λ _. I) (initialize_msp-keeps _ i.spec.msp_id)
                λ m. Triple-check m (λ _ _. stop _) (λ _ _. stop _)

  pub Triple-setup_msp_from_identity :
      (ref : SecretKeyRef) (dir : String) → Triple I (setup_msp_from_identity env ref dir) (λ _. I)
  unfolding setup_msp_from_identity
  Triple-setup_msp_from_identity ref dir =
      Triple-call _ (λ _. I) (λ h p. plain _ refl h p)
        λ got.
          Triple-check got (λ _ _. stop _)
            λ i _.
              Triple-if (not (i.status.status == "Ready") && not (i.status.status == "READY"))
                (λ _. stop _) (λ _. open_msp-keeps i ref.namespace dir)

  pub Triple-policy_key :
      (ns : ChainNamespace) (sid : Ref) → Triple I (policy_key env ns sid) (λ _. I)
  unfolding policy_key extract_public_pem
  Triple-policy_key ns sid =
      Triple-if (not (ns.spec.verification_key_path == ""))
        (λ _.
          Triple-call _ (λ _. I) (λ h p. plain _ refl h p)
            λ got. Triple-check got (λ _ _. stop _) (λ _ _. stop _))
        λ _.
          Triple-invoke (λ _. I)
            (Triple-call _ (λ _. I) (λ h p. plain _ refl h p)
              λ got.
                Triple-check got (λ _ _. stop _)
                  λ b _. Triple-check (env.unmarshal_identity b) (λ _ _. stop _) (λ _ _. stop _))
            λ pem. Triple-check pem (λ _ _. stop _) (λ _ _. stop _)

  pub Triple-endorse :
      (signer : Ref) (sid : SerializedIdentity) (tx_id : String) (nss : List TxNamespace)
      → Triple I (endorse env signer sid tx_id nss) (λ _. I)
  unfolding endorse
  Triple-endorse signer sid tx_id [] = stop _
  Triple-endorse signer sid tx_id (ns ∷ rest) =
      Triple-check (env.asn1_marshal ns tx_id) (λ _ _. stop _)
        λ msg _.
          Triple-call _ (λ _. I) (λ h p. plain _ refl h p)
            λ answer.
              Triple-check answer (λ _ _. stop _)
                λ sig _.
                  Triple-invoke (λ _. I) (Triple-endorse signer sid tx_id rest)
                    λ others. Triple-check others (λ _ _. stop _) (λ _ _. stop _)

  pub Triple-secure_options :
      (ref : Option SecretKeyRef) → Triple I (secure_options env ref) (λ _. I)
  unfolding secure_options
  Triple-secure_options none = stop _
  Triple-secure_options (some ref) =
      Triple-invoke (λ _. I) (get_secret_data-keeps ref.name ref.namespace ref.key)
        λ got. Triple-check got (λ _ _. stop _) (λ _ _. stop _)
