-- ===== src/Identity/IdemixOutputs.antt =====
-- The idemix secret, against the validation that later runs apply to it.
use Prim.Native.String.{◌++◌}
use fabric_x_operator.Prelude.{
  is_some, String, ◌≡◌, refl, true, Option, none, some, List, [], ◌∷◌, arith, eq_iff,
}
use fabric_x_operator.Go.{Bytes, GoMap, Outcome, ok, err, lookup, insert}
use fabric_x_operator.Go.Triple.{
  Triple, Triple-pure, Triple-if, Triple-fact, Triple-call, Triple-check, Triple-invoke, Each,
}
use fabric_x_operator.Identity.Rules.{Triple-create_or_update, contents-owned_secret}
use fabric_x_operator.Kube.{Secret}
use fabric_x_operator.Identity.Types.{IdemixResponse, Identity, SignerConfig, DirEntry}
use fabric_x_operator.Identity.Env.{Env, Event, created_secret, updated_secret}
use fabric_x_operator.Identity.Secrets.{
  idemix_secret_name, validate_contents, insert_present, create_or_update,
}
use fabric_x_operator.Identity.Idemix.{
  signer_fields, insert_non_empty, add_file, read_entry, read_entries, create_idemix_secret,
  signer_entries, add_issuer_keys,
}

abbrev Has : String → GoMap Bytes → Type 0
Has k m = is_some (lookup k m) ≡ true

-- Writing to a map keeps its keys.
Has-insert : (j k : String) (v : Bytes) (m : GoMap Bytes) → Has j m → Has j (insert k v m)
unfolding lookup insert
Has-insert j k v [] h = cc
Has-insert j k v ((i, w) ∷ m) h =
    ground (arith, eq_iff i k, eq_iff i j, eq_iff k j, Has-insert j k v m)

-- The two keys that the validation of an idemix secret looks for.
abbrev HasCredential : GoMap Bytes → Type 0
HasCredential m = Has "Cred" m × Has "Sk" m

HasCredential-insert :
    (k : String) (v : Bytes) (m : GoMap Bytes) → HasCredential m → HasCredential (insert k v m)
HasCredential-insert k v m (c, s) = (Has-insert "Cred" k v m c, Has-insert "Sk" k v m s)

HasCredential-insert_present :
    (k : String) (o : Option Bytes) (m : GoMap Bytes)
    → HasCredential m
    → HasCredential (insert_present k o m)
HasCredential-insert_present k none m h = h
HasCredential-insert_present k (some v) m h = HasCredential-insert k v m h

HasCredential-insert_non_empty :
    (k : String) (v : Bytes) (m : GoMap Bytes)
    → HasCredential m
    → HasCredential (insert_non_empty k v m)
HasCredential-insert_non_empty k [] m h = h
HasCredential-insert_non_empty k (x ∷ v) m h = HasCredential-insert k (x ∷ v) m h

signer_entries-HasCredential : (c : SignerConfig) → HasCredential (signer_entries c)
unfolding signer_entries lookup
signer_entries-HasCredential c =
    let fields = signer_fields c in
    let unit = c.organizational_unit_identifier in
    HasCredential-insert "role" c.role
      (insert_non_empty "organizational_unit_identifier" unit fields)
      (HasCredential-insert_non_empty "organizational_unit_identifier" unit fields (refl, refl))

add_issuer_keys-HasCredential :
    (got : Outcome Secret) (m : GoMap Bytes)
    → HasCredential m
    → HasCredential (add_issuer_keys got m)
unfolding add_issuer_keys
add_issuer_keys-HasCredential (err e) m h = h
add_issuer_keys-HasCredential (ok s) m h =
    let issuer = lookup "IssuerPublicKey" s.contents in
    HasCredential-insert_present "IssuerRevocationPublicKey"
      (lookup "IssuerRevocationPublicKey" s.contents) (insert_present "IssuerPublicKey" issuer m)
      (HasCredential-insert_present "IssuerPublicKey" issuer m h)

add_file-HasCredential :
    (name : String) (r : Outcome Bytes) (m : GoMap Bytes)
    → HasCredential m
    → HasCredential (add_file name r m)
add_file-HasCredential name (err e) m h = h
add_file-HasCredential name (ok v) m h = HasCredential-insert ("user-" ++ name) v m h

HasCredential-usable :
    (env : Env) (m : GoMap Bytes) → HasCredential m → validate_contents env true m ≡ ok tt
unfolding validate_contents
HasCredential-usable env m h = ground arith

-- A secret that is written passes the idemix validation.
abbrev pub IsUsable : Env → List Event → Event → Type 0
IsUsable env h (created_secret s r) = validate_contents env true s.contents ≡ ok tt
IsUsable env h (updated_secret s r) = validate_contents env true s.contents ≡ ok tt
IsUsable env h _ = Unit

module _ (env : Env) where
  abbrev Usable : List Event → Type 0
  Usable = Each (IsUsable env)

  read_entries-HasCredential :
      (dir : String) (files : List DirEntry) (m : GoMap Bytes)
      → HasCredential m
      → Triple Usable (read_entries env dir files m) (λ m' h. Usable h × HasCredential m')
  unfolding read_entries read_entry
  read_entries-HasCredential dir [] m c = Triple-pure _ (λ h p. (p, c))
  read_entries-HasCredential dir (file ∷ files) m c =
      Triple-invoke (λ m' h. Usable h × HasCredential m')
        (Triple-if file.is_dir (λ _. Triple-pure _ (λ h p. (p, c)))
          (λ _.
            Triple-call _ (λ _. Usable) (λ h p. (tt, p))
              λ got. Triple-pure _ (λ h p. (p, add_file-HasCredential file.name got m c))))
        (λ m'. record { at = λ h p. (read_entries-HasCredential dir files m' p.1).at h p.0 })

  create_or_update-Usable :
      (s : Secret)
      → validate_contents env true s.contents ≡ ok tt
      → Triple Usable (create_or_update env s) (λ _. Usable)
  create_or_update-Usable s v = record {
    at = λ h p.
        ((Triple-create_or_update env Usable s (λ r h p. (v, p)) (λ r h p. (v, p))).at h p).0;
  }

  run-Usable :
      (i : Identity) (resp : IdemixResponse) (ca_name : String)
      → Triple Usable (create_idemix_secret env i resp ca_name) (λ _. Usable)
  unfolding create_idemix_secret
  run-Usable i resp ca_name =
      Triple-call _ (λ _. Usable) (λ h p. (tt, p))
        λ listed.
          Triple-check listed (λ e _. Triple-pure _ (λ h p. p))
            λ files _.
              Triple-invoke (λ m h. Usable h × HasCredential m)
                (read_entries-HasCredential _ files _
                  (signer_entries-HasCredential resp.signer_config))
                λ entries. Triple-fact λ credential.
                  Triple-call _ (λ _. Usable) (λ h p. (tt, p))
                    λ got.
                      Triple-check _ (λ e _. Triple-pure _ (λ h p. p))
                        λ s e.
                          let contents = add_issuer_keys got entries in
                          Triple-invoke (λ _. Usable)
                            (create_or_update-Usable s (
                              rw (contents-owned_secret env i (idemix_secret_name i) contents e) (
                                HasCredential-usable env contents
                                  (add_issuer_keys-HasCredential got entries credential))))
                            λ stored.
                              Triple-check stored (λ _ _. Triple-pure _ (λ h p. p))
                                (λ _ _. Triple-pure _ (λ h p. p))

  -- Each secret that `createIdemixSecret` sends, whatever the signer configuration, the files of the
  -- idemix directory and the CA's secret hold, passes the validation that later runs apply to it.
  pub create_idemix_secret-IsUsable :
      (i : Identity) (resp : IdemixResponse) (ca_name : String)
      → Each (IsUsable env) (create_idemix_secret env i resp ca_name []).1
  create_idemix_secret-IsUsable i resp ca_name = (run-Usable i resp ca_name).at [] tt
