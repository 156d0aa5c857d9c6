-- ===== src/Identity/Disabled.antt =====
-- An idemix part that is switched off: `handleEnrollment` looks only for the part and enrolls by
-- idemix, while the existence test of the next run also looks at `Enabled`.
use Prim.Native.String.{◌++◌}
use mathlib.Core.Path.{subst}
use fabric_x_operator.Prelude.{
  String, ◌≡◌, ◌≢◌, refl, sym, ◌∙◌, false, some, List, [], arith, eq_iff,
}
use fabric_x_operator.Go.{GoError, Bytes, GoMap, ok}
use fabric_x_operator.Go.Triple.{
  Triple, Triple-pure, Triple-call, Triple-check, Triple-invoke, Triple-deferred, Each,
}
use fabric_x_operator.Kube.{ObjectMeta, new_meta, Secret}
use fabric_x_operator.Identity.Types.{
  Identity, Status, Enrollment, IdemixEnrollment, IdemixResponse,
}
use fabric_x_operator.Identity.Env.{Env, Event, created_secret, updated_secret}
use fabric_x_operator.Identity.Secrets.{
  idemix_enabled, output_key, idemix_secret_name, owned_secret,
}
use fabric_x_operator.Identity.Status.{write_status, update_status, update_status_with_time}
use fabric_x_operator.Identity.Enroll.{Inputs, failed}
use fabric_x_operator.Identity.Reconcile.{create_materials}
use fabric_x_operator.Identity.Rules.{
  Stored, Triple-create_or_update, Triple-with_inputs, Triple-read_entries,
}
use fabric_x_operator.Go.Act.{if_nil}
use text.Mathlib.TextLemmas.{append_cancel_left, append-nil}
use mathlib.Core.Bool.{false≢true}
use fabric_x_operator.Identity.Idemix.{
  create_idemix_secret, enroll_in_dir, enroll_idemix_and_store, handle_idemix_enrollment,
  idemix_ca_ref,
}

idemix_name_differs : (s : String) → s ++ "-idemix" ≢ s
idemix_name_differs s e =
    let suffix : ◌≡◌ {A = String} "-idemix" "" =
      append_cancel_left s "-idemix" "" (e ∙ sym (append-nil s)) in
    false≢true ((eq_iff "-idemix" "").1 suffix)

-- The controller reference leaves the name of the object alone.
abbrev KeepsName : Env → Type 0
KeepsName env =
    (a b c : ObjectMeta) → env.util.set_controller_reference a b ≡ ok c → c.name ≡ b.name

name-owned_secret :
    (env : Env)
    → KeepsName env
    → (i : Identity) (name : String) (m : GoMap Bytes) (s : Secret)
    → owned_secret env i name m ≡ ok s
    → s.meta.name ≡ name
unfolding owned_secret
name-owned_secret env names i name m s o =
    ground (arith, names i.meta (new_meta name i.meta.namespace i.spec.output.labels) s.meta)

idemix_disabled :
    (i : Identity) (e : Enrollment) (x : IdemixEnrollment)
    → i.spec.enrollment ≡ some e
    → e.idemix ≡ some x
    → x.enabled ≡ some false
    → idemix_enabled i ≡ false
unfolding idemix_enabled
idemix_disabled i e x pe px pf = ground arith

-- A secret is written only under another name than this one.
abbrev pub IsNamedElse : String → List Event → Event → Type 0
IsNamedElse name h (created_secret s r) = s.meta.name ≢ name
IsNamedElse name h (updated_secret s r) = s.meta.name ≢ name
IsNamedElse name h _ = Unit

module _ (env : Env) (name : String) where
  abbrev Else : List Event → Type 0
  Else = Each (IsNamedElse name)

  write_status-Else :
      (change : Status → Status) (i : Identity)
      → Triple Else (write_status env change i) (λ _. Else)
  write_status-Else change i =
      Triple-call _ (λ _. Else) (λ h p. (tt, p))
        λ got.
          Triple-check got (λ _ _. Triple-pure _ (λ h p. p))
            λ fresh _.
              Triple-call _ (λ _. Else) (λ h p. (tt, p))
                λ written.
                  Triple-check written (λ _ _. Triple-pure _ (λ h p. p))
                    (λ _ _. Triple-pure _ (λ h p. p))

  failed-Else :
      (i : Identity) (prefix : String) (e : GoError)
      → Triple Else (failed env i prefix e) (λ _. Else)
  unfolding failed update_status
  failed-Else i prefix e = write_status-Else _ i

  module _ (names : KeepsName env) (i : Identity) (else : idemix_secret_name i ≢ name) where
    create_idemix_secret-Else :
        (resp : IdemixResponse) (ca_name : String)
        → Triple Else (create_idemix_secret env i resp ca_name) (λ _. Else)
    unfolding create_idemix_secret
    create_idemix_secret-Else resp ca_name =
        Triple-call _ (λ _. Else) (λ h p. (tt, p))
          λ listed.
            Triple-check listed (λ _ _. Triple-pure _ (λ h p. p))
              λ files _.
                Triple-invoke (λ _. Else)
                  (Triple-read_entries env Else _ files _ (λ f o h p. (tt, p)))
                  λ entries.
                    Triple-call _ (λ _. Else) (λ h p. (tt, p))
                      λ got.
                        Triple-check _ (λ _ _. Triple-pure _ (λ h p. p))
                          λ s o.
                            let differs : s.meta.name ≢ name =
                              λ q. else (sym (name-owned_secret env names i _ _ s o) ∙ q) in
                            Triple-invoke (λ r h. Else h × (r ≡ ok tt → Stored s h))
                              (Triple-create_or_update env Else s (λ r h p. (differs, p))
                                (λ r h p. (differs, p)))
                              λ stored.
                                Triple-check stored (λ _ _. Triple-pure _ (λ h p. p.0))
                                  (λ _ _. Triple-pure _ (λ h p. p.0))

    enroll_in_dir-Else :
        (enrollment : Enrollment) (idemix : IdemixEnrollment) (inputs : Inputs) (dir : String)
        → Triple Else (enroll_in_dir env i enrollment idemix inputs dir) (λ _. Else)
    unfolding enroll_in_dir update_status_with_time
    enroll_in_dir-Else enrollment idemix inputs dir =
        Triple-call _ (λ _. Else) (λ h p. (tt, p))
          λ wrote.
            Triple-check wrote (λ e _. failed-Else i _ e)
              λ _ _.
                Triple-call _ (λ _. Else) (λ h p. (tt, p))
                  λ r.
                    Triple-check r (λ e _. failed-Else i _ e)
                      λ resp _. Triple-invoke _ (create_idemix_secret-Else resp _) λ stored.
                        Triple-check stored (λ e _. failed-Else i _ e)
                          λ changed _.
                            Triple-call _ (λ _. Else) (λ h p. (tt, p))
                              λ now. write_status-Else _ changed

    handle_idemix_enrollment-Else :
        (enrollment : Enrollment) (idemix : IdemixEnrollment)
        → Triple Else (handle_idemix_enrollment env i enrollment idemix) (λ _. Else)
    unfolding handle_idemix_enrollment enroll_idemix_and_store
    handle_idemix_enrollment-Else enrollment idemix =
        Triple-with_inputs env Else i enrollment (idemix_ca_ref enrollment idemix)
          (enroll_idemix_and_store env i enrollment idemix) (λ k r h p. (tt, p))
          (λ k r h p. (tt, p)) (failed-Else i)
          λ inputs.
            Triple-call _ (λ _. Else) (λ h p. (tt, p))
              λ r.
                Triple-check r (λ e _. failed-Else i _ e)
                  λ dir _.
                    Triple-deferred _ (λ _. Else) (enroll_in_dir-Else enrollment idemix inputs dir)
                      (λ r' h p. (tt, p))

enrolls_by_idemix :
    (env : Env) (i : Identity) (e : Enrollment) (x : IdemixEnrollment)
    → i.spec.enrollment ≡ some e
    → e.idemix ≡ some x
    → create_materials env i ≡ handle_idemix_enrollment env i e x
unfolding create_materials if_nil
enrolls_by_idemix env i e x pe px = rw (pe, px) refl

-- Where the idemix part of an Identity is there and switched off (`Enabled` is a pointer to false),
-- every secret that its enrollment creates or updates has another name than the one that the next run
-- looks for. The controller reference is assumed to leave an object's name alone.
pub idemix_disabled_mismatch :
    (env : Env) (i : Identity) (e : Enrollment) (x : IdemixEnrollment)
    → i.spec.enrollment ≡ some e
    → e.idemix ≡ some x
    → x.enabled ≡ some false
    → KeepsName env
    → Each (IsNamedElse (output_key env i).name) (create_materials env i []).1
idemix_disabled_mismatch env i e x pe px pf names =
    let else : idemix_secret_name i ≢ (output_key env i).name =
      rw (idemix_disabled i e x pe px pf) (idemix_name_differs _) in
    subst (λ m. Each (IsNamedElse (output_key env i).name) (m []).1)
      (sym (enrolls_by_idemix env i e x pe px))
      ((handle_idemix_enrollment-Else env _ names i else e x).at [] tt)
