-- ===== src/Kube.antt =====
-- Kubernetes objects, as far as the operator reads and writes them, and what it takes from
-- controller-runtime and Go's x509 and pem packages, which are parameters.
use fabric_x_operator.Prelude.{ℕ, String, ◌≡◌, Bool, true, false, Option, List}
use fabric_x_operator.Go.{Bytes, GoMap, Outcome}

-- `metav1.Time`, `time.Time`: an instant, in seconds.
abbrev pub Time : Type 0
Time = ℕ

-- `types.NamespacedName`
pub record NamespacedName : Type 0 where
  pub name : String
  pub namespace : String

-- `metav1.OwnerReference`
pub record OwnerReference : Type 0 where
  pub api_version : String
  pub kind : String
  pub name : String
  pub uid : String
  pub controller : Option Bool

-- `metav1.ObjectMeta`; `deleted` says that `DeletionTimestamp` is set.
pub record ObjectMeta : Type 0 where
  pub name : String
  pub namespace : String
  pub labels : GoMap String
  pub finalizers : List String
  pub uid : String
  pub owners : List OwnerReference
  pub deleted : Bool
  pub generation : ℕ

abbrev pub key_of : ObjectMeta → NamespacedName
key_of m = record { name = m.name; namespace = m.namespace }

-- A reference to an object of a kind, as its controller.
abbrev pub owner_reference : String → String → ObjectMeta → OwnerReference
owner_reference api_version kind m = record {
  api_version = api_version;
  kind = kind;
  name = m.name;
  uid = m.uid;
  controller = Option.some true;
}

-- The metadata of an object literal that gives name, namespace and labels.
abbrev pub new_meta : String → String → GoMap String → ObjectMeta
new_meta name namespace labels = record {
  name = name;
  namespace = namespace;
  labels = labels;
  finalizers = List.[];
  uid = "";
  owners = List.[];
  deleted = false;
  generation = 0;
}

-- `corev1.Secret`; `contents` is its `Data`.
pub record Secret : Type 0 where
  pub meta : ObjectMeta
  pub type : String
  pub contents : GoMap Bytes

-- `ctrl.Result`, beside the error that a reconciler returns.
pub record CtrlResult : Type 0 where
  pub requeue_after : Option Time

abbrev pub done : CtrlResult
done = record { requeue_after = Option.none }

-- The functions of controllerutil that the reconcilers call.
pub record ControllerUtil : Type 0 where
  pub contains_finalizer : ObjectMeta → String → Bool
  pub add_finalizer : ObjectMeta → String → ObjectMeta
  pub remove_finalizer : ObjectMeta → String → ObjectMeta
  pub set_controller_reference : ObjectMeta → ObjectMeta → Outcome ObjectMeta

-- What their documentation says of finalizers.
pub record FinalizerLaws (u : ControllerUtil) : Type 0 where
  pub contains-add :
      (m : ObjectMeta) (f : String) → u.contains_finalizer (u.add_finalizer m f) f ≡ true
  pub contains-remove :
      (m : ObjectMeta) (f : String) → u.contains_finalizer (u.remove_finalizer m f) f ≡ false

-- The removal of a finalizer leaves the namespace of the object as it is.
abbrev pub KeepsNamespace : ControllerUtil → Type 0
KeepsNamespace u = (m : ObjectMeta) (f : String) → (u.remove_finalizer m f).namespace ≡ m.namespace

-- `x509.Certificate`
pub record Certificate : Type 0 where
  pub raw : Bytes
  pub not_after : Time

-- `pem.Block`
pub record PemBlock : Type 0 where
  pub type : String
  pub bytes : Bytes

-- The functions of encoding/pem and crypto/x509 that the reconcilers call.
pub record Pki : Type 0 where
  pub decode : Bytes → Option (PemBlock × Bytes)
  pub encode : PemBlock → Bytes
  pub parse_certificate : Bytes → Outcome Certificate

-- The client decodes the server's answer into the object that was sent, unless the call failed.
abbrev pub answered : {T : Type 0} → T → Outcome T → T
answered sent (Outcome.ok stored) = stored
answered sent (Outcome.err e) = sent
