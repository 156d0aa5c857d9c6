-- ===== src/Api/Nil.antt =====
-- Slices and maps that the code compares with nil, and values that it only passes on.
use fabric_x_operator.Prelude.{String, Option, none, some, List, ◌==◌, if◌then◌else◌}
use fabric_x_operator.Go.{ℤ, is_zero, GoMap}

-- `[]T`, where none is nil: a slice with no elements need not be nil.
abbrev pub Slice : Type 0 → Type 0
Slice T = Option (List T)

-- `map[string]T`, where none is nil.
abbrev pub MapOrNil : Type 0 → Type 0
MapOrNil T = Option (GoMap T)

-- A Kubernetes value that is only copied, such as `corev1.ResourceRequirements` or
-- `corev1.EnvVar`, by its JSON text.
abbrev pub Json : Type 0
Json = String

-- `if config.X != nil { spec.X = config.X }`
abbrev pub or_else : {T : Type 0} → Option T → Option T → Option T
or_else none old = old
or_else (some new) old = some new

-- `if config.Replicas != 0 { spec.Replicas = config.Replicas }`
abbrev pub or_nonzero : ℤ → ℤ → ℤ
or_nonzero new old = if is_zero new then old else new

-- `if s == "" { s = default }`
abbrev pub or_default : String → String → String
or_default s default = if s == "" then default else s

-- What a loop over the slice meets.
abbrev pub elements : {T : Type 0} → Slice T → List T
elements none = List.[]
elements (some ts) = ts
