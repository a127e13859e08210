-- ===== src/Resource/Errors.antt =====
-- pkg/resource/errors.go and dependency.go: the texts of the errors. How several errors are joined is
-- the argument `aggregate`: apimachinery does it.
use jpl.Base.{Str, codes, List, [], ◌∷◌, ◌++◌, ite, map, str_discrete}
use jpl.Remote.{Error, other_reason}
use jpl.Resource.Object.{ObjectMetadata, Dependency}
use jpl.Resource.Depends.{
  DependsError, unexpected_string, unexpected_field_composition, missing_resource_kind,
  missing_resource_name,
}
use jpl.Resource.Build.{BuildError, invalid_annotation, external_dependency}

abbrev slashed : Str → Str → Str
slashed first second = first ++ (b'/' ∷ second)

-- formatObjectMetadata
pub format_object_metadata : ObjectMetadata → Str
format_object_metadata m =
    ite (str_discrete m.group []) m.kind (slashed m.group m.kind)
    ++ (b' ' ∷ ite (str_discrete m.namespace []) m.name (slashed m.namespace m.name))

-- The errors of parseDependencyObjectMetadata and formatDependencyObjectMetadata.
depends_error_text : DependsError → Str
depends_error_text (unexpected_string text) =
    codes "unexpected string as namespaced resource: " ++ text
depends_error_text (unexpected_field_composition text) =
    codes "unexpected field composition: " ++ text
depends_error_text missing_resource_kind = codes "invalid object metadata: missing resource kind"
depends_error_text missing_resource_name = codes "invalid object metadata: missing resource name"

from_to : Dependency → Str
from_to d =
    codes "from "
    ++ (format_object_metadata d.from ++ (codes " to " ++ format_object_metadata d.to))

-- unmarshalDepedenciesString wraps its error; ExternalDependencyError.Error
pub build_error_text : BuildError → Str
build_error_text (invalid_annotation e) =
    codes "failed to parse object reference: " ++ depends_error_text e
build_error_text (external_dependency d) = codes "external dependency " ++ from_to d

cyclic_lines : List Dependency → Str
cyclic_lines [] = []
cyclic_lines (d ∷ ds) = codes "\n- " ++ (from_to d ++ cyclic_lines ds)

-- CyclicDependencyError.Error
pub cyclic_dependency_error : List Dependency → Error
cyclic_dependency_error ds = record {
  text = codes "cyclical dependencies:" ++ cyclic_lines ds;
  reason = other_reason;
}

-- The error of NewDependencyGraph.
pub aggregate_error : (List Str → Str) → List BuildError → Error
aggregate_error aggregate errors = record {
  text = aggregate (map (λ e. build_error_text e) errors);
  reason = other_reason;
}
