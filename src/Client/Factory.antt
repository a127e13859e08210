-- ===== src/Client/Factory.antt =====
-- pkg/util/factory.go: the client of a mapping. The defaults and the client are those of client-go.
use jpl.Base.{Str, codes, str_discrete, [], Option, some, if◌then◌else◌}
use jpl.Base.Sets.{is_same}
use jpl.Remote.{Outcome, ok, err}
use jpl.Resource.Object.{GroupVersionKind}

-- What UnstructuredClientForMapping sets in the configuration.
pub data ContentConfig : Type 0 where
  given_content : ContentConfig
  unstructured_plus_default : ContentConfig

pub record RestConfig : Type 0 where
  pub api_path : Str
  pub content_config : ContentConfig
  pub group_version : Option (Str × Str)

for_mapping : GroupVersionKind → RestConfig → RestConfig
for_mapping gvk cfg = record {
  api_path = if is_same str_discrete gvk.group [] then codes "/api" else codes "/apis";
  content_config = unstructured_plus_default;
  group_version = some (gvk.group, gvk.version);
}

module _ {C : Type 0} where
  client_with_defaults :
      (RestConfig → Outcome C) → GroupVersionKind → Outcome RestConfig → Outcome C
  client_with_defaults client_for gvk (err e) = err e
  client_with_defaults client_for gvk (ok cfg) = client_for (for_mapping gvk cfg)

  -- UnstructuredClientForMapping, with SetKubernetesDefaults and RESTClientFor.
  pub unstructured_client_for_mapping :
      (RestConfig → Outcome RestConfig)
      → (RestConfig → Outcome C)
      → Outcome RestConfig
      → GroupVersionKind
      → Outcome C
  unstructured_client_for_mapping defaults client_for (err e) gvk = err e
  unstructured_client_for_mapping defaults client_for (ok cfg) gvk =
      client_with_defaults client_for gvk (defaults cfg)
