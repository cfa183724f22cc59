-- ===== src/Api/TemplateTypes.antt =====
-- api/v1beta1/latitudemachinetemplate_types.go
use cluster_api_provider_lat.Base.{List}
use cluster_api_provider_lat.Api.Meta.{ObjectMeta}
use cluster_api_provider_lat.Api.MachineTypes.{LatitudeMachineSpec}

pub record LatitudeMachineTemplateResource : Type 0 where
  pub spec : LatitudeMachineSpec

pub record LatitudeMachineTemplateSpec : Type 0 where
  pub template : LatitudeMachineTemplateResource

pub record LatitudeMachineTemplate : Type 0 where
  pub meta : ObjectMeta
  pub spec : LatitudeMachineTemplateSpec

-- The list, but for its metadata.
pub record LatitudeMachineTemplateList : Type 0 where
  pub items : List LatitudeMachineTemplate
