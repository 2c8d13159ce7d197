-- ===== src/Domain.antt =====
-- internal/domain: the topology and the fact rows that the components exchange.
pub mod Allocation
pub mod Cluster
mod Tests
use Prim.Native.String.{String}
use kubernetes_cost_analyzer.Common.{Bool, true, false, Option, List}
use kubernetes_cost_analyzer.Common.Int.{ℤ}
use kubernetes_cost_analyzer.Clock.{Time}

pub record Node : Type 0 where
  pub name : String
  pub instance_type : String
  pub region : String
  pub zone : String
  pub capacity_type : String
  pub provider_id : String
  pub capacity_cpu_millicores : ℤ
  pub capacity_memory_bytes : ℤ
  pub allocatable_cpu_millicores : ℤ
  pub allocatable_memory_bytes : ℤ
  pub ready : Bool
  pub unschedulable : Bool
  pub kubelet_version : String
  pub created_at : Time

pub record Namespace : Type 0 where
  pub name : String
  pub team : String
  pub cost_centre : String
  pub environment : String
  pub labels : List (String × String)
  pub phase : String
  pub created_at : Time

-- `type ContainerKind string`, at its three constants; `other` is any other string.
pub data ContainerKind : Type 0 where
  regular sidecar initial : ContainerKind
  other : String → ContainerKind

unfoldable pub billable_kind : ContainerKind → Bool
billable_kind regular = true
billable_kind sidecar = true
billable_kind _ = false

pub record Container : Type 0 where
  pub name : String
  pub kind : ContainerKind
  pub requests_cpu_millicores : ℤ
  pub requests_memory_bytes : ℤ
  pub limits_cpu_millicores : ℤ
  pub limits_memory_bytes : ℤ

pub record Workload : Type 0 where
  pub kind : String
  pub name : String

pub record Pod : Type 0 where
  pub uid : String
  pub name : String
  pub namespace : String
  pub node_name : String
  pub phase : String
  pub qos_class : String
  pub workload : Workload
  pub requests_cpu_millicores : ℤ
  pub requests_memory_bytes : ℤ
  pub limits_cpu_millicores : ℤ
  pub limits_memory_bytes : ℤ
  pub container_count : ℤ
  pub containers : List Container
  pub labels : List (String × String)
  pub started_at : Option Time
  pub created_at : Time

pub record ContainerKey : Type 0 where
  pub namespace : String
  pub pod : String
  pub container : String

pub record Usage : Type 0 where
  pub cpu_millicores : ℤ
  pub memory_bytes : ℤ
  pub cpu_millicores_max : ℤ
  pub memory_bytes_max : ℤ
