-- ===== src/Edge/Json.antt =====
-- The request bodies of internal/edge and json.Unmarshal of each; `none` is a decoding error.
use dockpal_agent.Base.{Bool, List, Option}
use dockpal_agent.Base.Bytes.{Bytes}

pub record DeployRequest : Type 0 where
  pub name : Bytes
  pub compose : Bytes
  pub registry_auths : List (Bytes × Bytes)

pub record PullRequest : Type 0 where
  pub image : Bytes
  pub registry_auth : Bytes

pub record WriteRequest : Type 0 where
  pub container : Bytes
  pub path : Bytes
  pub content : Bytes

pub record CreateRequest : Type 0 where
  pub name : Bytes
  pub compose : Bytes
  pub env : Bytes

pub record UpdateRequest : Type 0 where
  pub compose : Bytes
  pub env : Bytes

pub record StackDeployRequest : Type 0 where
  pub compose : Bytes
  pub env : Bytes
  pub is_add : Bool

pub record Json : Type 0 where
  pub edit : Bytes → Option Bytes
  pub deploy : Bytes → Option DeployRequest
  pub name : Bytes → Option Bytes
  pub pull : Bytes → Option PullRequest
  pub write : Bytes → Option WriteRequest
  pub content : Bytes → Option Bytes
  pub create : Bytes → Option CreateRequest
  pub update : Bytes → Option UpdateRequest
  pub stack_deploy : Bytes → Option StackDeployRequest
