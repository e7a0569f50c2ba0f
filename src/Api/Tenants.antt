-- ===== src/Api/Tenants.antt =====
-- api/v1alpha1/langfuseorganization_types.go and langfuseproject_types.go.
use langfuse_operator.Common.{ℕ, String, ◌==◌, Bool, Option, List, if◌then◌else◌}

pub record ObjectReference : Type 0 where
  pub name : String
  pub namespace : String

-- The namespace defaults to that of the resource that refers.
unfoldable pub reference_namespace : ObjectReference → String → String
reference_namespace ref namespace = if ref.namespace == "" then namespace else ref.namespace

pub record OrganizationMemberSpec : Type 0 where
  pub email : String
  pub role : String

pub record OrganizationMembersSpec : Type 0 where
  pub managed_exclusively : Bool
  pub users : List OrganizationMemberSpec

pub record LangfuseOrganizationSpec : Type 0 where
  pub instance_ref : ObjectReference
  pub display_name : String
  pub members : OrganizationMembersSpec

pub record LangfuseOrganizationStatus (C : Type 0) : Type 0 where
  pub ready : Bool
  pub organization_id : String
  pub member_count : ℕ
  pub synced_members : ℕ
  pub project_count : ℕ
  pub conditions : C

-- `finalized` says that the operator's finalizer is in the list.
pub record LangfuseOrganization (C : Type 0) : Type 0 where
  pub name : String
  pub namespace : String
  pub generation : ℕ
  pub deleting : Bool
  pub finalized : Bool
  pub spec : LangfuseOrganizationSpec
  pub status : LangfuseOrganizationStatus C

pub record ApiKeySpec : Type 0 where
  pub name : String
  pub secret_name : String

pub record LangfuseProjectSpec : Type 0 where
  pub instance_ref : ObjectReference
  pub organization_ref : ObjectReference
  pub project_name : String
  pub api_keys : List ApiKeySpec

pub record ApiKeyStatus : Type 0 where
  pub name : String
  pub secret_name : String
  pub created : Bool
  pub last_rotated : Option ℕ

pub record LangfuseProjectStatus (C : Type 0) : Type 0 where
  pub ready : Bool
  pub project_id : String
  pub organization_id : String
  pub api_keys : List ApiKeyStatus
  pub conditions : C

-- `delete_on_remove` says that the annotation of this name is "true".
pub record LangfuseProject (C : Type 0) : Type 0 where
  pub name : String
  pub namespace : String
  pub generation : ℕ
  pub deleting : Bool
  pub finalized : Bool
  pub delete_on_remove : Bool
  pub spec : LangfuseProjectSpec
  pub status : LangfuseProjectStatus C
