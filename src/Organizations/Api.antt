-- ===== src/Organizations/Api.antt =====
-- The calls of langfuse.Client that the organization controller makes, over the state `S` of the Langfuse instance.
use langfuse_operator.Common.{String, List}
use langfuse_operator.Langfuse.{Organization, OrgMember, ApiKeyPair, Reply}
use langfuse_operator.Langfuse.Action.{Action}

pub record OrgApi (S : Type 0) : Type 0 where
  pub list_organizations : S → Reply (List Organization)
  pub get_organization : String → S → Reply Organization
  pub create_organization : String → Action S Organization
  pub update_organization : String → String → Action S Organization
  pub delete_organization : String → Action S (Unit {0})
  pub list_org_members : String → S → Reply (List OrgMember)
  pub add_org_member : String → String → String → Action S OrgMember
  pub update_org_member_role : String → String → String → Action S (Unit {0})
  pub remove_org_member : String → String → Action S (Unit {0})
  pub create_organization_api_key : String → String → Action S ApiKeyPair
