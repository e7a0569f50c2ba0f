-- ===== src/Examples/World.antt =====
-- A Langfuse instance with the keys of one project, and the Secrets of one namespace.
use langfuse_operator.Common.{
  ℕ, ◌+◌, String, ◌==◌, ◌<>◌, decimal, Option, none, some, List, [], ◌∷◌, ◌≡◌, if◌then◌else◌,
}
use langfuse_operator.Client.{ApiError, not_found, already_exists, Got, found, failed}
use langfuse_operator.Langfuse.{ApiKey, ApiKeyPair, failure, replied, refused}
use langfuse_operator.Langfuse.Action.{pure}
use langfuse_operator.Organizations.Api.{OrgApi}
use langfuse_operator.Projects.Api.{ProjectApi, SecretApi}
use langfuse_operator.Secrets.Generated.{Data}

pub record World : Type 0 where
  pub secrets : List (String × Data)
  pub keys : List ApiKey
  pub org_keys : ℕ

abbrev pub secret_in : List (String × Data) → String → Option Data
secret_in [] n = none
secret_in ((m, d) ∷ ss) n = if m == n then some d else secret_in ss n

unfoldable pub without : String → List (String × Data) → List (String × Data)
without n [] = []
without n ((m, d) ∷ ss) = if m == n then without n ss else (m, d) ∷ without n ss

abbrev pub no_secret : ApiError
no_secret = record { kind = not_found; text = "not found" }

abbrev pub there_already : ApiError
there_already = record { kind = already_exists; text = "already exists" }

abbrev pub answer : Option Data → Got Data
answer none = failed no_secret
answer (some d) = found d

unfoldable pub create_in : Option Data → String → Data → World → Option ApiError × World
create_in (some old) n d w = (some there_already, w)
create_in none n d w = (none, record w { secrets = (n, d) ∷ w.secrets })

abbrev pub demo_pair : String → ApiKeyPair
demo_pair note = record { id = note; public_key = note; secret_key = "sk" }

-- Each key of an organization is a new one.
abbrev pub org_pair : World → ApiKeyPair
org_pair w = demo_pair ("org-" <> decimal w.org_keys)

abbrev pub secret_api : SecretApi World
secret_api = record {
  get_secret = λ n w. answer (secret_in w.secrets n);
  create_secret = λ n d w. create_in (secret_in w.secrets n) n d w;
  delete_secret = λ n w. (none, record w { secrets = without n w.secrets });
}

abbrev pub project_api : ProjectApi World
project_api = record {
  list_projects = λ w. replied [];
  get_project = λ id w. refused (failure "API returned status 404");
  create_project = λ name. pure (record { id = "p1"; name = name });
  delete_project = λ id. pure tt;
  list_api_keys = λ id w. replied w.keys;
  create_api_key = λ id note w. (
    replied (demo_pair note),
    record w { keys = record { id = note; public_key = note } ∷ w.keys },
  );
  delete_api_key = λ id key. pure tt;
}

abbrev pub org_api : OrgApi World
org_api = record {
  list_organizations = λ w. replied [];
  get_organization = λ id w. refused (failure "API returned status 404");
  create_organization = λ name. pure (record { id = "o1"; name = name });
  update_organization = λ id name. pure (record { id = id; name = name });
  delete_organization = λ id. pure tt;
  list_org_members = λ id w. replied [];
  add_org_member = λ id email role. pure (record { id = email; email = email; role = role });
  update_org_member_role = λ id member role. pure tt;
  remove_org_member = λ id member. pure tt;
  create_organization_api_key =
      λ id note w. (replied (org_pair w), record w { org_keys = w.org_keys + 1 });
}

pub answer-found : (o : Option Data) (d : Data) → answer o ≡ found d → o ≡ some d
answer-found none d h = cc h
answer-found (some e) d h = cc h
