-- ===== src/Secrets/Referenced.antt =====
-- collectReferencedSecretNames, findInstancesForSecret and patchDeploymentSecretHash.
use langfuse_operator.Common.{
  String, ◌==◌, ◌<>◌, text_lt, Bool, true, false, Option, none, some, List, [], ◌∷◌, ◌++◌, contains,
  when_some, if◌then◌else◌,
}
use langfuse_operator.Api.{
  SecretKeyRef, SecretKeysRef, OidcSpec, ClickHouseSpec, BlobStorageSpec, Instance,
}
use langfuse_operator.Client.{ApiError, is_not_found, wrap, Got, found, failed}
use langfuse_operator.Config.Env.{full_ref, generated_secret_name}

abbrev key_ref : Option SecretKeyRef → List String
key_ref o = when_some o (λ r. r.name ∷ [])

abbrev keys_ref : Option SecretKeysRef → List String
keys_ref o = when_some o (λ r. r.name ∷ [])

oidc_names : OidcSpec → List String
oidc_names o = key_ref o.client_id ++ key_ref o.client_secret

click_house_names : ClickHouseSpec → List String
click_house_names ch =
    when_some ch.external (λ e. e.secret_ref.name ∷ [])
    ++ when_some ch.managed (λ m. when_some m.auth keys_ref)

blob_names : BlobStorageSpec → List String
blob_names bs =
    when_some bs.s3 (λ s. keys_ref s.credentials)
    ++ (when_some bs.azure (λ a. keys_ref a.credentials)
        ++ when_some bs.gcs (λ g. keys_ref g.credentials))

-- What the function adds to its set, in its order.
unfoldable pub references : {C : Type 0} → Instance C → List String
unfolding oidc_names click_house_names blob_names generated_secret_name
references i =
    generated_secret_name i
    ∷ (key_ref (full_ref i.spec.auth.next_auth_secret)
        ++ (key_ref (full_ref i.spec.auth.salt)
            ++ (when_some i.spec.auth.oidc oidc_names
                ++ (when_some i.spec.auth.init_user (λ u. key_ref u.password)
                    ++ (when_some i.spec.database
                          (λ d. when_some d.external (λ e. e.secret_ref.name ∷ []))
                        ++ (when_some i.spec.click_house click_house_names
                            ++ (when_some i.spec.redis
                                  (λ r. when_some r.external (λ e. e.secret_ref.name ∷ []))
                                ++ (when_some i.spec.blob_storage blob_names
                                    ++ when_some i.spec.llm (λ l. key_ref l.api_key)))))))))

-- A name in its place of a sorted list without duplicates.
unfoldable pub insert_name : String → List String → List String
unfolding text_lt
insert_name n [] = n ∷ []
insert_name n (m ∷ ms) =
    let rest = insert_name n ms in
    if n == m then m ∷ ms else if text_lt n m then n ∷ m ∷ ms else m ∷ rest

-- The keys of the set, sorted.
unfoldable pub sort_names : List String → List String
unfolding insert_name
sort_names [] = []
sort_names (n ∷ ns) = insert_name n (sort_names ns)

unfoldable pub collect_referenced_secret_names : {C : Type 0} → Instance C → List String
unfolding references sort_names
collect_referenced_secret_names i = sort_names (references i)

-- The instances of the List, by name and namespace, that refer to the Secret.
unfoldable pub find_instances_for_secret :
    {C : Type 0} → String → List (Instance C) → List (String × String)
unfolding collect_referenced_secret_names
find_instances_for_secret secret [] = []
find_instances_for_secret secret (i ∷ rest) =
    let others = find_instances_for_secret secret rest in
    if contains secret (collect_referenced_secret_names i)
    then (i.namespace, i.name) ∷ others
    else others

-- The annotation that a Deployment gets, if it is patched, what the function reports and its error. `got` is
-- the current annotation, "" without one; `answer` is that to the Patch.
unfoldable pub patch_deployment_secret_hash :
    String → String → Got String → Option ApiError → Option String × Bool × Option ApiError
patch_deployment_secret_hash name hash (failed e) answer =
    if is_not_found e.kind
    then (none, false, none)
    else (none, false, some (wrap ("getting deployment " <> name) e))
patch_deployment_secret_hash name hash (found current) answer =
    if current == hash then (none, false, none) else elim answer [
      | some e ↦ (some hash, false, some (wrap ("patching deployment " <> name) e))
      | none ↦ (some hash, true, none)
    ]
