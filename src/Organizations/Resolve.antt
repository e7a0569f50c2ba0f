-- ===== src/Organizations/Resolve.antt =====
-- resolveInstance, which the organization and the project controller share word for word, and
-- buildLangfuseClient.
use langfuse_operator.Common.{String, ◌==◌, ◌<>◌, quoted, text_at, none, some, List, if◌then◌else◌}
use langfuse_operator.Api.{Instance, ObjectReference, reference_namespace, SecretKeyRef}
use langfuse_operator.Client.{ApiError, is_not_found, Got, found, failed}
use langfuse_operator.Langfuse.{
  Failure, failure, in_context, of_api, Reply, replied, refused, bearer, LangfuseClient,
  instance_url,
}

-- The text of a types.NamespacedName.
abbrev pub object_key : String → String → String
object_key namespace name = namespace <> "/" <> name

-- `kind` is the kind of the object that is missing, unreadable or not ready.
abbrev pub unresolved : String → String → ApiError → Failure
unresolved kind key e =
    if is_not_found e.kind
    then failure (kind <> " " <> quoted key <> " not found")
    else failure ("fetching " <> kind <> " " <> quoted key <> ": " <> e.text)

-- The answer is that to the Get in the referenced namespace.
unfoldable pub resolve_instance :
    {C : Type 0} → ObjectReference → String → Got (Instance C) → Reply (Instance C)
unfolding reference_namespace
resolve_instance ref namespace (failed e) =
    refused
      (unresolved "LangfuseInstance" (object_key (reference_namespace ref namespace) ref.name) e)
resolve_instance ref namespace (found i) =
    if i.status.ready
    then replied i
    else refused (
        failure (
          "LangfuseInstance "
          <> quoted (object_key (reference_namespace ref namespace) ref.name)
          <> " is not ready"))

-- The Secret and the key in it that hold the admin API key.
unfoldable pub admin_key_ref : {C : Type 0} → Instance C → SecretKeyRef
admin_key_ref i = elim i.spec.auth.admin_api_key [
  | none ↦ record { name = i.name <> "-generated-secrets"; key = "admin-api-key" }
  | some v ↦ elim v.secret_ref [
    | none ↦ record { name = i.name <> "-generated-secrets"; key = "admin-api-key" }
    | some ref ↦ ref
  ]
]

-- The answer is that to the Get of the Secret.
unfoldable pub build_langfuse_client :
    {C : Type 0} → Instance C → Got (List (String × String)) → Reply LangfuseClient
unfolding admin_key_ref text_at
build_langfuse_client i (failed e) = refused (
    in_context
      ("getting admin API key secret " <> quoted (object_key i.namespace (admin_key_ref i).name))
      (of_api e))
build_langfuse_client i (found entries) =
    let ref = admin_key_ref i in
    let key = text_at entries ref.key in
    if key == ""
    then refused (
        failure (
          "admin API key secret "
          <> quoted (object_key i.namespace ref.name)
          <> " is missing key "
          <> quoted ref.key))
    else replied (record { base_url = instance_url i.name i.namespace; auth = bearer key })
