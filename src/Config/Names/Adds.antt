-- ===== src/Config/Names/Adds.antt =====
-- What a step of BuildConfig does to the variables.
use langfuse_operator.Common.{String, List, ◌++◌, ◌≡◌, refl, sym, Result, ok, err, ◌∙◌}
use mathlib.Core.List.{append_assoc}
use langfuse_operator.Config.Env.{Config, EnvVar, add_common, mount_secret}
use langfuse_operator.Config.Names.Fits.{Fits, Fits-append, Fits-append_none}

-- A step that only mounts volumes.
pub record Keeps (cfg r : Config) : Type 0 where
  pub common : r.common_env ≡ cfg.common_env
  pub web : r.web_env ≡ cfg.web_env
  pub worker : r.worker_env ≡ cfg.worker_env

pub no-Keeps : (cfg : Config) → Keeps cfg cfg
no-Keeps cfg = record { common = refl; web = refl; worker = refl }

pub mount-Keeps :
    (vol secret path : String) (items : List (String × String)) (cfg : Config)
    → Keeps cfg (mount_secret vol secret path items cfg)
unfolding mount_secret
mount-Keeps vol secret path items cfg = record { common = refl; web = refl; worker = refl }

pub trans-Keeps : {a b c : Config} → Keeps a b → Keeps b c → Keeps a c
trans-Keeps k l = record {
  common = l.common ∙ k.common;
  web = l.web ∙ k.web;
  worker = l.worker ∙ k.worker;
}

-- What a step leaves of the variables: it adds some of the given names to the common ones, in their
-- order, and keeps the ones of the two pods.
pub record Adds (ns : List String) (cfg r : Config) : Type 0 where
  pub common : (ms : List String) → Fits cfg.common_env ms → Fits r.common_env (ms ++ ns)
  pub web : r.web_env ≡ cfg.web_env
  pub worker : r.worker_env ≡ cfg.worker_env

unfoldable pub StepAdds : List String → Config → Result Config → Type 0
StepAdds ns cfg (ok r) = Adds ns cfg r
StepAdds ns cfg (err _) = Unit

-- The steps that are a plain append.
pub plain-Adds :
    {vs : List EnvVar} {ns : List String} (cfg : Config)
    → Fits vs ns
    → Adds ns cfg (add_common vs cfg)
plain-Adds cfg g = record { common = λ ms f. Fits-append f g; web = refl; worker = refl }

pub no-Adds : (ns : List String) (cfg : Config) → Adds ns cfg cfg
no-Adds ns cfg = record { common = λ ms f. Fits-append_none ns f; web = refl; worker = refl }

-- An append behind mounts.
pub mounted-Adds :
    {vs : List EnvVar} {ns : List String} {cfg c : Config}
    → Keeps cfg c
    → Fits vs ns
    → Adds ns cfg (add_common vs c)
mounted-Adds k g = record {
  common = λ ms f. rw k.common (Fits-append f g);
  web = k.web;
  worker = k.worker;
}

pub then-Adds :
    {ms ns : List String} {a b c : Config} → Adds ms a b → Adds ns b c → Adds (ms ++ ns) a c
then-Adds {ms} {ns} p q = record {
  common = λ ls f. rw (sym (append_assoc ls ms ns)) (q.common (ls ++ ms) (p.common ls f));
  web = q.web ∙ p.web;
  worker = q.worker ∙ p.worker;
}

pub then_step-Adds :
    {ms : List String} (ns : List String) {a b : Config} (r : Result Config)
    → Adds ms a b
    → StepAdds ns b r
    → StepAdds (ms ++ ns) a r
unfolding StepAdds
then_step-Adds ns (ok c) p q = then-Adds p q
then_step-Adds ns (err _) p q = tt
