-- ===== src/Identity/Refs.antt =====
-- References to an endpoint of a Secret, as text: two agree exactly when name and keys are the same.
use text.Mathlib.TextLemmas.{nil-append, cons-append, append_assoc, append_cancel_left}
use text.Mathlib.TextPositions.{eq_refl}
use langfuse_operator.Common.{
  String, ◌==◌, ◌<>◌, cut, split, lacks, lookup, true, false, [], ◌∷◌, ◌≡◌, ◌↔◌, refl, ap, ◌∙◌,
  arith, eq_iff, split_at_sep, split_last, cut_at_sep, lacks-append,
}
use langfuse_operator.Identity.Target.{secret_ref_text}
use langfuse_operator.Identity.Recorded.{split_ref, refs_agree}

-- What Kubernetes guarantees of a Secret's name and keys.
pub record IsRef (name url key : String) : Type 0 where
  pub name_hash : lacks b'#' ("secret/" <> name) ≡ true
  pub url_comma : lacks b',' url ≡ true
  pub url_eq : lacks b'=' url ≡ true
  pub key_comma : lacks b',' key ≡ true
  pub key_eq : lacks b'=' key ≡ true

hash-append : (x : String) → "#url=" <> x ≡ String.◌∷◌ "#" ("url=" <> x)
hash-append x = cons-append "#" "url=" x

comma-append : (x : String) → "," <> x ≡ String.◌∷◌ "," x
comma-append x = cons-append "," "" x ∙ ap (String.◌∷◌ ",") (nil-append x)

eq-append : (x : String) → "=" <> x ≡ String.◌∷◌ "=" x
eq-append x = cons-append "=" "" x ∙ ap (String.◌∷◌ "=") (nil-append x)

cut_mapping :
    (key value : String)
    → lacks b'=' key ≡ true
    → cut b'=' (key <> ("=" <> value)) ≡ (key, value, true)
cut_mapping key value h = rw (eq-append value) (cut_at_sep "=" key value h)

cut_url : (url : String) → cut b'=' ("url=" <> url) ≡ ("url", url, true)
cut_url url = rw (append_assoc "url" "=" url) (cut_mapping "url" url refl)

module _ (name url second key : String) (r : IsRef name url key) where
  cut-secret_ref :
      cut b'#' (secret_ref_text name url second key)
      ≡ ("secret/" <> name, "url=" <> (url <> ("," <> (second <> ("=" <> key)))), true)
  unfolding secret_ref_text
  cut-secret_ref =
      rw (hash-append (url <> ("," <> (second <> ("=" <> key)))), ← append_assoc "secret/" name _)
        (cut_at_sep "#" ("secret/" <> name) _ r.name_hash)

  module _ (sc : lacks b',' second ≡ true) (se : lacks b'=' second ≡ true) where
    split-mappings :
        split b',' ("url=" <> (url <> ("," <> (second <> ("=" <> key)))))
        ≡ ("url=" <> url) ∷ (second <> ("=" <> key)) ∷ []
    split-mappings =
        rw (comma-append (second <> ("=" <> key)), ← append_assoc "url=" url _)
          (split_at_sep "," ("url=" <> url) _ (lacks-append b',' "url=" url refl r.url_comma)
            ∙ ap (λ l. ("url=" <> url) ∷ l)
                (split_last b',' _ (
                  lacks-append b',' second ("=" <> key) sc
                    (lacks-append b',' "=" key refl r.key_comma))))

    split_ref-secret :
        split_ref (secret_ref_text name url second key)
        ≡ ("secret/" <> name, (second, key) ∷ ("url", url) ∷ [])
    unfolding split_ref
    split_ref-secret =
        rw cut-secret_ref (rw split-mappings (rw (cut_url url) (rw (cut_mapping second key se))))

append_cancel : (x y : String) → ("secret/" <> x) ≡ ("secret/" <> y) → x ≡ y
append_cancel x y e = append_cancel_left "secret/" x y e

-- Between two references to Secrets through the same kind of key: the recorded one agrees with the
-- desired one exactly when the Secret, the URL key and the second key are the same.
pub refs_agree-secret :
    (second n u k n' u' k' : String)
    → IsRef n u k
    → IsRef n' u' k'
    → lacks b',' second ≡ true
    → lacks b'=' second ≡ true
    → (second == "url") ≡ false
    → (refs_agree (secret_ref_text n u second k) (secret_ref_text n' u' second k') ≡ true)
      ↔ ((n ≡ n') × (u ≡ u') × (k ≡ k'))
unfolding refs_agree lookup
refs_agree-secret second n u k n' u' k' r r' sc se su =
    rw (split_ref-secret n u second k r sc se, split_ref-secret n' u' second k' r' sc se)
      (rw (eq_refl second, su)
        (
          ground (
            arith,
            eq_iff ("secret/" <> n) ("secret/" <> n'),
            append_cancel n n',
            eq_iff u u',
            eq_iff k k',
          ),
          ground (arith, eq_iff ("secret/" <> n) ("secret/" <> n'), eq_iff u u', eq_iff k k'),
        ))
