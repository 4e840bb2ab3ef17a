-- ===== src/Http/Auth/Challenges.antt =====
-- The challenge of a refusal, as a client reads it (challenge and quoteSafe in
-- internal/httpapi/auth.go).
use mathlib.Core.List.{append_assoc, append-nil}
use statehouse.Prelude.{
  true, ◌≡◌, refl, sym, ap, ◌∙◌, arith, List, [], ◌∷◌, ◌++◌, if◌then◌else◌, Str, str,
}
use statehouse.Model.Identity.{is_empty}
use statehouse.Strings.{all_bytes, split_byte}
use statehouse.Strings.Laws.{all_bytes-append, all_bytes_mono, split_byte_append, differs}
use statehouse.Http.Auth.{
  Authenticator, is_quote_safe, keep_quote_safe, quote_safe, auth_param, challenge_text,
}

kept_safe : (s : Str) → all_bytes is_quote_safe (keep_quote_safe s) ≡ true
unfolding keep_quote_safe all_bytes
kept_safe [] = refl
kept_safe (c ∷ s) = ground (arith, kept_safe s)

quote_safe_safe :
    (repair : Str → Str) (s : Str) → all_bytes is_quote_safe (quote_safe repair s) ≡ true
unfolding quote_safe
quote_safe_safe repair s = ground (arith, kept_safe s, kept_safe (repair s))

quote_safe_unquoted :
    (repair : Str → Str) (s : Str) → all_bytes (differs 34) (quote_safe repair s) ≡ true
quote_safe_unquoted repair s =
    all_bytes_mono is_quote_safe (differs 34) (quote_safe repair s) (λ c e. ground arith)
      (quote_safe_safe repair s)

-- The pieces between the quotes that a part adds.
abbrev pub pieces : (Str → Str) → Str → Str → List Str → List Str
pieces repair name value rest =
    if is_empty value
    then rest
    else (str ", " ++ (name ++ str "=")) ∷ quote_safe repair value ∷ rest

param_shape :
    (n q t : Str)
    → (str ", " ++ (n ++ (str "=\"" ++ (q ++ str "\"")))) ++ t
      ≡ (str ", " ++ (n ++ str "=")) ++ (34 ∷ (q ++ (34 ∷ t)))
param_shape n q t =
    ap (λ z. str ", " ++ z)
      (append_assoc n (str "=\"" ++ (q ++ str "\"")) t
        ∙ ap (λ z. n ++ (str "=\"" ++ z)) (append_assoc q (str "\"") t)
        ∙ sym (append_assoc n (str "=") (34 ∷ (q ++ (34 ∷ t)))))

split-auth_param :
    (repair : Str → Str) (n v t : Str)
    → all_bytes (differs 34) n ≡ true
    → split_byte 34 (auth_param repair n v ++ t) ≡ pieces repair n v (split_byte 34 t)
unfolding auth_param all_bytes
split-auth_param repair n [] t h = refl
split-auth_param repair n (c ∷ v) t h =
    let q = quote_safe repair (c ∷ v) in
    let name : all_bytes (differs 34) (str ", " ++ (n ++ str "=")) ≡ true =
      ground (arith, all_bytes-append (differs 34) n (str "=")) in
    ap (split_byte 34) (param_shape n q t)
    ∙ split_byte_append 34 (str ", " ++ (n ++ str "=")) (q ++ (34 ∷ t)) name
    ∙ ap (λ z. (str ", " ++ (n ++ str "=")) ∷ z)
        (split_byte_append 34 q t (quote_safe_unquoted repair (c ∷ v)))

-- Whatever the realm, the error, its description and the scope are, the challenge split at its
-- quotes is the fixed text of its parts around their safe values, in their order: no value ends its
-- quotes early or adds a part.
pub challenge_parts :
    (a : Authenticator) (code desc scope : Str)
    → split_byte 34 (challenge_text a code desc scope)
      ≡ str "Bearer realm="
        ∷ quote_safe a.repair a.realm
        ∷ pieces a.repair (str "error") code (
            pieces a.repair
              (str "error_description")
              desc
              (pieces a.repair (str "scope") scope ([] ∷ [])))
unfolding challenge_text all_bytes split_byte
challenge_parts a code desc scope =
    let r = a.repair in
    let last =
      ap (split_byte 34) (sym (append-nil (auth_param r (str "scope") scope)))
      ∙ split-auth_param r (str "scope") scope [] refl in
    let after_error =
      auth_param r (str "error_description") desc ++ auth_param r (str "scope") scope in
    let tail =
      split-auth_param r (str "error") code after_error refl
      ∙ ap (pieces r (str "error") code) (
          split-auth_param r (str "error_description") desc (auth_param r (str "scope") scope) refl
          ∙ ap (pieces r (str "error_description") desc) last) in
    let params = auth_param r (str "error") code ++ after_error in
    let realm =
      split_byte_append 34 (quote_safe r a.realm) params (quote_safe_unquoted r a.realm) in
    split_byte_append 34 (str "Bearer realm=") (quote_safe r a.realm ++ (34 ∷ params)) refl
    ∙ ap (λ z. str "Bearer realm=" ∷ z) (realm ∙ ap (λ z. quote_safe r a.realm ∷ z) tail)
