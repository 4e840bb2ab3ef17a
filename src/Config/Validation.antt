-- ===== src/Config/Validation.antt =====
-- What a validated configuration promises to the parts that read it (Validate in
-- internal/config/config.go).
use statehouse.Prelude.{
  ℕ, ◌≤◌, Float64, Bool, true, false, not, ◌≡◌, refl, sym, ap, ◌∙◌, arith, inl, inr, List, [], ◌∷◌,
  length, ltb, Option, none, some, Str, str_eq→eq, Result, ok, ◌>>◌, guard-eq-ok, Bool-cases, All,
}
use statehouse.Model.Identity.{is_empty}
use statehouse.Strings.{
  Unicode, add_unless, is_ascii, is_space, trim_left, trim_right, trim_space, field_starts,
  field_count, all_bytes,
}
use statehouse.Origin.{Net, OriginError, Policy, compile}
use statehouse.Config.{
  Config, ConfigError, empty_client, padded_client, no_site, no_devices_namespace, bad_namespace,
  padded_audience, padded_scope, spaced_audience, spaced_scope, is_padded, check_clients,
  check_origins, validate_service_tokens, validate,
}

-- A text without a space byte.
pub IsUnspaced : Str → Type 0
IsUnspaced s = all_bytes (λ c. not (is_space c)) s ≡ true

length-trim_left : (p : ℕ → Bool) (s : Str) → length (trim_left p s) ≤ length s
unfolding trim_left
length-trim_left p [] = omega arith
length-trim_left p (c ∷ s) = ground (arith, length-trim_left p s)

length-trim_right : (p : ℕ → Bool) (s : Str) → length (trim_right p s) ≤ length s
unfolding trim_right
length-trim_right p [] = omega arith
length-trim_right p (c ∷ s) = ground (arith, length-trim_right p s)

no_field : (s : Str) → field_starts true s ≡ 0 → trim_right is_space s ≡ []
unfolding field_starts trim_right
no_field [] h = refl
no_field (c ∷ s) h = ground (arith, no_field s)

tail_trimmed :
    (c : ℕ) (s : Str)
    → is_space c ≡ false
    → trim_right is_space (c ∷ s) ≡ c ∷ s
    → trim_right is_space s ≡ s
unfolding trim_right
tail_trimmed c s n t =
    elim (trim_right is_space s) as (λ r. add_unless is_space c r ≡ c ∷ s → r ≡ s) [
      | [] ↦ λ e. ground arith
      | d ∷ r ↦ λ e. ground arith
    ]
      t

-- A space before nothing but spaces is trimmed.
space_trimmed :
    (c : ℕ) (s : Str)
    → is_space c ≡ true
    → field_starts false (c ∷ s) ≡ 0
    → trim_right is_space (c ∷ s) ≡ []
unfolding trim_right field_starts
space_trimmed c s k h = ground (arith, no_field s)

one_field : (s : Str) → trim_right is_space s ≡ s → field_starts false s ≡ 0 → IsUnspaced s
unfolding field_starts all_bytes IsUnspaced
one_field [] t h = refl
one_field (c ∷ s) t h = elim (Bool-cases (is_space c)) [
  | inl k ↦ let empty : [] ≡ c ∷ s = sym (space_trimmed c s k h) ∙ t in cc
  | inr k ↦ ground (arith, one_field s, tail_trimmed c s k t)
]

starts_unspaced :
    (s : Str) → trim_right is_space (trim_left is_space s) ≡ s → trim_left is_space s ≡ s
unfolding trim_left
starts_unspaced [] t = refl
starts_unspaced (c ∷ s) t = ground (
  arith,
  length-trim_left is_space s,
  length-trim_right is_space (trim_left is_space s),
  ap length t,
)

one_first :
    (c : ℕ) (s : Str)
    → trim_left is_space (c ∷ s) ≡ c ∷ s
    → trim_right is_space (c ∷ s) ≡ c ∷ s
    → ltb 1 (field_starts true (c ∷ s)) ≡ false
    → IsUnspaced (c ∷ s)
unfolding field_starts trim_left all_bytes IsUnspaced
one_first c s l t h = elim (Bool-cases (is_space c)) [
  | inl k ↦ ground (arith, length-trim_left is_space s, ap length l)
  | inr k ↦ ground (arith, one_field s, tail_trimmed c s k t)
]

trimmed_one_field :
    (s : Str)
    → trim_right is_space (trim_left is_space s) ≡ s
    → ltb 1 (field_starts true s) ≡ false
    → IsUnspaced s
unfolding field_starts all_bytes IsUnspaced
trimmed_one_field [] t h = refl
trimmed_one_field (c ∷ s) t h =
    let kept = starts_unspaced (c ∷ s) t in
    let trimmed : trim_right is_space (c ∷ s) ≡ c ∷ s = ap (trim_right is_space) (sym kept) ∙ t in
    one_first c s kept trimmed h

unspaced :
    (u : Unicode) (s : Str)
    → is_padded u s ≡ false
    → ltb 1 (field_count u s) ≡ false
    → is_ascii s ≡ true
    → IsUnspaced s
unfolding trim_space field_count
unspaced u s p f a =
    let same : s ≡ trim_space u s = str_eq→eq s (trim_space u s) (ground arith) in
    let plain : trim_space u s ≡ trim_right is_space (trim_left is_space s) = ground arith in
    trimmed_one_field s (sym (same ∙ plain)) (ground arith)

-- An entry of the allowlist of clients is not empty and is matched as it is written.
pub record IsClient (u : Unicode) (c : Str) : Type 0 where
  pub written : trim_space u c ≡ c
  pub present : is_empty c ≡ false

was_false : {b : Bool} → not b ≡ true → b ≡ false
was_false {b = true} h = cc
was_false {b = false} h = refl

written_as : (u : Unicode) (s : Str) → not (is_padded u s) ≡ true → trim_space u s ≡ s
written_as u s h = sym (str_eq→eq s (trim_space u s) (ground arith))

clients_sound : (u : Unicode) (cs : List Str) → check_clients u cs ≡ ok tt → All (IsClient u) cs
unfolding check_clients
clients_sound u [] h = tt
clients_sound u (c ∷ cs) h =
    let (present, later) = guard-eq-ok _ empty_client _ h in
    let (written, rest) = guard-eq-ok _ padded_client _ later in
    let same = written_as u c written in
    (
      record { written = same; present = ap is_empty (sym same) ∙ was_false present },
      clients_sound u cs rest,
    )

-- What the rest of the program relies on.
pub record IsServable ⦃fl : Float64⦄ (u : Unicode) (net : Net) (valid_name : Str → Bool)
    (c : Config) : Type 0 where
  pub site_named : is_empty c.site.id ≡ false
  pub namespace_valid : valid_name c.site.devices_namespace ≡ true
  pub origins_compile : (p : Policy) × (compile net u c.allowed_origins ≡ (p, none))
  pub one_audience :
      is_ascii c.service_tokens.required_audience ≡ true
      → IsUnspaced c.service_tokens.required_audience
  pub one_scope :
      is_ascii c.service_tokens.required_scope ≡ true → IsUnspaced c.service_tokens.required_scope
  pub clients_written : All (IsClient u) c.service_tokens.allowed_clients

origins_compiled :
    {A : Type 0} (r : Policy × Option OriginError) (k : Result ConfigError A) {a : A} (u : Unicode)
    → (check_origins u r >> k) ≡ ok a
    → ((p : Policy) × (r ≡ (p, none))) × (k ≡ ok a)
origins_compiled (p, none) k u h = ((p, refl), h)
origins_compiled (p, some e) k u h = cc

module _ ⦃fl : Float64⦄ (u : Unicode) (net : Net) (valid_name : Str → Bool) where
  -- A configuration that passes validation names its site and a namespace that the config service
  -- accepts, its origins compile, its required audience and scope, if they are ASCII, contain no
  -- space at all, and the entries of its client allowlist are not empty and carry no padding.
  pub validate-IsServable :
      (c : Config) → validate u net valid_name c ≡ ok tt → IsServable u net valid_name c
  unfolding validate validate_service_tokens
  validate-IsServable c h =
      let (named, h₁) = guard-eq-ok _ no_site _ h in
      let (_, h₂) = guard-eq-ok _ no_devices_namespace _ h₁ in
      let (valid, h₃) = guard-eq-ok _ bad_namespace _ h₂ in
      let (policy, h₄) = origins_compiled (compile net u c.allowed_origins) _ u h₃ in
      let (audience, h₅) = guard-eq-ok _ padded_audience _ h₄ in
      let (scope, h₆) = guard-eq-ok _ padded_scope _ h₅ in
      let (one_audience, h₇) = guard-eq-ok _ spaced_audience _ h₆ in
      let (one_scope, h₈) = guard-eq-ok _ spaced_scope _ h₇ in
      record {
        site_named = was_false named;
        namespace_valid = valid;
        origins_compile = policy;
        one_audience =
            unspaced u c.service_tokens.required_audience (was_false audience)
              (was_false one_audience);
        one_scope =
            unspaced u c.service_tokens.required_scope (was_false scope) (was_false one_scope);
        clients_written = clients_sound u c.service_tokens.allowed_clients h₈;
      }
