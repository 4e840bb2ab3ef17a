-- ===== src/Examples/Origins.antt =====
-- The theorems on origins, at an allowlist of one site and its subdomains. The one address that `parse_ip`
-- knows here is "::1".
use statehouse.Prelude.{
  ◌≡◌, refl, some, none, true, false, ◌⊎◌, inl, inr, List, [], ◌∷◌, Str, str, str_eq, ok,
  if◌then◌else◌, All,
}
use statehouse.Strings.{
  Unicode, all_bytes, is_ascii, lower_ascii, to_lower, cut_prefix, has_prefix, cut_suffix,
  has_suffix, cut, cut_last, contains_byte, contains_any, split_byte, trim_left, trim_right,
  trim_space, count_byte,
}
use statehouse.Origin.{
  Net, OriginError, Policy, Triple, compile, compile_host, compile_port, compile_rule,
  compile_entry, compile_from, wildcard, allow, serialise, canonical_parts, port_after_bracket,
  split_bracket, split_colon, split_port, lift_wildcard, split, ends_in_dash, starts_with_dash,
  is_label, all_labels, digits, validate_port, matches, bracketed, inner_ip, validate_literal,
  validate_host,
}
use statehouse.Origin.Hosts.{NetLaws}
use statehouse.Origin.Policies.{is_echo_byte, allow_again, allow_bytes}
use statehouse.Origin.Patterns.{subdomain}
use statehouse.Origin.Allowlist.{Covered, HasWildcard, allow-Covered}
use statehouse.Origin.Admits.{Covered-allow}
use statehouse.Origin.Entries.{Accepted, FirstRefused, compile_outcome}

abbrev pub loopback : Net
loopback = record {
  Ip = Unit {0};
  parse_ip = λ s. if str_eq s (str "::1") then some tt else none;
  is_ipv4 = λ _. false;
  ip_string = λ _. str "::1";
}

abbrev pub plain : Unicode
plain = record { lower = λ s. s; trim = λ s. s; count_fields = λ _. 1 }

loopback_laws : NetLaws loopback
unfolding str_eq all_bytes
loopback_laws = record { parse_string = λ ip h. refl; string_bytes = λ ip h. refl }

abbrev pub swee : Policy
swee = record {
  allow_all = false;
  rules =
      record {
        scheme = str "https";
        host = [];
        suffix = str ".swee.net";
        port = [];
        any_port = false;
      }
      ∷ [];
}

swee_admits :
    allow loopback plain swee (str "https://APP.swee.net") ≡ some (str "https://app.swee.net")
unfolding port_after_bracket split_bracket split_colon split_port lift_wildcard split ends_in_dash
    starts_with_dash is_label all_labels digits validate_port serialise matches bracketed inner_ip
    validate_literal validate_host canonical_parts allow is_ascii lower_ascii to_lower cut_prefix
    has_prefix cut_suffix has_suffix cut cut_last contains_byte contains_any split_byte str_eq
    all_bytes
swee_admits = refl

allow_again_example :
    allow loopback plain swee (str "https://app.swee.net") ≡ some (str "https://app.swee.net")
allow_again_example =
    allow_again loopback plain loopback_laws swee (str "https://APP.swee.net")
      (str "https://app.swee.net") swee_admits

allow_bytes_example : all_bytes is_echo_byte (str "https://app.swee.net") ≡ true
allow_bytes_example =
    allow_bytes loopback plain loopback_laws swee (str "https://APP.swee.net")
      (str "https://app.swee.net") swee_admits

abbrev subdomains : List Str
subdomains = str "http://localhost:*" ∷ str " https://*.swee.net" ∷ []

subdomains_admit :
    allow loopback plain (compile loopback plain subdomains).0 (str "https://APP.swee.net")
    ≡ some (str "https://app.swee.net")
unfolding port_after_bracket split_bracket split_colon split_port lift_wildcard split ends_in_dash
    starts_with_dash is_label all_labels digits validate_port serialise matches bracketed inner_ip
    validate_literal validate_host compile_host compile_port compile_rule compile_entry compile_from
    compile canonical_parts allow is_ascii lower_ascii to_lower trim_left trim_right trim_space
    cut_prefix has_prefix cut_suffix has_suffix cut cut_last contains_byte contains_any split_byte
    count_byte str_eq all_bytes
subdomains_admit = refl

subdomains-compile : (compile loopback plain subdomains).1 ≡ none
unfolding port_after_bracket split_bracket split_colon split_port lift_wildcard split ends_in_dash
    starts_with_dash is_label all_labels digits validate_port serialise matches bracketed inner_ip
    validate_literal validate_host compile_host compile_port compile_rule compile_entry compile_from
    compile canonical_parts allow is_ascii lower_ascii to_lower trim_left trim_right trim_space
    cut_prefix has_prefix cut_suffix has_suffix cut cut_last contains_byte contains_any split_byte
    count_byte str_eq all_bytes
subdomains-compile = refl

abbrev app : Triple
app = (str "https", str "app.swee.net", [])

app_parts : canonical_parts loopback plain (str "https://APP.swee.net") ≡ ok app
unfolding port_after_bracket split_bracket split_colon split_port lift_wildcard split ends_in_dash
    starts_with_dash is_label all_labels digits validate_port serialise matches bracketed inner_ip
    validate_literal validate_host compile_host compile_port compile_rule compile_entry compile_from
    compile canonical_parts allow is_ascii lower_ascii to_lower trim_left trim_right trim_space
    cut_prefix has_prefix cut_suffix has_suffix cut cut_last contains_byte contains_any split_byte
    count_byte str_eq all_bytes
app_parts = refl

app-Covered : Covered loopback plain subdomains app
unfolding port_after_bracket split_bracket split_colon split_port lift_wildcard split ends_in_dash
    starts_with_dash is_label all_labels digits validate_port serialise matches bracketed inner_ip
    validate_literal validate_host compile_host compile_port compile_rule compile_entry compile_from
    compile canonical_parts allow is_ascii lower_ascii to_lower trim_left trim_right trim_space
    cut_prefix has_prefix cut_suffix has_suffix cut cut_last contains_byte contains_any split_byte
    count_byte str_eq all_bytes
app-Covered = inr (
    inl (
      subdomain (str "app") (str "swee.net") (str "swee.net") [] refl refl refl refl refl refl
        (inr refl)))

allow-Covered_example :
    (HasWildcard loopback plain subdomains × (str "https://app.swee.net" ≡ wildcard))
    ⊎ ((t : Triple) × (canonical_parts loopback plain (str "https://APP.swee.net") ≡ ok t)
        × Covered loopback plain subdomains t
        × (serialise t.0 t.1 t.2 ≡ str "https://app.swee.net"))
allow-Covered_example =
    allow-Covered loopback plain subdomains (str "https://APP.swee.net")
      (str "https://app.swee.net") subdomains_admit

Covered-allow_example :
    allow loopback plain (compile loopback plain subdomains).0 (str "https://APP.swee.net")
    ≡ some (
        if (compile loopback plain subdomains).0.allow_all
        then wildcard
        else serialise (str "https") (str "app.swee.net") [])
Covered-allow_example =
    Covered-allow loopback plain subdomains (str "https://APP.swee.net") app subdomains-compile
      app_parts app-Covered

abbrev patterns : List Str
patterns = str "https://*.swee.net" ∷ str "http://localhost:*" ∷ str "https://*" ∷ []

compile_outcome_example :
    (((compile loopback plain patterns).1 ≡ none) × All (Accepted loopback plain) patterns)
    ⊎ ((e : OriginError) × ((compile loopback plain patterns).1 ≡ some e)
        × FirstRefused loopback plain e patterns
        × ((o : Str) → allow loopback plain (compile loopback plain patterns).0 o ≡ none))
compile_outcome_example = compile_outcome loopback plain patterns
