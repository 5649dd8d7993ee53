-- ===== src/App/Startup/Tests.antt =====
-- Tests of the start.
use clyman.Prelude.{
  ap, Option, none, some, ℤ, String, ◌==◌, string_eq, nat_eq, ◌≡◌, refl, arith, true, false,
}
use clyman.Outcome.{ok}
use clyman.Json.{parse_error}
use clyman.App.Startup.Options.{Profile, default_opts}
use clyman.App.Startup.Tls.{vault_throws}
use clyman.App.Startup.{serves, main}
use clyman.App.Startup.Laws.{value_of, default_server, main_with_defaults}

abbrev or_empty : Option String → String
or_empty none = ""
or_empty (some v) = v

abbrev profile : Profile
profile = record {
  get_opt = λ k. or_empty (value_of default_opts k);
  cluster_name = "scenes";
  has_consul = true;
}

-- The third attempt loads.
main_with_defaults_example :
    main {D = ℤ} profile (λ k t. t) (λ n. n == 2) (parse_error "none") vault_throws (λ f. false)
    ≡ ok (serves (default_server profile))
main_with_defaults_example =
    main_with_defaults profile (λ k t. t) (λ n. n == 2) 2 (parse_error "none") vault_throws
      (λ f. false) (omega arith) refl (λ k v h. ap or_empty h) refl
