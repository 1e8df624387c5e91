-- ===== src/Examples/Admission.antt =====
-- A server that the webhook admits.
use minecraft_operator.Examples.{digits, server}
use minecraft_operator.Examples.Servers.{catalogue, set_first, message, plugins}
use minecraft_operator.Clock.{zero_time}
use minecraft_operator.Server.Resolution.{
  resolve_desired_paper_version, resolve_latest_version, resolve_auto_version,
  resolve_version_only_mode, resolve_pinned_version_build,
}
use minecraft_operator.Webhook.{validate_server_strategy}
use minecraft_operator.Webhook.Admitted.{admitted_strategy_resolves}
use minecraft_operator.Api.{PaperMcServer}
use minecraft_operator.Prelude.{ℕ, false, [], some, is_empty, ◌≡◌, ◌⊎◌, refl}
use minecraft_operator.Prelude.Bytes.{bytes, ◌==◌}

abbrev pinned_build_server : PaperMcServer
pinned_build_server = record (server (bytes "build-pin")) {
  spec = record ((server (bytes "build-pin")).spec) { build = some 9 };
}

it_is_admitted : validate_server_strategy pinned_build_server ≡ []
unfolding validate_server_strategy ◌==◌
it_is_admitted = refl

admitted_strategy_resolves_example :
    let resolution =
      resolve_desired_paper_version digits set_first catalogue message zero_time pinned_build_server
        plugins in
    (resolution ≡ resolve_latest_version digits set_first catalogue message zero_time plugins)
    ⊎ (resolution
        ≡ resolve_auto_version digits set_first catalogue message zero_time pinned_build_server
            plugins)
    ⊎ ((is_empty (bytes "2") ≡ false)
        × (resolution
            ≡ resolve_version_only_mode digits set_first catalogue message zero_time
                (bytes "2")
                plugins))
    ⊎ ((is_empty (bytes "2") ≡ false)
        × ((build : ℕ) × (some 9 ≡ some build)
            × (resolution
                ≡ resolve_pinned_version_build digits set_first catalogue message zero_time
                    (bytes "2")
                    build
                    plugins)))
admitted_strategy_resolves_example =
    admitted_strategy_resolves digits set_first catalogue message zero_time pinned_build_server
      plugins it_is_admitted
