-- ===== src/Commands/Agreement.antt =====
-- cmd/discovery-service/main.go and cmd/dockyards-talos/main.go: the discovery service of both.
use mathlib.Core.Path.{subst}
use dockyards_talos.Base.{
  String, ◌≡◌, refl, sym, ap, not, ◌∙◌, arith, ◌⊎◌, inl, inr, Bool, true, false, Option, none, some,
}
use dockyards_talos.Base.Result.{Result, ok, or_fail, >>=-eq-ok, guard-eq-ok, guard-then, ok->>=}
use dockyards_talos.Discovery.Options.{Stored}
use dockyards_talos.Commands.{
  Level, level_of, ServiceFlags, Environment, StartError, unknown_log_level, Service, load_tls,
  discovery_service, choose_provider, watched, serve_from, no_working_directory, no_listener,
  no_config, no_manager, no_cluster_scheme, no_link_config_scheme, no_release_controller,
  no_link_config_controller,
}
use dockyards_talos.Commands.Manager.{
  ManagerFlags, Running, manager_level_of, manager_watched, manager_serve_from,
  manager_choose_provider, manager_load_tls, discovery_part, webhook_part, dockyards_talos_command,
}

-- The parts of the two commands.
manager_level_of-eq : (log_level : String) → manager_level_of log_level ≡ level_of log_level
unfolding manager_level_of level_of
manager_level_of-eq log_level = refl

manager_watched-eq : (provider : Stored) → manager_watched provider ≡ watched provider
unfolding manager_watched watched
manager_watched-eq provider = refl

manager_serve_from-eq :
    (level : Level) (flags : ServiceFlags) (provider : Stored) (tls : Option (String × String))
    → manager_serve_from level flags provider tls ≡ serve_from level flags provider tls
unfolding manager_serve_from serve_from
manager_serve_from-eq level flags provider tls = refl

manager_choose_provider-eq :
    (env : Environment) (path : String)
    → manager_choose_provider env path ≡ choose_provider env path
unfolding manager_choose_provider choose_provider
manager_choose_provider-eq env path = refl

manager_load_tls-eq :
    (env : Environment) (no_tls : Bool) (flags : ServiceFlags)
    → manager_load_tls env (not no_tls) flags ≡ load_tls env no_tls flags
unfolding manager_load_tls load_tls
manager_load_tls-eq env true flags = refl
manager_load_tls-eq env false flags = refl

manager_service-eq :
    (env : Environment) (level : Level) (flags : ServiceFlags) (tls : Option (String × String))
    → manager_serve_from level flags
        (manager_watched (manager_choose_provider env flags.state_path))
        tls
      ≡ serve_from level flags (watched (choose_provider env flags.state_path)) tls
manager_service-eq env level flags tls =
    manager_serve_from-eq level flags _ tls
    ∙ ap (λ provider. serve_from level flags provider tls)
        (manager_watched-eq _ ∙ ap watched (manager_choose_provider-eq env flags.state_path))

service_of :
    (running : Running) (expected : Running)
    → ◌≡◌ {A = Result StartError Running} (ok running) (ok expected)
    → running.service ≡ expected.service
service_of running expected h = let same : running ≡ expected = cc in ap (λ r. r.service) same

module _ (env : Environment) where
  -- The part of the command that sets up the service.
  part_serves :
      (enabled : Bool) (log_level : String) (level : Level) (flags : ServiceFlags)
      (service : Option Service)
      → or_fail (manager_level_of log_level) unknown_log_level ≡ ok level
      → env.has_working_directory ≡ true
      → discovery_part env level enabled flags ≡ ok service
      → (enabled ≡ false) × (service ≡ none)
        ⊎ (enabled ≡ true)
          × ((s : Service) × (service ≡ some s) × (discovery_service env log_level flags ≡ ok s))
  unfolding discovery_part discovery_service
  part_serves false log_level level flags service named wd h = inl (refl, ground arith)
  part_serves true log_level level flags service named wd h =
      let (listens, h') = guard-eq-ok (env.can_listen flags.bind_address) no_listener _ h in
      let (tls, loaded, h'') = >>=-eq-ok (manager_load_tls env (not flags.no_tls) flags) _ h' in
      inr (
        refl,
        (
          manager_serve_from level flags
              (manager_watched (manager_choose_provider env flags.state_path)) tls,
          ground arith,
          ok->>= (or_fail (level_of log_level) unknown_log_level) _ level (
                ap (λ o. or_fail o unknown_log_level) (sym (manager_level_of-eq log_level)) ∙ named)
              ∙ guard-then env.has_working_directory no_working_directory _ wd
              ∙ guard-then (env.can_listen flags.bind_address) no_listener _ listens
              ∙ ok->>= (load_tls env flags.no_tls flags) _ tls
                  (sym (manager_load_tls-eq env flags.no_tls flags) ∙ loaded)
              ∙ ap ok (sym (manager_service-eq env level flags tls)),
        ),
      )

  -- Where the command dockyards-talos gets to start its manager, it serves, if its discovery service
  -- is enabled, what the command discovery-service serves in the same environment with the same
  -- flags for the service and the log, which gets to serve it too; and no service if it is not
  -- enabled.
  pub dockyards_talos_command-discovery_service :
      (log_level : String) (flags : ManagerFlags) (running : Running)
      → dockyards_talos_command env log_level flags ≡ ok running
      → (flags.enable_discovery_service ≡ false) × (running.service ≡ none)
        ⊎ (flags.enable_discovery_service ≡ true)
          × ((s : Service) × (running.service ≡ some s)
              × (discovery_service env log_level flags.discovery ≡ ok s))
  unfolding dockyards_talos_command
  dockyards_talos_command-discovery_service log_level flags running h =
      let (level, named, h1) =
        >>=-eq-ok (or_fail (manager_level_of log_level) unknown_log_level) _ h in
      let (wd, h2) = guard-eq-ok env.has_working_directory no_working_directory _ h1 in
      let part = discovery_part env level flags.enable_discovery_service flags.discovery in
      let (service, made, h3) = >>=-eq-ok part _ h2 in
      let (_, h4) = guard-eq-ok env.has_config no_config _ h3 in
      let (_, h5) = guard-eq-ok (env.makes_manager flags.metrics_bind_address) no_manager _ h4 in
      let (_, h6) = guard-eq-ok env.adds_cluster_scheme no_cluster_scheme _ h5 in
      let (_, h7) = guard-eq-ok env.adds_link_config_scheme no_link_config_scheme _ h6 in
      let (_, h8) = guard-eq-ok env.sets_up_release_controller no_release_controller _ h7 in
      let (_, h9) = guard-eq-ok env.sets_up_link_config_controller no_link_config_controller _ h8 in
      let (_, _, last) = >>=-eq-ok (webhook_part env flags.enable_webhooks) _ h9 in
      let same : service ≡ running.service = service_of _ running last in
      subst
        (λ o.
          (flags.enable_discovery_service ≡ false) × (o ≡ none)
          ⊎ (flags.enable_discovery_service ≡ true)
            × ((s : Service) × (o ≡ some s)
                × (discovery_service env log_level flags.discovery ≡ ok s)))
        same
        (part_serves flags.enable_discovery_service log_level level flags.discovery service named wd
          made)
