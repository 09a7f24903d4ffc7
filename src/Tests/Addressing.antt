-- ===== src/Tests/Addressing.antt =====
-- Addressing at a configuration with two destinations, and at a legacy one.
use agent_wake.Prelude.{String, ◌≡◌, refl, ◌≢◌, false, ◌&&◌, ◌||◌, some, ◌==◌, arith, eq_iff}
use agent_wake.Json.{get}
use agent_wake.Addressing.Legacy.{table}
use agent_wake.Addressing.Tables.{destination_table, route_table}
use agent_wake.Addressing.Resolve.{reaches, routed_destinations, resolve}
use agent_wake.Addressing.Reach.{routed_iff_route, some_route}
use agent_wake.Addressing.Narrow.{Outcome, resolve-Outcome}
use agent_wake.Addressing.Identity.{legacy_reach, is_source}
use agent_wake.Tests.Fixtures.{config, legacy_config}

routed_iff_route_example :
    reaches "desk" (routed_destinations config "ci")
    ≡ some_route "ci" (destination_table config) "desk" (route_table config)
routed_iff_route_example = routed_iff_route config "ci" "desk"

resolve-Outcome_example :
    Outcome
      (some "desk")
      (some "bob")
      (routed_destinations config "ci")
      (resolve config "ci" (some "desk") (some "bob"))
resolve-Outcome_example = resolve-Outcome config "ci" (some "desk") (some "bob")

legacy_reach_example :
    reaches "ci" (routed_destinations legacy_config "ci")
    ≡ (is_source "ci" (table "sources" legacy_config) && ("ci" == "ci" || "ci" == "*"))
legacy_reach_example =
    legacy_reach legacy_config "ci" "ci" (unfold get in refl) (unfold get in refl)

apart : (s t : String) → s == t ≡ false → s ≢ t
apart s t h = λ e. ground (arith, eq_iff s t)
