-- ===== src/Service/CommonService/Tests.antt =====
-- Runs of common_service.go, and an instance of the theorem.
use go_waku.Service.CommonService.{
  cancel_parent, with_cancel, cancels_parent, Effect, started_up, failed_up, stopped, live,
  cancelled, already_started, not_started, CommonService, new_common_service, start, stop,
  err_on_not_running, starts, call,
}
use go_waku.Base.{◌&&◌, ◌+◌, ◌≡◌, refl, true, false, List, [], ◌∷◌}
use go_waku.Base.Result.{ok, err}
use go_waku.Service.CommonService.Runs.{
  Reaches, at_first, after, ups, downs, one_if, is_live, Reaches_lem,
}

program : Unit {0}
unfolding new_common_service with_cancel start stop cancel_parent err_on_not_running call ups downs
    one_if
program = tt

abbrev running : CommonService
running = record { started = true; context = live; parent_live = true }

abbrev orphan : CommonService
orphan = record { started = true; context = cancelled; parent_live = false }

abbrev effects : List Effect
effects = failed_up ∷ started_up ∷ []

service_tests :
    (start true true running ≡ (running, [], err already_started))
    × (stop running
        ≡ (record running { started = false; context = cancelled }, stopped ∷ [], ok tt))
    × (err_on_not_running new_common_service ≡ err not_started)
    × (err_on_not_running orphan ≡ ok tt)
unfolding program
service_tests = (refl, refl, refl, refl)

reached : Reaches effects orphan
unfolding program
reached = after cancels_parent (after (starts true true) (after (starts false true) at_first))

Reaches_lem_example :
    (is_live orphan.context ≡ orphan.started && orphan.parent_live)
    × (ups effects ≡ one_if orphan.started + downs effects)
Reaches_lem_example = Reaches_lem reached
