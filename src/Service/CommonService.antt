-- ===== src/Service/CommonService.antt =====
-- waku/v2/service/common_service.go. The functions given to `Start` and `Stop` are seen by their
-- effects; the goroutines for which `Stop` waits are taken to end when the context is cancelled.
pub mod Runs
mod Tests
use go_waku.Base.{Bool, true, false, List, [], ◌∷◌, if◌then◌else◌}
use go_waku.Base.Result.{Result, ok, err}

-- The context of the service: not made yet, live, or cancelled by the service or with its parent.
pub data Context : Type 0 where
  missing live cancelled : Context

pub record CommonService : Type 0 where
  pub started : Bool
  pub context : Context
  -- Whether the context that the last `Start` was given, the parent, is live.
  pub parent_live : Bool

pub data ServiceError : Type 0 where
  already_started not_started start_failed : ServiceError

-- What a call runs: the function of `Start`, with its success, and the one of `Stop`.
pub data Effect : Type 0 where
  started_up failed_up stopped : Effect

-- The service after a call, what the call ran and what it returned.
abbrev pub Outcome : Type 0
Outcome = CommonService × List Effect × Result ServiceError (Unit {0})

unfoldable pub new_common_service : CommonService
new_common_service = record { started = false; context = missing; parent_live = false }

-- `context.WithCancel` of a parent.
unfoldable pub with_cancel : Bool → Context
with_cancel parent_live = if parent_live then live else cancelled

-- `works` tells whether the function succeeds, `parent_live` whether the given context is live.
unfoldable pub start : Bool → Bool → CommonService → Outcome
start works parent_live sp =
    if sp.started
    then (sp, [], err already_started)
    else if works
    then (
      record { started = true; context = with_cancel parent_live; parent_live = parent_live },
      started_up ∷ [],
      ok tt,
    )
    else (
      record { started = false; context = cancelled; parent_live = parent_live },
      failed_up ∷ [],
      err start_failed,
    )

unfoldable pub stop : CommonService → Outcome
stop sp =
    if sp.started
    then (record sp { started = false; context = cancelled }, stopped ∷ [], ok tt)
    else (sp, [], ok tt)

-- The caller of `Start` cancels the context that it gave, and with it the service's.
unfoldable pub cancel_parent : CommonService → CommonService
cancel_parent sp = record sp {
  context = elim sp.context [ missing ↦ missing | live ↦ cancelled | cancelled ↦ cancelled ];
  parent_live = false;
}

unfoldable pub err_on_not_running : CommonService → Result ServiceError (Unit {0})
err_on_not_running sp = if sp.started then ok tt else err not_started

pub data Call : Type 0 where
  starts : Bool → Bool → Call
  stops : Call
  cancels_parent : Call

unfoldable pub call : Call → CommonService → Outcome
call (starts works parent_live) sp = start works parent_live sp
call stops sp = stop sp
call cancels_parent sp = (cancel_parent sp, [], ok tt)
