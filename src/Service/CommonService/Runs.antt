-- ===== src/Service/CommonService/Runs.antt =====
-- The states that a service can reach.
use go_waku.Service.CommonService.{
  with_cancel, cancel_parent, CommonService, Context, missing, live, cancelled, Effect, started_up,
  failed_up, stopped, new_common_service, start, stop, Call, starts, stops, call, cancels_parent,
}
use go_waku.Base.{
  ◌&&◌, ℕ, suc, ◌+◌, ◌≡◌, refl, Bool, true, false, List, [], ◌∷◌, ◌++◌, arith, if◌then◌else◌,
}

-- The effects, from the first on, and the state after the calls that caused them.
pub data Reaches : List Effect → CommonService → Type 0 where
  at_first : Reaches [] new_common_service
  after :
      {effects : List Effect} {sp : CommonService} (c : Call)
      → Reaches effects sp
      → Reaches (effects ++ (call c sp).1) (call c sp).0

unfoldable pub ups : List Effect → ℕ
ups [] = 0
ups (started_up ∷ es) = suc (ups es)
ups (failed_up ∷ es) = ups es
ups (stopped ∷ es) = ups es

unfoldable pub downs : List Effect → ℕ
downs [] = 0
downs (started_up ∷ es) = downs es
downs (failed_up ∷ es) = downs es
downs (stopped ∷ es) = suc (downs es)

ups-append : (a b : List Effect) → ups (a ++ b) ≡ ups a + ups b
unfolding ups
ups-append [] b = omega arith
ups-append (started_up ∷ a) b = omega (arith, ups-append a b)
ups-append (failed_up ∷ a) b = omega (arith, ups-append a b)
ups-append (stopped ∷ a) b = omega (arith, ups-append a b)

downs-append : (a b : List Effect) → downs (a ++ b) ≡ downs a + downs b
unfolding downs
downs-append [] b = omega arith
downs-append (started_up ∷ a) b = omega (arith, downs-append a b)
downs-append (failed_up ∷ a) b = omega (arith, downs-append a b)
downs-append (stopped ∷ a) b = omega (arith, downs-append a b)

abbrev pub is_live : Context → Bool
is_live live = true
is_live missing = false
is_live cancelled = false

unfoldable pub one_if : Bool → ℕ
one_if b = if b then 1 else 0

with_cancel_lem : (b : Bool) → is_live (with_cancel b) ≡ b
unfolding with_cancel
with_cancel_lem true = refl
with_cancel_lem false = refl

call_lem :
    (c : Call) (sp : CommonService)
    → is_live sp.context ≡ sp.started && sp.parent_live
    → (is_live (call c sp).0.context ≡ (call c sp).0.started && (call c sp).0.parent_live)
      × (one_if sp.started + ups (call c sp).1 ≡ one_if (call c sp).0.started + downs (call c sp).1)
unfolding call start stop cancel_parent ups downs one_if
call_lem (starts true b) sp h = (ground (arith, h, with_cancel_lem b), ground arith)
call_lem (starts false b) sp h = (ground (arith, h), ground arith)
call_lem stops sp h = (ground (arith, h), ground arith)
call_lem cancels_parent sp h = (dead sp.context sp.started, ground arith)
  where
    dead :
        (c : Context) (b : Bool)
        → is_live (elim c [ missing ↦ missing | live ↦ cancelled | cancelled ↦ cancelled ])
          ≡ b && false
    dead missing true = refl
    dead missing false = refl
    dead live true = refl
    dead live false = refl
    dead cancelled true = refl
    dead cancelled false = refl

-- In every state that a service reaches by calls of `Start` and `Stop` and by cancellations of the
-- context that `Start` was given, the service's context is live exactly when the service runs and the
-- given context is live, and the function of `Start` has succeeded once more than the function of
-- `Stop` was called if the service runs, and equally often if it does not.
pub Reaches_lem :
    {effects : List Effect} {sp : CommonService}
    → Reaches effects sp
    → (is_live sp.context ≡ sp.started && sp.parent_live)
      × (ups effects ≡ one_if sp.started + downs effects)
unfolding ups downs one_if new_common_service
Reaches_lem at_first = (refl, refl)
Reaches_lem (after {effects = es} {sp = s} c before) =
    let (alive, even) = Reaches_lem before in
    let (alive', change) = call_lem c s alive in
    let up = ups-append es (call c s).1 in
    let down = downs-append es (call c s).1 in (alive', omega (arith, even, change, up, down))
