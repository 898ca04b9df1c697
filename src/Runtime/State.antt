-- ===== src/Runtime/State.antt =====
-- agent_control/runtime.py: `STATES`, `TERMINAL`, `WAITING`, `_RECOVERABLE_ON_RESTART` and
-- `_ALLOWED`. A task's state is a text; `other` is one that is not in `STATES`.
use freaky_monkey.Base.{String, Bool, true, false, ◌≡◌, refl, arith, ◌||◌}

pub data RuntimeState : Type 0 where
  created planning waiting_for_approval waiting_for_user waiting_for_human : RuntimeState
  running verifying completed failed cancelled blocked : RuntimeState
  recovery_required recovering expired : RuntimeState
  other : String → RuntimeState

abbrev pub state_text : RuntimeState → String
state_text created = "CREATED"
state_text planning = "PLANNING"
state_text waiting_for_approval = "WAITING_FOR_APPROVAL"
state_text waiting_for_user = "WAITING_FOR_USER"
state_text waiting_for_human = "WAITING_FOR_HUMAN"
state_text running = "RUNNING"
state_text verifying = "VERIFYING"
state_text completed = "COMPLETED"
state_text failed = "FAILED"
state_text cancelled = "CANCELLED"
state_text blocked = "BLOCKED"
state_text recovery_required = "RECOVERY_REQUIRED"
state_text recovering = "RECOVERING"
state_text expired = "EXPIRED"
state_text (other s) = s

abbrev pub is_known : RuntimeState → Bool
is_known (other _) = false
is_known _ = true

abbrev pub is_terminal : RuntimeState → Bool
is_terminal completed = true
is_terminal failed = true
is_terminal cancelled = true
is_terminal expired = true
is_terminal _ = false

abbrev pub is_waiting : RuntimeState → Bool
is_waiting waiting_for_approval = true
is_waiting waiting_for_user = true
is_waiting waiting_for_human = true
is_waiting _ = false

-- `_RECOVERABLE_ON_RESTART`
abbrev pub is_in_flight : RuntimeState → Bool
is_in_flight planning = true
is_in_flight running = true
is_in_flight verifying = true
is_in_flight _ = false

-- Whether two states are the same text, for a state on the right that is in `STATES`.
abbrev pub same_state : RuntimeState → RuntimeState → Bool
same_state created created = true
same_state planning planning = true
same_state waiting_for_approval waiting_for_approval = true
same_state waiting_for_user waiting_for_user = true
same_state waiting_for_human waiting_for_human = true
same_state running running = true
same_state verifying verifying = true
same_state completed completed = true
same_state failed failed = true
same_state cancelled cancelled = true
same_state blocked blocked = true
same_state recovery_required recovery_required = true
same_state recovering recovering = true
same_state expired expired = true
same_state _ _ = false

-- `target in _ALLOWED.get(state, frozenset())`
unfoldable pub allowed : RuntimeState → RuntimeState → Bool
allowed created planning = true
allowed created running = true
allowed created waiting_for_approval = true
allowed created waiting_for_user = true
allowed created waiting_for_human = true
allowed created blocked = true
allowed created cancelled = true
allowed created failed = true
allowed planning running = true
allowed planning waiting_for_approval = true
allowed planning waiting_for_user = true
allowed planning waiting_for_human = true
allowed planning blocked = true
allowed planning failed = true
allowed planning cancelled = true
allowed planning recovery_required = true
allowed waiting_for_approval running = true
allowed waiting_for_approval cancelled = true
allowed waiting_for_approval failed = true
allowed waiting_for_approval expired = true
allowed waiting_for_user running = true
allowed waiting_for_user waiting_for_approval = true
allowed waiting_for_user cancelled = true
allowed waiting_for_user failed = true
allowed waiting_for_user expired = true
allowed waiting_for_human running = true
allowed waiting_for_human cancelled = true
allowed waiting_for_human failed = true
allowed waiting_for_human expired = true
allowed running planning = true
allowed running verifying = true
allowed running waiting_for_approval = true
allowed running waiting_for_user = true
allowed running waiting_for_human = true
allowed running completed = true
allowed running failed = true
allowed running cancelled = true
allowed running recovery_required = true
allowed running blocked = true
allowed verifying completed = true
allowed verifying failed = true
allowed verifying waiting_for_user = true
allowed verifying waiting_for_human = true
allowed verifying recovery_required = true
allowed verifying cancelled = true
allowed verifying running = true
allowed blocked running = true
allowed blocked waiting_for_user = true
allowed blocked waiting_for_human = true
allowed blocked cancelled = true
allowed blocked failed = true
allowed blocked recovery_required = true
allowed recovery_required running = true
allowed recovery_required waiting_for_user = true
allowed recovery_required waiting_for_human = true
allowed recovery_required cancelled = true
allowed recovery_required failed = true
allowed recovery_required recovering = true
allowed recovering running = true
allowed recovering waiting_for_user = true
allowed recovering waiting_for_human = true
allowed recovering completed = true
allowed recovering failed = true
allowed recovering cancelled = true
allowed _ _ = false

-- The test of `transition_task`: the same state again, or a step of the table.
unfoldable pub may_move : RuntimeState → RuntimeState → Bool
may_move s t = same_state s t || allowed s t

pub allowed-terminal : (s t : RuntimeState) → is_terminal s ≡ true → allowed s t ≡ false
unfolding allowed
allowed-terminal completed t h = refl
allowed-terminal failed t h = refl
allowed-terminal cancelled t h = refl
allowed-terminal expired t h = refl
allowed-terminal _ t h = absurd (ground arith)

pub same_state-eq : (s t : RuntimeState) → same_state s t ≡ true → s ≡ t
same_state-eq s t h = ground arith
