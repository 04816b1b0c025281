-- ===== src/Task.antt =====
-- crates/orchestrator/src/state_machine.rs, over the `Task` of crates/dds-contract/src/lib.rs.
-- A method that takes `&mut Task` returns the task with its result; `now_ns()` is an argument.
pub mod Diagram
pub mod History
pub mod Reassign
use mathlib.Core.List.{List, [], ◌∷◌}
use dds_llm_orchestrator.Base.{
  ℕ, ◌+◌, ℤ, pos, negsuc, String, Bool, true, false, Result, ok, err, Method, ◌>>=◌, ◌>>◌, pure,
  modify, is_ok, leb, ◌==◌, if◌then◌else◌, u32,
}

pub data TaskStatus : Type 0 where
  pending assigned running done failed : TaskStatus

pub data TransitionError : Type 0 where
  invalid : TaskStatus → TaskStatus → TransitionError
  unknown_status : ℤ → TransitionError

-- `temperature` is an f32 that nothing here reads: it is kept as its bit pattern.
pub record Task : Type 0 where
  pub task_id : String
  pub client_id : String
  pub assigned_agent : String
  pub target_agent : String
  pub model_required : ℤ
  pub model_name : String
  pub messages_json : String
  pub temperature : ℕ
  pub max_tokens : ℕ
  pub stream : Bool
  pub status : ℤ
  pub priority : ℤ
  pub created_at_ns : ℕ
  pub assigned_at_ns : ℕ
  pub started_at_ns : ℕ
  pub completed_at_ns : ℕ
  pub deadline_ns : ℕ
  pub retry_count : ℕ
  pub finish_reason : String
  pub t_serialization_ns : ℕ
  pub t_transport_send_ns : ℕ
  pub t_agent_queue_ns : ℕ
  pub t_inference_ns : ℕ
  pub t_transport_return_ns : ℕ
  pub t_deserialization_ns : ℕ

unfoldable pub is_terminal : TaskStatus → Bool
is_terminal done = true
is_terminal failed = true
is_terminal _ = false

-- `to as i32`
unfoldable pub to_wire : TaskStatus → ℤ
to_wire pending = pos 0
to_wire assigned = pos 1
to_wire running = pos 2
to_wire done = pos 3
to_wire failed = pos 4

unfoldable pub try_from : ℤ → Result TransitionError TaskStatus
try_from (negsuc n) = err (unknown_status (negsuc n))
try_from (pos n) =
    if n == 0
    then ok pending
    else if n == 1
    then ok assigned
    else if n == 2
    then ok running
    else if n == 3
    then ok done
    else if n == 4
    then ok failed
    else err (unknown_status (pos n))

unfoldable pub can_transition : TaskStatus → TaskStatus → Bool
can_transition pending assigned = true
can_transition assigned running = true
can_transition assigned pending = true
can_transition assigned failed = true
can_transition running done = true
can_transition running failed = true
can_transition running pending = true
can_transition _ _ = false

abbrev pub Op : Type 0 → Type 0
Op = Method Task TransitionError

-- The status on the wire, or the early return of `?`.
abbrev read_status : Op TaskStatus
read_status t = (t, try_from t.status)

abbrev guard_transition : TaskStatus → TaskStatus → Op (Unit {0})
guard_transition from to t = (t, if can_transition from to then ok tt else err (invalid from to))

unfoldable pub transition : TaskStatus → Op (Unit {0})
unfolding try_from can_transition to_wire
transition to = do
  from ← read_status
  guard_transition from to
  modify (λ t. record t { status = to_wire to })

unfoldable pub assign : String → ℕ → Op (Unit {0})
unfolding transition
assign agent_id now = do
  transition assigned
  modify (λ t. record t { assigned_agent = agent_id; assigned_at_ns = now })

unfoldable pub start_running : ℕ → Op (Unit {0})
unfolding transition
start_running now = do transition running; modify (λ t. record t { started_at_ns = now })

unfoldable pub complete : ℕ → Op (Unit {0})
unfolding transition
complete now = do
  transition done
  modify (λ t. record t { completed_at_ns = now; finish_reason = "COMPLETION" })

unfoldable pub fail : String → ℕ → Op (Unit {0})
unfolding transition
fail reason now = do
  transition failed
  modify (λ t. record t { completed_at_ns = now; finish_reason = reason })

-- The assignments of the requeueing branch.
abbrev pub requeued : ℕ → Task → Task
requeued now t = record t {
  retry_count = u32 (t.retry_count + 1);
  assigned_agent = "";
  target_agent = "";
  assigned_at_ns = 0;
  started_at_ns = 0;
  created_at_ns = now;
}

abbrev give_up : ℕ → Op Bool
give_up now = do fail "MAX_RETRIES_EXCEEDED" now; pure false

abbrev requeue : ℕ → Op Bool
requeue now = do transition pending; modify (requeued now); pure true

unfoldable pub reassign : ℕ → ℕ → Op Bool
unfolding fail transition
reassign max_retries now t = if leb max_retries t.retry_count then give_up now t else requeue now t

-- One call of the state machine, and any history of calls.
pub data Call : Type 0 where
  assigns : String → ℕ → Call
  starts completes : ℕ → Call
  fails : String → ℕ → Call
  reassigns : ℕ → ℕ → Call

-- What the caller sees of one call: the task after it, and whether it succeeded.
unfoldable pub step : Call → Task → Task × Bool
unfolding assign start_running complete fail reassign
step (assigns agent now) t = let (t', r) = assign agent now t in (t', is_ok r)
step (starts now) t = let (t', r) = start_running now t in (t', is_ok r)
step (completes now) t = let (t', r) = complete now t in (t', is_ok r)
step (fails reason now) t = let (t', r) = fail reason now t in (t', is_ok r)
step (reassigns max now) t = let (t', r) = reassign max now t in (t', is_ok r)

unfoldable pub run : List Call → Task → Task
unfolding step
run [] t = t
run (c ∷ cs) t = run cs (step c t).0
