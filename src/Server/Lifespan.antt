-- ===== src/Server/Lifespan.antt =====
-- server/app_factory.py, `lifespan`: what the application opens and starts, and what it gives back.
use decision_maker_flow.Prelude.{
  ℕ, ◌≡◌, refl, Bool, true, false, ◌&&◌, Option, none, some, List, [], ◌∷◌, ◌++◌, if◌then◌else◌,
}
use decision_maker_flow.Protocol.{follows, times, follows-times}

-- The steps on the checkpointer and the sweeper's task, in order. `used` is a call of the
-- checkpointer: `setup`, or one of a request or of a tick.
pub data LifeEvent : Type 0 where
  entered exited sweeper_started sweeper_cancelled used : LifeEvent

-- The call of the start-up that raises, if one does.
pub data StartupFault : Type 0 where
  no_fault at_build at_enter at_setup at_llm_client at_metrics at_cache at_sweeper : StartupFault

-- Which of the local variables are not None.
pub record Locals : Type 0 where
  pub checkpointer_cm : Bool
  pub checkpointer : Bool
  pub sweeper_task : Bool

abbrev after_setup : Locals
after_setup = record { checkpointer_cm = true; checkpointer = true; sweeper_task = false }

-- The start-up, up to the `yield` or the exception.
unfoldable pub startup : StartupFault → List LifeEvent × Locals
startup at_build =
    ([], record { checkpointer_cm = false; checkpointer = false; sweeper_task = false })
startup at_enter =
    ([], record { checkpointer_cm = true; checkpointer = false; sweeper_task = false })
startup at_setup = (entered ∷ used ∷ [], after_setup)
startup at_llm_client = (entered ∷ used ∷ [], after_setup)
startup at_metrics = (entered ∷ used ∷ [], after_setup)
startup at_cache = (entered ∷ used ∷ [], after_setup)
startup at_sweeper = (entered ∷ used ∷ [], after_setup)
startup no_fault = (
  entered ∷ used ∷ sweeper_started ∷ [],
  record { checkpointer_cm = true; checkpointer = true; sweeper_task = true },
)

abbrev serving : StartupFault → List LifeEvent → List LifeEvent
serving no_fault calls = calls
serving _ calls = []

-- The `finally` block; an exception of the task or of `__aexit__` is swallowed.
unfoldable pub shutdown : Locals → List LifeEvent
shutdown l =
    (if l.sweeper_task then sweeper_cancelled ∷ [] else [])
    ++ (if l.checkpointer_cm && l.checkpointer then exited ∷ [] else [])

-- The whole life, with a number of calls while it serves.
unfoldable pub lifespan : StartupFault → (calls : ℕ) → List LifeEvent
unfolding startup shutdown
lifespan fault calls =
    let (events, locals) = startup fault in
    events ++ serving fault (times calls used) ++ shutdown locals

-- What the checkpointer and the task allow.
pub data Phase : Type 0 where
  closed opened sweeping : Phase

unfoldable pub allowed : Phase → LifeEvent → Option Phase
allowed closed entered = some opened
allowed opened used = some opened
allowed opened sweeper_started = some sweeping
allowed opened exited = some closed
allowed sweeping used = some sweeping
allowed sweeping sweeper_cancelled = some opened
allowed _ _ = none

-- Wherever the start-up fails, and whatever is served if it does not: the checkpointer is used only
-- while it is open, it is closed after the sweeper has ended, and nothing is left open.
pub released :
    (fault : StartupFault) (calls : ℕ)
    → follows allowed (some closed) (lifespan fault calls) ≡ some closed
unfolding lifespan startup shutdown follows allowed
released no_fault calls =
    follows-times allowed sweeping used calls (sweeper_cancelled ∷ exited ∷ []) refl
released at_build calls = refl
released at_enter calls = refl
released at_setup calls = refl
released at_llm_client calls = refl
released at_metrics calls = refl
released at_cache calls = refl
released at_sweeper calls = refl
