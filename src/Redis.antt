-- ===== src/Redis.antt =====
-- LHJSample/RedisManager.cpp and RedisTaskDefine.h: the two queues of tasks and the task threads.
-- A call that holds one of the two locks is an atomic step. `Conn` is what the connection class
-- keeps.
use lhjsample.Common.{
  ℕ, ◌+◌, Bool, true, false, List, [], ◌∷◌, ◌++◌, ◌==◌, if◌then◌else◌, none, some, get_elem?, take,
  drop, ◌≡◌,
}

-- `RedisTaskID::INVALID`, the only member of the enum that is not commented out.
abbrev pub invalid : ℕ
invalid = 0

-- `p_data` is the `DataSize` bytes at `pData`.
pub record RedisTask : Type 0 where
  pub user_index : ℕ
  pub task_id : ℕ
  pub p_data : List ℕ

-- `RedisTask()`
abbrev pub no_task : RedisTask
no_task = record { user_index = 0; task_id = invalid; p_data = [] }

-- `held` are the tasks that the threads have taken and not yet released, each the variable `task` of
-- one of them, and `released` records the tasks that `Release` was called on, the latest last.
pub record RedisManager : Type 0 where
  pub is_task_run : Bool
  pub thread_count : ℕ
  pub request_task : List RedisTask
  pub response_task : List RedisTask
  pub held : List RedisTask
  pub released : List RedisTask

-- `PushTask`
unfoldable pub push_task : RedisTask → RedisManager → RedisManager
push_task task m = record m { request_task = m.request_task ++ task ∷ [] }

-- `PushResponse`
unfoldable pub push_response : RedisTask → RedisManager → RedisManager
push_response task m = record m { response_task = m.response_task ++ task ∷ [] }

-- `TakeResponseTask`
unfoldable pub take_response_task : RedisManager → RedisTask × RedisManager
take_response_task m = elim m.response_task [
  | [] ↦ (no_task, m)
  | task ∷ rest ↦ (task, record m { response_task = rest })
]

-- `TakeRequestTask`
unfoldable pub take_request_task : RedisManager → RedisTask × RedisManager
take_request_task m = elim m.request_task [
  | [] ↦ (no_task, m)
  | task ∷ rest ↦ (task, record m { request_task = rest })
]

-- A round of `TaskProcessThread` up to `Release`: what would answer a login is commented out.
unfoldable pub task_process_take : RedisManager → RedisManager
unfolding take_request_task
task_process_take m =
    let (task, taken) = take_request_task m in
    if task.task_id == invalid then taken else record taken { held = taken.held ++ task ∷ [] }

-- `Release` at the end of the round, outside the locks, by the thread that holds the task at
-- position `j` of `held`.
unfoldable pub task_process_release : ℕ → RedisManager → RedisManager
task_process_release j m = elim (get_elem? m.held j) [
  | none ↦ m
  | some task ↦ record m {
    held = take j m.held ++ drop (j + 1) m.held;
    released = m.released ++ task ∷ [];
  }
]

-- `Connect` over the connection class: whether its `connect` succeeds.
unfoldable pub connect :
    {Conn : Type 0} → (List ℕ → ℕ → Conn → Bool × Conn) → List ℕ → ℕ → Conn → Bool × Conn
connect conn_connect ip port conn = conn_connect ip port conn

-- `Run`
unfoldable pub run_threads :
    {Conn : Type 0}
    → (List ℕ → ℕ → Conn → Bool × Conn)
    → List ℕ
    → ℕ
    → ℕ
    → Conn × RedisManager
    → Bool × Conn × RedisManager
unfolding connect
run_threads conn_connect ip port thread_count (conn, m) =
    let (connected, after) = connect conn_connect ip port conn in
    if connected
    then (true, after, record m { is_task_run = true; thread_count = thread_count })
    else (false, after, m)

-- `End`: each of the threads is joined.
unfoldable pub end : RedisManager → RedisManager
end m = record m { is_task_run = false }

-- A step of a thread of the program: a call under one of the locks, or the release of a task.
pub data RedisStep : Type 0 where
  push : RedisTask → RedisStep
  process take_response : RedisStep
  release : ℕ → RedisStep

unfoldable pub redis_step : RedisStep → RedisManager → RedisManager
unfolding push_task task_process_take task_process_release take_response_task
redis_step (push task) m = push_task task m
redis_step process m = task_process_take m
redis_step take_response m = (take_response_task m).1
redis_step (release j) m = task_process_release j m

unfoldable pub redis_run : List RedisStep → RedisManager → RedisManager
unfolding redis_step
redis_run [] m = m
redis_run (step ∷ steps) m = redis_run steps (redis_step step m)

abbrev pub pushed : List RedisStep → List RedisTask
pushed [] = []
pushed (push task ∷ steps) = task ∷ pushed steps
pushed (_ ∷ steps) = pushed steps

-- Every task has the only id that the enum has.
abbrev pub AllInvalid : List RedisTask → Type 0
AllInvalid [] = Unit
AllInvalid (task ∷ tasks) = (task.task_id ≡ invalid) × AllInvalid tasks

-- What has been taken and what waits, in order, when nothing is held, released or answered.
record Discarded (m : RedisManager) (tasks : List RedisTask) : Type 0 where
  pub taken : List RedisTask
  pub order : taken ++ m.request_task ≡ tasks
  pub valid : AllInvalid m.request_task
  pub unheld : m.held ≡ []
  pub unreleased : m.released ≡ []
  pub silent : m.response_task ≡ []
