-- ===== src/Cron.antt =====
-- components/cron_tasker/cron_tasker.c: one pass of the loop of `cron_worker_task` over a task.
-- `localtime_r`, `mktime` and `strftime` belong to the C library: `mktime now hour minute days` is
-- the time of that hour and minute, `days` days after the day of `now`. A negative day interval,
-- which the code treats like 0, stands as 0.
pub mod Runs
mod Examples
use esp32c3_sms_gateway.Prelude.{
  ℕ, ◌+◌, ◌-◌, ◌%◌, ◌^◌, Bool, true, false, ◌&&◌, Option, none, some, List, [], ◌∷◌, ◌++◌, length,
  ltb, leb, ◌==◌, if◌then◌else◌,
}
use esp32c3_sms_gateway.Prelude.Text.{ascii, copy_str}

-- An entry of `cronTasks`.
pub record CronTask : Type 0 where
  pub enabled : Bool
  pub kind : ℕ
  pub hour : ℕ
  pub minute : ℕ
  pub days_interval : ℕ
  pub ping_target : List ℕ
  pub phone : List ℕ
  pub content : List ℕ
  pub next_run_epoch : ℕ

-- `cron_action_t`
pub data CronAction : Type 0 where
  ping : (target : List ℕ) (count timeout_s task_id : ℕ) (timestamp : List ℕ) → CronAction
  send_sms : (phone content : List ℕ) (task_id : ℕ) (timestamp : List ℕ) → CronAction

-- "设备定时报告：运作正常"
abbrev pub default_content : List ℕ
default_content =
    0xe8 ∷ 0xae ∷ 0xbe ∷ 0xe5 ∷ 0xa4 ∷ 0x87 ∷ 0xe5 ∷ 0xae ∷ 0x9a ∷ 0xe6 ∷ 0x97 ∷ 0xb6 ∷ 0xe6 ∷ 0x8a
    ∷ 0xa5 ∷ 0xe5 ∷ 0x91 ∷ 0x8a ∷ 0xef ∷ 0xbc ∷ 0x9a ∷ 0xe8 ∷ 0xbf ∷ 0x90 ∷ 0xe4 ∷ 0xbd ∷ 0x9c
    ∷ 0xe6 ∷ 0xad ∷ 0xa3 ∷ 0xe5 ∷ 0xb8 ∷ 0xb8 ∷ []

abbrev pub or_else : List ℕ → List ℕ → List ℕ
or_else s d = if length s == 0 then d else s

module _ (mktime : ℕ → ℕ → ℕ → ℕ → ℕ) where
  -- The result is an `unsigned long` of 32 bits.
  unfoldable pub calculate_next_run_epoch : ℕ → ℕ → ℕ → ℕ → ℕ
  calculate_next_run_epoch now hour minute days_offset =
      let target = mktime now hour minute days_offset in
      (if leb target now && days_offset == 0 then mktime now hour minute 1 else target) % 2 ^ 32

  -- What the task hands to the action queue.
  unfoldable pub action_of : CronTask → ℕ → List ℕ → List CronAction
  action_of task task_id time_str =
      if task.kind == 0
      then ping (copy_str 64 (or_else task.ping_target (ascii "8.8.8.8"))) 4 30 task_id time_str
        ∷ []
      else if task.kind == 1
      then send_sms (copy_str 32 task.phone) (copy_str 320 (or_else task.content default_content))
          task_id time_str
        ∷ []
      else []

  -- The schedule behind a run.
  unfoldable pub reschedule : ℕ → CronTask → CronTask
  reschedule now task =
      if ltb 0 task.days_interval
      then record task {
        next_run_epoch = calculate_next_run_epoch now task.hour task.minute task.days_interval;
      }
      else record task { enabled = false; next_run_epoch = 0 }

  -- The body of the loop over the tasks: the task, its actions, and whether to save it.
  unfoldable pub cron_pass : ℕ → List ℕ → ℕ → CronTask → CronTask × List CronAction × Bool
  cron_pass task_id time_str now task =
      if task.enabled
      then if task.next_run_epoch == 0
        then (
          record task { next_run_epoch = calculate_next_run_epoch now task.hour task.minute 0 },
          [],
          true,
        )
        else if leb task.next_run_epoch (now % 2 ^ 32)
        then if ltb (now - task.next_run_epoch) 60
          then (task, [], false)
          else (reschedule now task, action_of task task_id time_str, true)
        else (task, [], false)
      else (task, [], false)
