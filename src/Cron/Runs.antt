-- ===== src/Cron/Runs.antt =====
-- When a task runs, and how often.
use esp32c3_sms_gateway.Prelude.{
  ℕ, ◌+◌, ◌-◌, ◌≤◌, ◌≡◌, ◌≢◌, refl, ◌⊎◌, ◌∙◌, ◌%◌, ◌^◌, arith, Bool, true, false, Bool-cases, inl,
  inr, List, [], ◌∷◌, ◌++◌, length, ltb, leb, ◌==◌,
}
use mathlib.Core.List.{append-nil}
use esp32c3_sms_gateway.Cron.{CronTask, CronAction, action_of, reschedule, cron_pass}

module _ (mktime : ℕ → ℕ → ℕ → ℕ → ℕ) where
  -- The passes at the times of a list: the actions of the task.
  unfoldable pub actions_at : ℕ → List (ℕ × List ℕ) → CronTask → List CronAction
  actions_at task_id [] task = []
  actions_at task_id ((now, time_str) ∷ later) task =
      let (task', actions, save) = cron_pass mktime task_id time_str now task in
      actions ++ actions_at task_id later task'

  length-action_of :
      (task : CronTask) (task_id : ℕ) (time_str : List ℕ)
      → length (action_of mktime task task_id time_str) ≤ 1
  unfolding action_of
  length-action_of task task_id time_str = ground arith

  cron_pass_disabled :
      (task_id : ℕ) (time_str : List ℕ) (now : ℕ) (task : CronTask)
      → task.enabled ≡ false
      → cron_pass mktime task_id time_str now task ≡ (task, [], false)
  unfolding cron_pass
  cron_pass_disabled task_id time_str now task e = ground (arith, e)

  actions_at_disabled :
      (task_id : ℕ) (times : List (ℕ × List ℕ)) (task : CronTask)
      → task.enabled ≡ false
      → actions_at task_id times task ≡ []
  unfolding actions_at
  actions_at_disabled task_id [] task e = refl
  actions_at_disabled task_id ((now, time_str) ∷ later) task e =
      rw (cron_pass_disabled task_id time_str now task e) (actions_at_disabled task_id later task e)

  -- A pass does nothing and keeps the interval, or it runs the task.
  abbrev PassOf : ℕ → List ℕ → ℕ → CronTask → CronTask × List CronAction × Bool → Type 0
  PassOf task_id time_str now task r =
      ((r.1 ≡ []) × (r.0.days_interval ≡ task.days_interval))
      ⊎ ((length r.1 ≤ 1)
          × (task.days_interval ≡ 0 → r.0.enabled ≡ false)
          × (task.enabled ≡ true)
          × (task.next_run_epoch + 60 ≤ now))

  cron_pass-PassOf :
      (task_id : ℕ) (time_str : List ℕ) (now : ℕ) (task : CronTask)
      → PassOf task_id time_str now task (cron_pass mktime task_id time_str now task)
  unfolding cron_pass reschedule
  cron_pass-PassOf task_id time_str now task = elim (Bool-cases task.enabled) [
    | inr off ↦ rw (cron_pass_disabled task_id time_str now task off) (inl (refl, refl))
    | inl on ↦ elim (Bool-cases (task.next_run_epoch == 0)) [
      | inl unset ↦ inl (ground (arith, on, unset), ground (arith, on, unset))
      | inr set ↦ elim (Bool-cases (leb task.next_run_epoch (now % 2 ^ 32))) [
        | inr early ↦ inl (ground (arith, on, set, early), ground (arith, on, set, early))
        | inl due ↦ elim (Bool-cases (ltb (now - task.next_run_epoch) 60)) [
          | inl fresh ↦
              inl (ground (arith, on, set, due, fresh), ground (arith, on, set, due, fresh))
          | inr late ↦ inr (
            ground (arith, on, set, due, late, length-action_of task task_id time_str),
            (λ once. ground (arith, on, set, due, late)),
            on,
            ground arith,
          )
        ]
      ]
    ]
  ]

  -- A task without a day interval acts at most once, however often and whenever the worker looks
  -- at it.
  pub length-actions_at :
      (task_id : ℕ) (times : List (ℕ × List ℕ)) (task : CronTask)
      → task.days_interval ≡ 0
      → length (actions_at task_id times task) ≤ 1
  unfolding actions_at
  length-actions_at task_id [] task once = omega arith
  length-actions_at task_id ((now, time_str) ∷ later) task once =
      elim (cron_pass-PassOf task_id time_str now task) [
        | inl (silent, same) ↦ rw silent (
            length-actions_at task_id later (cron_pass mktime task_id time_str now task).0
              (same ∙ once))
        | inr (few, stops, _, _) ↦
            rw
              (
                actions_at_disabled task_id later (cron_pass mktime task_id time_str now task).0
                    (stops once),
                append-nil (cron_pass mktime task_id time_str now task).1,
              )
              few
      ]

  -- A task acts only if it is enabled and the worker looks at it at least 60 seconds behind the
  -- time it is set for.
  pub cron_pass_late :
      (task_id : ℕ) (time_str : List ℕ) (now : ℕ) (task : CronTask)
      → (cron_pass mktime task_id time_str now task).1 ≢ []
      → (task.enabled ≡ true) × (task.next_run_epoch + 60 ≤ now)
  cron_pass_late task_id time_str now task acts =
      elim (cron_pass-PassOf task_id time_str now task) [
        | inl (silent, _) ↦ absurd (acts silent)
        | inr (_, _, on, late) ↦ (on, late)
      ]
