-- ===== src/Cron/Examples.antt =====
-- Concrete tasks through the theorems on the cron tasker.
use esp32c3_sms_gateway.Prelude.{ℕ, ◌+◌, ◌*◌, ◌≤◌, ◌≡◌, ◌≢◌, refl, true, List, [], ◌∷◌, length}
use esp32c3_sms_gateway.Prelude.Text.{ascii}
use esp32c3_sms_gateway.Cron.{CronTask, cron_pass, action_of}
use esp32c3_sms_gateway.Cron.Runs.{actions_at, length-actions_at, cron_pass_late}

abbrev utc : ℕ → ℕ → ℕ → ℕ → ℕ
utc now hour minute days = 1800000000 + 86400 * days + 3600 * hour + 60 * minute

abbrev ping_once : CronTask
ping_once = record {
  enabled = true;
  kind = 0;
  hour = 8;
  minute = 30;
  days_interval = 0;
  ping_target = [];
  phone = [];
  content = [];
  next_run_epoch = 1800030600;
}

abbrev two_looks : List (ℕ × List ℕ)
two_looks = (1800030700, ascii "08:31") ∷ (1800030760, ascii "08:32") ∷ []

length-actions_at_example : length (actions_at utc 1 two_looks ping_once) ≤ 1
length-actions_at_example = length-actions_at utc 1 two_looks ping_once refl

acts : (cron_pass utc 1 (ascii "08:31") 1800030700 ping_once).1 ≢ []
unfolding cron_pass action_of
acts e = cc

cron_pass_late_example : (ping_once.enabled ≡ true) × (ping_once.next_run_epoch + 60 ≤ 1800030700)
cron_pass_late_example = cron_pass_late utc 1 (ascii "08:31") 1800030700 ping_once acts
