-- ===== src/Client/Cron.antt =====
-- client/client.go: the calls for cron jobs.
use vassago_sdk.Prelude.{ℕ, Bool, List, map, Option, Text, codes}
use vassago_sdk.Prelude.Int.{ℤ}
use vassago_sdk.Prelude.Effects.{Io}
use vassago_sdk.Client.{Event}
use vassago_sdk.Client.Wire.{Pb, CronJob, Rpc}
use vassago_sdk.Client.Exchange.{Api, answered}

pub record CronJobInfo : Type 0 where
  pub id : Text
  pub name : Text
  pub schedule : Text
  pub agent_id : Text
  pub message : Text
  pub enabled : Bool
  pub created_at : ℤ
  pub updated_at : ℤ
  pub last_fire_at : ℤ
  pub next_fire_at : ℤ

abbrev pub proto_cron_job_to_info : CronJob → CronJobInfo
proto_cron_job_to_info job = record {
  id = job.id;
  name = job.name;
  schedule = job.schedule;
  agent_id = job.agent_id;
  message = job.message;
  enabled = job.enabled;
  created_at = job.created_at;
  updated_at = job.updated_at;
  last_fire_at = job.last_fire_at;
  next_fire_at = job.next_fire_at;
}

module _ {pb : Pb} (api : Api pb) (conn : ℕ) where
  unfoldable pub create_cron_job : Text → Text → Text → Text → Option Bool → Io Event CronJobInfo
  create_cron_job name schedule agent_id message enabled =
      answered api conn (codes "CreateCronJob")
        (Rpc.create_cron_job name schedule agent_id message enabled) (proto_cron_job_to_info)

  unfoldable pub list_cron_jobs : Text → Bool → Io Event (List CronJobInfo)
  list_cron_jobs agent_id include_disabled =
      answered api conn (codes "ListCronJobs") (Rpc.list_cron_jobs agent_id include_disabled)
        (map proto_cron_job_to_info)

  unfoldable pub update_cron_job :
      Text → Option Text → Option Text → Option Text → Option Bool → Io Event CronJobInfo
  update_cron_job id name schedule message enabled =
      answered api conn (codes "UpdateCronJob")
        (Rpc.update_cron_job id name schedule message enabled) (proto_cron_job_to_info)

  unfoldable pub delete_cron_job : Text → Io Event (Unit {0})
  delete_cron_job id = answered api conn (codes "DeleteCronJob") (Rpc.delete_cron_job id) (λ r. tt)
