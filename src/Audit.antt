-- ===== src/Audit.antt =====
-- The audit log of bounded_contexts/audit: domain/entities/audit_event.py, the targets and
-- application/use_cases/record_audit_event.py. A request collects its events in a list, which is written
-- after the request, whether its transaction was kept or rolled back. The time of an event and the
-- context of its request (its identifier, address and agent) are left out: nothing here reads them.
pub mod Retention
pub mod Chunks
mod Tests
use fastapitemplate.Common.{ℕ, String, Option, List, [], ◌∷◌, ◌++◌}

pub data AuditEventType : Type 0 where
  login_succeeded login_failed login_locked refresh_token_reused password_changed : AuditEventType
  password_reset_requested password_reset_completed role_switched sso_login_succeeded :
      AuditEventType
  sso_login_failed sso_user_provisioned sso_identity_linked sso_identity_unlinked : AuditEventType
  two_factor_enabled two_factor_disabled passkey_registered passkey_deleted user_created :
      AuditEventType
  user_updated user_deleted role_created role_updated role_deleted system_settings_updated :
      AuditEventType
  content_settings_updated service_restart_requested profile_updated group_created : AuditEventType
  group_updated group_deleted notification_sent tenant_created tenant_updated tenant_deleted :
      AuditEventType
  tenant_admin_designated system_admin_added system_admin_removed machine_token_issued :
      AuditEventType
  machine_token_refused machine_operation_refused machine_operation_performed : AuditEventType

pub data AuditResult : Type 0 where
  success failure : AuditResult

pub data AuditTargetType : Type 0 where
  target_user target_role passkey two_factor system_settings content_settings service target_group
        notification tenant machine_client :
      AuditTargetType

pub record AuditTarget : Type 0 where
  pub type : AuditTargetType
  pub identifier : Option String

pub record AuditEvent : Type 0 where
  pub event_type : AuditEventType
  pub result : AuditResult
  pub actor_user_id : Option ℕ
  pub target : Option AuditTarget
  pub reason : Option String

-- `RecordAuditEvent.execute`, with the actor that the recorder is bound to.
unfoldable pub record_event :
    List AuditEvent
    → (actor_user_id : Option ℕ) → AuditEventType
    → AuditResult
    → Option AuditTarget
    → (reason : Option String) → List AuditEvent
record_event events actor_user_id event_type result target reason =
    events
    ++ record {
      event_type = event_type;
      result = result;
      actor_user_id = actor_user_id;
      target = target;
      reason = reason;
    }
      ∷ []
