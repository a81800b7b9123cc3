-- ===== src/Db/Teams.antt =====
-- packages/db/src/nextballup_db/models/team.py and models/user.py: the columns that decide access.
use nextballup.Prelude.{ℕ, Bool, Option}
use nextballup.Core.Text.{Text}
use nextballup.Core.Enums.{UserRole, TeamRole, TeamLevel, InstitutionType}

pub record User : Type 0 where
  pub id : ℕ
  pub role : UserRole
  pub email : Text
  pub password_hash : Text
  pub is_active : Bool
  pub is_verified : Bool
  pub session_version : ℕ
  pub parental_consent_on_file : Bool
  pub date_of_birth_verified : Bool

pub record Team : Type 0 where
  pub id : ℕ
  pub name : Text
  pub level : TeamLevel
  pub institution_type : InstitutionType
  pub invite_code : Text
  pub is_active : Bool
  pub deleted_at : Option ℕ

pub record TeamMembership : Type 0 where
  pub team_id : ℕ
  pub user_id : ℕ
  pub team_role : TeamRole
  pub jersey_number : Option ℕ
  pub is_active : Bool

pub record TeamInvite : Type 0 where
  pub id : ℕ
  pub team_id : ℕ
  pub invite_code : Text
  pub role : TeamRole
  pub max_uses : ℕ
  pub uses : ℕ
  pub expires_at : ℕ
  pub created_by : ℕ
  pub is_active : Bool

pub record TeamPrivacyConsent : Type 0 where
  pub id : ℕ
  pub team_id : ℕ
  pub recorded_by : Option ℕ
  pub covers_video_uploads : Bool
  pub covers_cv_processing : Bool
  pub commercial_ml_training_allowed : Bool
  pub minors_authorized : Bool
  pub athlete_pii_authorized : Bool
  pub effective_at : ℕ
  pub expires_at : Option ℕ
  pub revoked_at : Option ℕ
