-- ===== src/Models/People.antt =====
-- Users, teams, recipient lists and opt-in consents (domain/models.py).
use growth_track.Prelude.{ℕ, String, Bool, true, false, Option, List}

pub data Role : Type 0 where
  administrator sales_user manager : Role

pub data UserStatus : Type 0 where
  active inactive : UserStatus

pub data TeamStatus : Type 0 where
  active inactive : TeamStatus

pub data RecipientListKind : Type 0 where
  group channel : RecipientListKind

pub data RecipientListStatus : Type 0 where
  active inactive : RecipientListStatus

pub data ThemePreference : Type 0 where
  light dark system : ThemePreference

pub record User : Type 0 where
  pub id : ℕ
  pub username : Option String
  pub hashed_password : Option String
  pub role : Role
  pub status : UserStatus
  pub version : ℕ
  pub created_at : ℕ
  pub name : Option String
  pub mobile : Option String
  pub team_id : Option ℕ
  pub failed_login_count : ℕ
  pub locked_until : Option ℕ
  pub theme_preference : ThemePreference

pub record PasswordResetToken : Type 0 where
  pub id : ℕ
  pub user_id : ℕ
  pub token_hash : String
  pub expires_at : ℕ
  pub used_at : Option ℕ
  pub created_at : ℕ

pub record Team : Type 0 where
  pub id : ℕ
  pub name : String
  pub status : TeamStatus
  pub version : ℕ

pub record RecipientList : Type 0 where
  pub id : ℕ
  pub name : String
  pub kind : RecipientListKind
  pub status : RecipientListStatus
  pub version : ℕ
  pub member_user_ids : List ℕ

pub record OptInConsent : Type 0 where
  pub id : ℕ
  pub user_id : ℕ
  pub mobile : String
  pub granted_at : ℕ
  pub revoked_at : Option ℕ

-- `role == Role.ADMINISTRATOR`.
abbrev pub is_administrator : Role → Bool
is_administrator Role.administrator = true
is_administrator Role.sales_user = false
is_administrator Role.manager = false

-- `status == UserStatus.ACTIVE`.
abbrev pub is_active_user : UserStatus → Bool
is_active_user UserStatus.active = true
is_active_user UserStatus.inactive = false

-- `status == TeamStatus.ACTIVE`.
abbrev pub is_active_team : TeamStatus → Bool
is_active_team TeamStatus.active = true
is_active_team TeamStatus.inactive = false

-- `status == RecipientListStatus.ACTIVE`.
abbrev pub is_active_list : RecipientListStatus → Bool
is_active_list RecipientListStatus.active = true
is_active_list RecipientListStatus.inactive = false
