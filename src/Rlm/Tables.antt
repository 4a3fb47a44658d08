-- ===== src/Rlm/Tables.antt =====
-- rlm_orw.py: the tables that the module reads and writes (services/auth/freeradius and the
-- migrations), and what stands outside of it. A Boolean column that is NULL counts as false in
-- every test of the code; the numbers of VLANs are those that the API admits, at least 1.
use openradiusweb.Prelude.{ℕ, Bool, true, false, Option, none, some, List, [], ◌∷◌}
use openradiusweb.Prelude.Text.{Text, text_eq}
use openradiusweb.Prelude.Result.{Result}
use openradiusweb.Rlm.Attrs.{AttrValue, Attrs}
use openradiusweb.Rlm.Failure.{Failure, Reply}

-- A row of `mab_devices`; the address as the database writes it.
pub record MabDevice : Type 0 where
  pub mac_address : Text
  pub name : Option Text
  pub assigned_vlan_id : Option ℕ
  pub enabled : Bool
  pub expiry_date : Option ℕ
  pub tenant_id : Option Text

-- A row of `group_vlan_mappings`.
pub record GroupMapping : Type 0 where
  pub group_name : Text
  pub vlan_id : ℕ
  pub priority : ℕ
  pub enabled : Bool
  pub tenant_id : Option Text

-- A row of `ldap_servers`, the columns that are read.
pub record LdapServer : Type 0 where
  pub host : Text
  pub port : Option ℕ
  pub use_tls : Bool
  pub use_starttls : Bool
  pub bind_dn : Text
  pub bind_password_encrypted : Text
  pub base_dn : Text
  pub user_search_base : Option Text
  pub user_search_filter : Option Text
  pub group_membership_attr : Option Text
  pub priority : ℕ
  pub enabled : Bool
  pub tenant_id : Option Text

-- A row of `radius_auth_log`. A column that takes an attribute of the request holds what the dict
-- gives; the two JSON columns hold the dicts that they write.
pub record AuthLog : Type 0 where
  pub request_type : Text
  pub auth_result : Text
  pub auth_method : Text
  pub failure : Failure
  pub radius_reply_message : Option Text
  pub session_id : Option AttrValue
  pub eap_type : Option AttrValue
  pub calling_station_id : Option AttrValue
  pub username : Option AttrValue
  pub user_domain : Option Text
  pub nas_ip : Option AttrValue
  pub nas_port : Option AttrValue
  pub nas_port_type : Option AttrValue
  pub nas_port_id : Option AttrValue
  pub nas_identifier : Option AttrValue
  pub assigned_vlan : Option ℕ
  pub filter_id : Option Text
  pub cert_info : Attrs
  pub service_type : Option AttrValue
  pub framed_ip : Option Text
  pub source_ip : Option AttrValue
  pub processing_time_ms : ℕ
  pub policy_matched : Option Text
  pub request_attributes : Attrs
  pub response_attributes : Reply
  pub realm_name : Option Text
  pub tenant_id : Option Text

pub record Db : Type 0 where
  pub mab_devices : List MabDevice
  pub ldap_servers : List LdapServer
  pub group_vlan_mappings : List GroupMapping
  pub radius_auth_log : List AuthLog

-- What one search at the directory is asked.
pub record LdapQuery : Type 0 where
  pub host : Text
  pub port : ℕ
  pub use_ssl : Bool
  pub start_tls : Bool
  pub bind_dn : Text
  pub bind_password : Text
  pub search_base : Text
  pub search_filter : Text
  pub attribute : Text

-- What the module takes from outside: whether the database answers, the tenant of the
-- environment, the clock, the cast `%s::macaddr` (none where it raises), whether an INSERT is
-- accepted, `decrypt_secret`, and the directory, which gives for each entry the values of the
-- attribute, if the entry has it, or raises (none).
pub record Outside : Type 0 where
  pub connected : Bool
  pub tenant : Option Text
  pub now : ℕ
  pub processing_time : ℕ
  pub cast_macaddr : Text → Option Text
  pub accepts_row : AuthLog → Bool
  pub has_ldap3 : Bool
  pub decrypt : Text → Result (Option Text)
  pub search : LdapQuery → Option (List (Option (List Text)))

abbrev same_tenant : Option Text → Text → Bool
same_tenant none t = false
same_tenant (some s) t = text_eq s t

-- `AND tenant_id = %s`, which is there if the environment names a tenant that is not empty.
abbrev pub of_tenant : Option Text → Option Text → Bool
of_tenant none column = true
of_tenant (some []) column = true
of_tenant (some (c ∷ t)) column = same_tenant column (c ∷ t)
