-- ===== src/Store/Schema/Addresses.antt =====
-- collections/setup.go: addresses and their settings. The code reads and writes the text fields of an
-- address by names it computes, so they are a map from names; the same holds of the flags of the
-- settings.
use project_tracker.Prelude.{String, List}

pub record AddressConfig : Type 0 where
  pub id : String
  pub project : String
  pub address_type : String
  pub columns : String

pub record Address : Type 0 where
  pub id : String
  pub address_type : String
  pub project : String
  pub ship_to_parent : String
  pub config : String
  pub address_code : String
  pub json_data : String
  pub fields : List (String × String)

-- `flags` are the names of the fields that are set.
pub record ProjectAddressSetting : Type 0 where
  pub id : String
  pub project : String
  pub address_type : String
  pub flags : List String
