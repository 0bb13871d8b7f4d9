-- ===== src/Addresses/Required.antt =====
-- services/address_validation.go: the fields that a form marks as required are the ones that the
-- validation asks for.
use project_tracker.Prelude.{
  String, ◌==◌, ◌≡◌, ◌≢◌, ◌↔◌, inl, inr, refl, List, [], ◌∷◌, All, contains, Bool-cases, ne_of_test,
  test_of_ne,
}
use project_tracker.Prelude.Text.{◌<>◌}
use project_tracker.Store.App.{App}
use project_tracker.Store.Schema.{ProjectAddressSetting}
use project_tracker.Addresses.Fields.{
  Texts, text_at, AddressField, all_address_fields, flagged, missing_fields, settings_for,
  get_required_fields, validate_address,
}

module _ (app : App) where
  open app use {Db}

  -- Every named field has a value.
  abbrev pub Given : List String → Texts → Type 0
  Given names form_data = All (λ n. text_at n form_data ≢ "") names

  all_answered :
      (flags : List String) (form_data : Texts) (fs : List AddressField)
      → missing_fields app flags form_data fs ≡ []
      → Given (flagged app flags fs) form_data
  unfolding missing_fields flagged
  all_answered flags form_data [] h = tt
  all_answered flags form_data (f ∷ fs) h = elim (Bool-cases (contains ("req_" <> f.name) flags)) [
    | inr free ↦ rw free (all_answered flags form_data fs (rw free at h))
    | inl asked ↦ elim (Bool-cases (text_at f.name form_data == "")) [
      | inl blank ↦ absurd (cc (rw (asked, blank) at h))
      | inr filled ↦ rw asked (
        ne_of_test (text_at f.name form_data) "" filled,
        all_answered flags form_data fs (rw (asked, filled) at h),
      )
    ]
  ]

  none_missing :
      (flags : List String) (form_data : Texts) (fs : List AddressField)
      → Given (flagged app flags fs) form_data
      → missing_fields app flags form_data fs ≡ []
  unfolding missing_fields flagged
  none_missing flags form_data [] h = refl
  none_missing flags form_data (f ∷ fs) h = elim (Bool-cases (contains ("req_" <> f.name) flags)) [
    | inr free ↦ rw free (none_missing flags form_data fs (rw free at h))
    | inl asked ↦
        let (first, rest) = rw asked at h in
        rw (asked, test_of_ne (text_at f.name form_data) "" first)
          (none_missing flags form_data fs rest)
  ]

  by_settings :
      (form_data : Texts) (ss : List ProjectAddressSetting)
      → ((elim ss [ [] ↦ [] | s ∷ rest ↦ missing_fields app s.flags form_data all_address_fields ])
          ≡ [])
        ↔ Given (elim ss [ [] ↦ [] | s ∷ rest ↦ flagged app s.flags all_address_fields ]) form_data
  by_settings form_data [] = (λ h. tt, λ h. refl)
  by_settings form_data (s ∷ ss) = (
    all_answered s.flags form_data all_address_fields,
    none_missing s.flags form_data all_address_fields,
  )

  -- ValidateAddress reports nothing exactly when each field that GetRequiredFields names has a
  -- value that is not empty.
  pub validate_address-Given :
      (project_id address_type : String) (form_data : Texts) (db : Db)
      → (validate_address app project_id address_type form_data db ≡ [])
        ↔ Given (get_required_fields app project_id address_type db) form_data
  unfolding validate_address get_required_fields
  validate_address-Given project_id address_type form_data db =
      by_settings form_data (settings_for app project_id address_type db)
