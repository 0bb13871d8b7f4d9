-- ===== src/Store/Status.antt =====
-- Tests on the values of the select fields, and queries whose error the caller drops.
use project_tracker.Prelude.{◌≡◌, refl, Bool, true, false, Option, none, some, List, []}
use project_tracker.Store.Schema.{DcType, transit, transfer, DcStatus, GroupStatus, SerialTracking}

abbrev pub is_draft : DcStatus → Bool
is_draft DcStatus.draft = true
is_draft _ = false

abbrev pub is_issued : DcStatus → Bool
is_issued DcStatus.issued = true
is_issued _ = false

abbrev pub is_splitting : DcStatus → Bool
is_splitting DcStatus.splitting = true
is_splitting _ = false

abbrev pub is_transit : DcType → Bool
is_transit transit = true
is_transit _ = false

abbrev pub is_transfer : DcType → Bool
is_transfer transfer = true
is_transfer _ = false

abbrev pub is_draft_group : GroupStatus → Bool
is_draft_group GroupStatus.draft = true
is_draft_group GroupStatus.issued = false

abbrev pub is_required : SerialTracking → Bool
is_required SerialTracking.required = true
is_required _ = false

-- `records, _ := ...`: an error leaves the slice empty.
abbrev pub or_empty : {R : Type 0} → Option (List R) → List R
or_empty none = []
or_empty (some rs) = rs

pub is_draft-eq : (s : DcStatus) → is_draft s ≡ true → s ≡ DcStatus.draft
is_draft-eq DcStatus.draft h = refl
is_draft-eq _ h = absurd (cc)

pub is_transfer-eq : (t : DcType) → is_transfer t ≡ true → t ≡ transfer
is_transfer-eq transfer h = refl
is_transfer-eq _ h = absurd (cc)

pub is_draft_group-eq : (s : GroupStatus) → is_draft_group s ≡ true → s ≡ GroupStatus.draft
is_draft_group-eq GroupStatus.draft h = refl
is_draft_group-eq GroupStatus.issued h = absurd (cc)
