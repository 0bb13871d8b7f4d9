-- ===== src/Split/Guarded.antt =====
-- `CreateSplit`: nothing is written before all checks have passed.
use project_tracker.Prelude.{
  String, ◌≡◌, ◌⊎◌, refl, sym, subst, Bool, true, false, not, ◌||◌, Option, none, some, inl, inr,
  arith, List, [], ◌∷◌, All, ◌==◌, eq_iff, some-injective,
}
use project_tracker.Prelude.Exec.{Result, ok, err, Exec, resume, or_throw, throw_if}
use project_tracker.Store.Schema.{
  DeliveryChallan, TransferDc, TransferDcDestination, DcStatus, DcType, delivery_challans,
  transfer_dcs, transfer_dc_destinations,
}
use project_tracker.Store.App.{App, Laws}
use project_tracker.Store.Status.{is_transfer-eq, is_issued, is_splitting, is_transfer, or_empty}
use project_tracker.Services.{
  Error, dc_not_found, not_splittable, not_transfer, transfer_metadata_not_found,
  destination_not_found, destination_already_split, destination_foreign,
}
use project_tracker.Split.Params.{SplitParams, SplitResult}
use project_tracker.Split.Check.{
  find_transfer, find_metadata, first_metadata, check_destination, check_destinations,
}
use project_tracker.Split.Create.{create_split, perform_split}

module _ (app : App) where
  open app use {Db, find_record_by_id, find_records_by_filter}

  -- A check that gave back the store it was given: an error, or a value that has the property.
  abbrev pub Checks : {A : Type 0} → (A → Type 0) → Db → Result Error A × Db → Type 0
  Checks P db (ok a, db') = P a × (db' ≡ db)
  Checks P db (err e, db') = db' ≡ db

  -- An issued transfer challan, split in part or not at all.
  abbrev pub Splittable : String → Db → DeliveryChallan → Type 0
  Splittable dc_id db dc =
      (find_record_by_id delivery_challans dc_id db ≡ some dc)
      × ((dc.status ≡ DcStatus.issued) ⊎ (dc.status ≡ DcStatus.splitting))
      × (dc.dc_type ≡ DcType.transfer)

  -- A destination of the transfer that has not been split.
  abbrev pub Unsplit : String → Db → String → Type 0
  Unsplit transfer_id db dest_id =
      (dest : TransferDcDestination) × (find_record_by_id transfer_dc_destinations dest_id db
        ≡ some dest)
      × (dest.is_split ≡ false)
      × (dest.transfer_dc ≡ transfer_id)

  listed_metadata :
      (laws : Laws app) (dc_id : String) (db : Db) (t : TransferDc) (o : Option (List TransferDc))
      → find_records_by_filter transfer_dcs (λ t. t.dc == dc_id) "" 1 db ≡ o
      → first_metadata app (or_empty o) ≡ some t
      → (find_record_by_id transfer_dcs t.id db ≡ some t) × (t.dc ≡ dc_id)
  unfolding first_metadata
  listed_metadata laws dc_id db t none q e = absurd (cc)
  listed_metadata laws dc_id db t (some []) q e = absurd (cc)
  listed_metadata laws dc_id db t (some (x ∷ xs)) q e =
      let (passes, there) = (laws.query_sound transfer_dcs (λ t. t.dc == dc_id) "" 1 db q).0 in
      subst (λ y. (find_record_by_id transfer_dcs y.id db ≡ some y) × (y.dc ≡ dc_id))
        (some-injective _ _ e) (there, (eq_iff x.dc dc_id).0 passes)

  open_status :
      (s : DcStatus)
      → (is_issued s || is_splitting s) ≡ true
      → (s ≡ DcStatus.issued) ⊎ (s ≡ DcStatus.splitting)
  open_status DcStatus.issued h = inl refl
  open_status DcStatus.splitting h = inr refl
  open_status _ h = absurd (cc)

  not-false : (b : Bool) → not b ≡ false → b ≡ true
  not-false b h = ground arith

  or_throw-Checks :
      {A : Type 0} (e : Error) (o : Option A) (db : Db)
      → Checks (λ a. o ≡ some a) db (or_throw e o db)
  or_throw-Checks e none db = refl
  or_throw-Checks e (some a) db = (refl, refl)

  throw_if-Checks : (c : Bool) (e : Error) (db : Db) → Checks (λ _. c ≡ false) db (throw_if c e db)
  throw_if-Checks true e db = refl
  throw_if-Checks false e db = (refl, refl)

  -- The same check says something weaker.
  weaken :
      {A : Type 0} (P Q : A → Type 0) (db : Db) (r : Result Error A × Db)
      → ((a : A) → P a → Q a)
      → Checks P db r
      → Checks Q db r
  weaken P Q db (ok a, db') f (p, same) = (f a p, same)
  weaken P Q db (err e, db') f same = same

  -- Two checks in a row.
  both :
      {A B : Type 0} (P : A → Type 0) (Q : B → Type 0) (db : Db) (r : Result Error A × Db)
      (f : A → Exec Db Error B)
      → Checks P db r
      → ((a : A) → P a → Checks Q db (f a db))
      → Checks Q db (resume f r)
  both P Q db (ok a, db') f (p, same) next = subst (λ s. Checks Q db (f a s)) (sym same) (next a p)
  both P Q db (err e, db') f same next = same

  find_transfer-Checks :
      (dc_id : String) (db : Db) → Checks (Splittable dc_id db) db (find_transfer app dc_id db)
  unfolding find_transfer
  find_transfer-Checks dc_id db =
      both _ (Splittable dc_id db) db _ _
        (or_throw-Checks dc_not_found (find_record_by_id delivery_challans dc_id db) db)
        (λ dc found.
          both _ (Splittable dc_id db) db _ _
            (throw_if-Checks (not (is_issued dc.status || is_splitting dc.status))
              (not_splittable dc.status) db)
            (λ _ opened.
              both _ (Splittable dc_id db) db _ _
                (throw_if-Checks (not (is_transfer dc.dc_type)) not_transfer db)
                (λ _ transfer. (
                  (
                    found,
                    open_status dc.status (not-false _ opened),
                    is_transfer-eq dc.dc_type (not-false _ transfer),
                  ),
                  refl,
                ))))

  find_metadata-Checks :
      (laws : Laws app) (dc_id : String) (db : Db)
      → Checks
          (λ t. (find_record_by_id transfer_dcs t.id db ≡ some t) × (t.dc ≡ dc_id))
          db
          (find_metadata app dc_id db)
  unfolding find_metadata
  find_metadata-Checks laws dc_id db =
      weaken _ _ db _ (λ t e. listed_metadata laws dc_id db t _ refl e)
        (or_throw-Checks transfer_metadata_not_found
          (first_metadata app
            (or_empty (find_records_by_filter transfer_dcs (λ t. t.dc == dc_id) "" 1 db)))
          db)

  check_destination-Checks :
      (transfer_id dest_id : String) (db : Db)
      → Checks
          (λ _. Unsplit transfer_id db dest_id)
          db
          (check_destination app transfer_id dest_id db)
  unfolding check_destination
  check_destination-Checks transfer_id dest_id db =
      both _ (λ _. Unsplit transfer_id db dest_id) db _ _
        (or_throw-Checks (destination_not_found dest_id)
          (find_record_by_id transfer_dc_destinations dest_id db) db)
        (λ dest found.
          both _ (λ _. Unsplit transfer_id db dest_id) db _ _
            (throw_if-Checks dest.is_split (destination_already_split dest_id) db)
            (λ _ unsplit.
              weaken _ _ db _
                (λ _ same. (
                  dest,
                  found,
                  unsplit,
                  (eq_iff dest.transfer_dc transfer_id).0 (not-false _ same),
                ))
                (throw_if-Checks (not (dest.transfer_dc == transfer_id))
                  (destination_foreign dest_id) db)))

  check_destinations-Checks :
      (transfer_id : String) (dests : List String) (db : Db)
      → Checks
          (λ _. All (Unsplit transfer_id db) dests)
          db
          (check_destinations app transfer_id dests db)
  unfolding check_destinations
  check_destinations-Checks transfer_id [] db = (tt, refl)
  check_destinations-Checks transfer_id (dest_id ∷ dests) db =
      both _ (λ _. All (Unsplit transfer_id db) (dest_id ∷ dests)) db _
        (λ _. check_destinations app transfer_id dests)
        (check_destination-Checks transfer_id dest_id db)
        (λ _ here.
          weaken _ _ db _ (λ _ rest. (here, rest)) (check_destinations-Checks transfer_id dests db))

  -- A check in front of work that writes.
  past :
      {A B : Type 0} (P : A → Type 0) (db : Db) (r : Result Error A × Db)
      (G : Result Error B × Db → Type 0) (f : A → Exec Db Error B)
      → ((e : Error) → G (err e, db))
      → Checks P db r
      → ((a : A) → P a → G (f a db))
      → G (resume f r)
  past P db (ok a, db') G f failed (p, same) next = subst (λ s. G (f a s)) (sym same) (next a p)
  past P db (err e, db') G f failed same next = subst (λ s. G (err e, s)) (sym same) (failed e)

  -- Either a check has failed and nothing was written, or all of them hold and the rest of the
  -- work has run on the store as it was.
  abbrev pub SplitGuarded : SplitParams → Db → Result Error SplitResult × Db → Type 0
  SplitGuarded params db r =
      ((e : Error) × (r ≡ (err e, db)))
      ⊎ ((dc : DeliveryChallan) × (transfer : TransferDc) × Splittable params.transfer_dc_id db dc
          × (transfer.dc ≡ params.transfer_dc_id)
          × All (Unsplit transfer.id db) params.destination_ids
          × (r ≡ perform_split app params dc transfer db))

  -- `CreateSplit` writes nothing unless the challan is an issued transfer and all destinations
  -- belong to it and have not been split.
  pub create_split-SplitGuarded :
      (laws : Laws app) (params : SplitParams) (db : Db)
      → SplitGuarded params db (create_split app params db)
  unfolding create_split
  create_split-SplitGuarded laws params db =
      past _ db _ (SplitGuarded params db) _ (λ e. inl (e, refl))
        (find_transfer-Checks params.transfer_dc_id db)
        (λ dc splittable.
          past _ db _ (SplitGuarded params db) _ (λ e. inl (e, refl))
            (find_metadata-Checks laws params.transfer_dc_id db)
            (λ transfer known.
              past _ db _ (SplitGuarded params db) _ (λ e. inl (e, refl))
                (check_destinations-Checks transfer.id params.destination_ids db)
                (λ _ unsplit. inr (dc, transfer, splittable, known.1, unsplit, refl))))
