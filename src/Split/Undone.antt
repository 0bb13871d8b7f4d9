-- ===== src/Split/Undone.antt =====
-- `UndoSplit`: it fails only in its checks, and not for a group that is issued.
use project_tracker.Prelude.{
  String, ◌≡◌, refl, ap, ◌∙◌, false, Option, none, some, inl, inr, Bool-cases, Option-cases, List,
  [], ◌∷◌, ◌==◌, ◌&&◌,
}
use project_tracker.Prelude.Exec.{Result, ok, err, Exec, resume, ◌>>=◌, ignore, for_each}
use project_tracker.Store.Schema.{
  DeliveryChallan, DcLineItem, TransferDc, TransferDcSplit, ShipmentGroup, GroupStatus,
  delivery_challans, transfer_dcs, transfer_dc_splits, shipment_groups, Collection, Row,
  transfer_dc_destinations, serial_numbers, dc_line_items, dc_transit_details,
}
use project_tracker.Store.App.{App}
use project_tracker.Store.Status.{is_draft_group-eq, is_draft_group, or_empty}
use project_tracker.Services.{Error}
use project_tracker.Split.Undo.{
  one_split_less, status_after_undo, reset_destinations, delete_line_item, delete_line_items,
  delete_transit_details, delete_child, delete_children, record_undo, perform_undo, undo_split,
}

module _ (app : App) where
  open app use {Db, find_record_by_id, find_records_by_filter, save, delete}

  -- A run that returns no error, whatever the store.
  abbrev pub Total : {A : Type 0} → Exec Db Error A → Type 0
  Total {A} m = (db : Db) → (a : A) × (db' : Db) × (m db ≡ (ok a, db'))

  bind-Total :
      {A B : Type 0} (m : Exec Db Error A) (f : A → Exec Db Error B)
      → Total m
      → ((a : A) → Total (f a))
      → Total (m >>= f)
  bind-Total m f t g db =
      let (a, db₁, e) = t db in let (b, db₂, e') = g a db₁ in (b, db₂, ap (resume f) e ∙ e')

  ignored :
      {A : Type 0} (o : Option (A × Db)) (db : Db)
      → (u : Unit {0}) × (db' : Db) × ((elim o as (λ _. Result Error (Unit {0}) × Db) [
        | none ↦ (ok tt, db)
        | some (a, s) ↦ (ok tt, s)
      ])
          ≡ (ok u, db'))
  ignored none db = (tt, db, refl)
  ignored (some (a, s)) db = (tt, s, refl)

  for_each-Total :
      {A : Type 0} (xs : List A) (body : A → Exec Db Error (Unit {0}))
      → ((x : A) → Total (body x))
      → Total (for_each xs body)
  unfolding for_each
  for_each-Total [] body t = λ db. (tt, db, refl)
  for_each-Total (x ∷ xs) body t =
      bind-Total (body x) (λ _. for_each xs body) (t x) (λ _. for_each-Total xs body t)

  delete-Total : (c : Collection) (i : String) → Total (ignore {E = Error} (delete c i))
  delete-Total c i db = ignored (delete c i db) db

  save-Total : (c : Collection) (r : Row c) → Total (ignore {E = Error} (save c r))
  save-Total c r db = ignored (save c r db) db

  reset_destinations-Total :
      (transfer_id group_id : String) → Total (reset_destinations app transfer_id group_id)
  unfolding reset_destinations
  reset_destinations-Total transfer_id group_id db =
      for_each-Total
        (or_empty (
          find_records_by_filter transfer_dc_destinations
            (λ d. d.transfer_dc == transfer_id && d.split_group == group_id) "" 0 db))
        (λ d.
          ignore (save transfer_dc_destinations (record d { is_split = false; split_group = "" })))
        (λ d. save-Total transfer_dc_destinations (record d { is_split = false; split_group = "" }))
        db

  delete_line_item-Total : (li : DcLineItem) → Total (delete_line_item app li)
  unfolding delete_line_item
  delete_line_item-Total li db =
      let serials =
        or_empty (find_records_by_filter serial_numbers (λ s. s.line_item == li.id) "" 0 db) in
      bind-Total (for_each serials (λ s. ignore (delete serial_numbers s.id)))
        (λ _. ignore (delete dc_line_items li.id))
        (for_each-Total serials (λ s. ignore (delete serial_numbers s.id))
          (λ s. delete-Total serial_numbers s.id))
        (λ _. delete-Total dc_line_items li.id) db

  delete_line_items-Total : (dc_id : String) → Total (delete_line_items app dc_id)
  unfolding delete_line_items
  delete_line_items-Total dc_id db =
      for_each-Total
        (or_empty (find_records_by_filter dc_line_items (λ li. li.dc == dc_id) "" 0 db))
        (delete_line_item app) delete_line_item-Total db

  delete_transit_details-Total : (dc_id : String) → Total (delete_transit_details app dc_id)
  unfolding delete_transit_details
  delete_transit_details-Total dc_id db =
      for_each-Total
        (or_empty (find_records_by_filter dc_transit_details (λ t. t.dc == dc_id) "" 0 db))
        (λ t. ignore (delete dc_transit_details t.id)) (λ t. delete-Total dc_transit_details t.id)
        db

  delete_child-Total : (dc : DeliveryChallan) → Total (delete_child app dc)
  unfolding delete_child
  delete_child-Total dc =
      bind-Total (delete_line_items app dc.id) _ (delete_line_items-Total dc.id) (λ _.
        bind-Total (delete_transit_details app dc.id) (λ _. ignore (delete delivery_challans dc.id))
          (delete_transit_details-Total dc.id) (λ _. delete-Total delivery_challans dc.id))

  delete_children-Total : (group_id : String) → Total (delete_children app group_id)
  unfolding delete_children
  delete_children-Total group_id db =
      for_each-Total
        (or_empty
          (find_records_by_filter delivery_challans (λ dc. dc.shipment_group == group_id) "" 0 db))
        (delete_child app) delete_child-Total db

  record_undo-Total :
      (transfer : TransferDc) (parent : DeliveryChallan) → Total (record_undo app transfer parent)
  unfolding record_undo
  record_undo-Total transfer parent =
      let num_split = one_split_less transfer.num_split in
      bind-Total (ignore (save transfer_dcs (record transfer { num_split = num_split })))
        (λ _. ignore (
          save delivery_challans
            (record parent { status = status_after_undo num_split transfer.num_destinations })))
        (save-Total transfer_dcs (record transfer { num_split = num_split }))
        (λ _.
          save-Total delivery_challans
            (record parent { status = status_after_undo num_split transfer.num_destinations }))

  perform_undo-Total :
      (split : TransferDcSplit) (transfer : TransferDc) (parent : DeliveryChallan)
      (sg : ShipmentGroup)
      → Total (perform_undo app split transfer parent sg)
  unfolding perform_undo
  perform_undo-Total split transfer parent sg =
      bind-Total (reset_destinations app split.transfer_dc split.shipment_group) _
        (reset_destinations-Total split.transfer_dc split.shipment_group)
        (λ _.
          bind-Total (delete_children app split.shipment_group) _
            (delete_children-Total split.shipment_group)
            (λ _.
              bind-Total (ignore (delete transfer_dc_splits split.id)) _
                (delete-Total transfer_dc_splits split.id)
                (λ _.
                  bind-Total (ignore (delete shipment_groups sg.id))
                    (λ _. record_undo app transfer parent) (delete-Total shipment_groups sg.id)
                    (λ _. record_undo-Total transfer parent))))

  -- An error changes nothing; otherwise the split's group was a draft and all the steps have run.
  abbrev pub Undone : String → Db → Result Error (Unit {0}) × Db → Type 0
  Undone split_id db (err e, db') = db' ≡ db
  Undone split_id db (ok u, db') =
      (split : TransferDcSplit) × (transfer : TransferDc) × (parent : DeliveryChallan)
      × (sg : ShipmentGroup) × (find_record_by_id transfer_dc_splits split_id db ≡ some split)
      × (find_record_by_id transfer_dcs split.transfer_dc db ≡ some transfer)
      × (find_record_by_id delivery_challans transfer.dc db ≡ some parent)
      × (find_record_by_id shipment_groups split.shipment_group db ≡ some sg)
      × (sg.status ≡ GroupStatus.draft)
      × (perform_undo app split transfer parent sg db ≡ (ok tt, db'))

  -- `UndoSplit` fails only before its first write, and never undoes a split whose group is issued.
  pub undo_split-Undone :
      (split_id : String) (db : Db) → Undone split_id db (undo_split app split_id db)
  unfolding undo_split
  undo_split-Undone split_id db =
      elim (Option-cases (find_record_by_id transfer_dc_splits split_id db)) [
        | inl missing ↦ rw missing
        | inr (split, e₁) ↦
            elim (Option-cases (find_record_by_id transfer_dcs split.transfer_dc db)) [
              | inl missing ↦ rw (e₁, missing)
              | inr (transfer, e₂) ↦
                  elim (Option-cases (find_record_by_id delivery_challans transfer.dc db)) [
                    | inl missing ↦ rw (e₁, e₂, missing)
                    | inr (parent, e₃) ↦
                        elim (Option-cases
                          (find_record_by_id shipment_groups split.shipment_group db)) [
                            | inl missing ↦ rw (e₁, e₂, e₃, missing)
                            | inr (sg, e₄) ↦ elim (Bool-cases (is_draft_group sg.status)) [
                              | inr issued ↦ rw (e₁, e₂, e₃, e₄, issued)
                              | inl draft ↦
                                  let (u, db', run) =
                                    perform_undo-Total split transfer parent sg db in
                                  rw (e₁, e₂, e₃, e₄, draft, run)
                                    (
                                      split,
                                      transfer,
                                      parent,
                                      sg,
                                      e₁,
                                      e₂,
                                      e₃,
                                      e₄,
                                      is_draft_group-eq sg.status draft,
                                      run,
                                    )
                            ]
                          ]
                  ]
            ]
      ]
