-- ===== src/Addresses/Counted.antt =====
-- services/address_import.go and csv_import.go: the numbers that an import reports, and that a chunk
-- of rows is stored whole or not at all.
use project_tracker.Prelude.{
  ℕ, zero, suc, ◌+◌, ◌≤◌, String, ◌≡◌, ◌≢◌, ◌⊎◌, inl, inr, refl, ap, subst, Bool, true, false,
  Option, none, some, List, [], ◌∷◌, ◌++◌, length, arith, if◌then◌else◌,
}
use project_tracker.Prelude.Exec.{Result, ok, err}
use project_tracker.Store.Schema.{addresses}
use project_tracker.Store.App.{App, Laws}
use project_tracker.Store.Saved.{Outcome, transaction-Outcome}
use project_tracker.Services.{Error, collection_not_found}
use project_tracker.Addresses.Fields.{Texts}
use project_tracker.Addresses.Import.{Outside, ValidationError}
use project_tracker.Addresses.Stored.{
  Sublist, none_of, Sublist-skip_all, Sublist-keep_all, RowsStored, RowsStored-append,
  insert_rows-RowsStored,
}
use project_tracker.Addresses.Commit.{
  ImportRowError, ImportResult, import_batch_size, first_of, rest_of, insert_rows, insert_chunk,
  chunk_result, count_chunk, insert_chunks, known_parents, revalidate_import_rows, blank_result,
  commit_address_import, returned, import_known, import_checked,
}

split-length :
    {A : Type 0} (n : ℕ) (xs : List A) → length (first_of n xs) + length (rest_of n xs) ≡ length xs
split-length zero xs = omega arith
split-length (suc n) [] = omega arith
split-length (suc n) (x ∷ xs) = omega (arith, split-length n xs)

length-append : {A : Type 0} (xs ys : List A) → length (xs ++ ys) ≡ length xs + length ys
length-append [] ys = omega arith
length-append (x ∷ xs) ys = omega (arith, length-append xs ys)

split-append : {A : Type 0} (n : ℕ) (xs : List A) → first_of n xs ++ rest_of n xs ≡ xs
split-append zero xs = refl
split-append (suc n) [] = refl
split-append (suc n) (x ∷ xs) = ap (λ ys. x ∷ ys) (split-append n xs)

rest-shorter :
    {A : Type 0} (n : ℕ) (x : A) (xs : List A) → length (rest_of (suc n) (x ∷ xs)) ≤ length xs
rest-shorter n x xs = omega (arith, split-length n xs)

module _ (app : App) (outside : Outside) where
  open app use {Db, has_collection}

  module _ (project_id address_type : String) (known : Option Texts) where
    -- Either the chunk has no error and each of its rows was stored, or it has one, and the store is
    -- as it was.
    abbrev pub Atomic : List Texts → Db → List ImportRowError × Db → Type 0
    Atomic rows db (es, db') =
        ((es ≡ []) × RowsStored app outside project_id address_type known rows db db')
        ⊎ ((e : ImportRowError) × (es ≡ e ∷ []) × (db' ≡ db))

  module _ (laws : Laws app) (project_id address_type : String) (known : Option Texts) where
    Atomic-of :
        (rows : List Texts) (start : ℕ) (db : Db) (r : Result ImportRowError (Unit {0}) × Db)
        → Outcome app (insert_rows app outside project_id address_type known (suc start) rows) db r
        → Atomic project_id address_type known rows db (chunk_result r)
    Atomic-of rows start db (ok a, db') h = inl (
      refl,
      insert_rows-RowsStored app outside project_id address_type known laws _ rows db db' h,
    )
    Atomic-of rows start db (err e, db') h = inr (e, refl, h)

    pub insert_chunk-Atomic :
        (rows : List Texts) (start : ℕ) (db : Db)
        → Atomic project_id address_type known rows db
            (insert_chunk app outside project_id address_type rows start known db)
    unfolding insert_chunk
    insert_chunk-Atomic rows start db =
        Atomic-of rows start db _ (transaction-Outcome app laws _ _ db)

    -- Some of the rows were stored, as many as were imported more than before, and the others failed.
    abbrev Progress : List Texts → ImportResult → Db → ImportResult × Db → Type 0
    Progress rows r db (r', db') =
        (stored : List Texts) × Sublist stored rows
        × RowsStored app outside project_id address_type known stored db db'
        × (r'.imported ≡ r.imported + length stored)
        × (r'.imported + r'.failed ≡ r.imported + r.failed + length rows)
        × (r'.total_rows ≡ r.total_rows)

    after_chunk :
        (chunk rows : List Texts) (r : ImportResult) (db d : Db) (es : List ImportRowError)
        (end : ImportResult × Db)
        → Atomic project_id address_type known chunk db (es, d)
        → Progress rows (count_chunk r (length chunk) es) d end
        → Progress (chunk ++ rows) r db end
    after_chunk chunk rows r db d [] (r', db') (inl (clean, now))
          (stored, part, later, n, sum, total) =
        (
          chunk ++ stored,
          Sublist-keep_all chunk part,
          RowsStored-append app outside project_id address_type known chunk stored db d db' now
              later,
          omega (arith, n, length-append chunk stored),
          omega (arith, sum, length-append chunk rows),
          total,
        )
    after_chunk chunk rows r db d (e ∷ es) (r', db') (inl (clean, now)) h = absurd (cc)
    after_chunk chunk rows r db d [] (r', db') (inr (e, one, same)) h = absurd (cc)
    after_chunk chunk rows r db d (e ∷ es) (r', db') (inr (x, one, same))
          (stored, part, later, n, sum, total) =
        (
          stored,
          Sublist-skip_all chunk part,
          subst (λ s. RowsStored app outside project_id address_type known stored s db') same later,
          n,
          omega (arith, sum, length-append chunk rows),
          total,
        )

    chunks-Progress :
        (fuel start : ℕ) (rows : List Texts) (r : ImportResult) (db : Db)
        → length rows ≤ fuel
        → Progress rows r db
            (insert_chunks app outside fuel project_id address_type known start rows r db)
    unfolding insert_chunks RowsStored
    chunks-Progress fuel start [] r db h = ([], none_of, refl, omega arith, omega arith, refl)
    chunks-Progress zero start (row ∷ rows) r db h = absurd (omega arith)
    chunks-Progress (suc fuel) start (row ∷ rows) r db h =
        let chunk = first_of import_batch_size (row ∷ rows) in
        let others = rest_of import_batch_size (row ∷ rows) in
        let done = insert_chunk app outside project_id address_type chunk start known db in
        let last =
          insert_chunks app outside fuel project_id address_type known (start + import_batch_size)
            others (count_chunk r (length chunk) done.0) done.1 in
        subst (λ xs. Progress xs r db last) (split-append import_batch_size (row ∷ rows))
          (after_chunk chunk others r db done.1 done.0 last (insert_chunk-Atomic chunk start db) (
            chunks-Progress fuel (start + import_batch_size) others _ done.1
              (omega (arith, rest-shorter 99 row rows))))

  module _ (project_id address_type : String) (rows : List Texts) (db : Db) where
    -- An error changes nothing. Otherwise either some row does not pass and nothing is imported or
    -- changed, or all rows pass, some of them are stored, as many as are imported, and the others
    -- failed.
    abbrev pub Counted : Result Error ImportResult × Db → Type 0
    Counted (err e, db') = db' ≡ db
    Counted (ok r, db') =
        (r.total_rows ≡ length rows)
        × (((revalidate_import_rows app outside project_id address_type rows db ≢ [])
              × (r.imported ≡ 0)
              × (r.rolled_back ≡ true)
              × (db' ≡ db))
            ⊎ ((revalidate_import_rows app outside project_id address_type rows db ≡ [])
                × (r.imported + r.failed ≡ r.total_rows)
                × ((known : Option Texts) × (known_parents app outside project_id address_type db
                      ≡ some known)
                    × (stored : List Texts) × Sublist stored rows
                    × (length stored ≡ r.imported)
                    × RowsStored app outside project_id address_type known stored db db')))

    module _ (laws : Laws app) where
      when_found :
          (known : Option Texts) (b : Bool)
          → revalidate_import_rows app outside project_id address_type rows db ≡ []
          → known_parents app outside project_id address_type db ≡ some known
          → Counted (
              if b
              then returned (
                  insert_chunks app outside
                    (length rows)
                    project_id
                    address_type
                    known
                    0
                    rows
                    (blank_result (length rows))
                    db)
              else (err (collection_not_found addresses), db))
      when_found known false pass q = refl
      when_found known true pass q =
          let (stored, part, later, n, sum, total) =
            chunks-Progress laws project_id address_type known (length rows) 0 rows
              (blank_result (length rows)) db (omega arith) in
          (
            total,
            inr (
              pass,
              omega (arith, sum, total),
              (known, q, stored, part, omega (arith, n), later),
            ),
          )

      when_known :
          (known : Option (Option Texts))
          → revalidate_import_rows app outside project_id address_type rows db ≡ []
          → known_parents app outside project_id address_type db ≡ known
          → Counted (import_known app outside project_id address_type rows known db)
      unfolding import_known
      when_known none pass q = refl
      when_known (some known) pass q = when_found known (has_collection addresses db) pass q

      when_checked :
          (es : List ValidationError)
          → revalidate_import_rows app outside project_id address_type rows db ≡ es
          → Counted (import_checked app outside project_id address_type rows es db)
      unfolding import_checked
      when_checked (e ∷ es) q = (refl, inl ((λ e. cc), refl, refl, refl))
      when_checked [] q = when_known (known_parents app outside project_id address_type db) q refl

      -- CommitAddressImport changes nothing when it returns an error. Otherwise it reports the number
      -- of rows, and either some row does not pass, none is imported and nothing changes, or all rows
      -- pass, and some of them, as many as are reported as imported, are stored as addresses of their
      -- own while nothing else changes, and the others are reported as failed.
      pub commit_address_import-Counted :
          Counted (commit_address_import app outside project_id address_type rows db)
      unfolding commit_address_import
      commit_address_import-Counted =
          when_checked (revalidate_import_rows app outside project_id address_type rows db) refl
