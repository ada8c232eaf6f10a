-- ===== src/Report/Store.antt =====
-- The report store, internal/store/report.go: two tables, each a list of rows in the order of their
-- primary keys. gorm's `Save` writes a row under its primary key, and creates it if it is not there.
use verustcode.Base.{
  ℕ, ◌+◌, String, Bool, true, false, Option, List, [], ◌∷◌, ◌++◌, ◌&&◌, ◌==◌, str_eq, leb, any,
  if◌then◌else◌,
}
use verustcode.Store.{update_where, first_where}
use verustcode.Report.{
  Report, ReportSection, ReportStatus, pending, analyzing, generating, cancelled,
}

pub record ReportDatabase : Type 0 where
  pub reports : List Report
  pub sections : List ReportSection
  pub next_section_id : ℕ

unfoldable pub save_where : {A : Type 0} → (A → Bool) → A → List A → List A
save_where selects row rs =
    if any selects rs then update_where selects (λ old. row) rs else rs ++ (row ∷ [])

abbrev pub is_report : String → Report → Bool
is_report id r = str_eq r.id id

-- `GetByID`.
unfoldable pub get_report : String → ReportDatabase → Option Report
get_report id db = first_where (is_report id) db.reports

-- `Save`.
unfoldable pub save_report : Report → ReportDatabase → ReportDatabase
unfolding save_where
save_report row db = record db { reports = save_where (is_report row.id) row db.reports }

-- `UpdateStatusWithError`.
unfoldable pub fail_report : String → ReportStatus → String → ReportDatabase → ReportDatabase
fail_report id status msg db = record db {
  reports =
      update_where (is_report id) (λ r. record r { status = status; error_message = msg })
        db.reports;
}

abbrev pub is_unfinished : ReportStatus → Bool
is_unfinished pending = true
is_unfinished analyzing = true
is_unfinished generating = true
is_unfinished _ = false

abbrev pub may_cancel : String → Report → Bool
may_cancel id r = is_report id r && is_unfinished r.status

-- `CancelByID`, with whether a row was changed.
unfoldable pub cancel_by_id : String → ReportDatabase → ReportDatabase × Bool
cancel_by_id id db = (
  record db {
    reports = update_where (may_cancel id) (λ r. record r { status = cancelled }) db.reports;
  },
  any (may_cancel id) db.reports,
)

-- `ListPendingOrProcessing`, in the order of creation.
unfoldable pub list_pending_or_processing : List Report → List Report
list_pending_or_processing [] = []
list_pending_or_processing (r ∷ rs) =
    let rest = list_pending_or_processing rs in if is_unfinished r.status then r ∷ rest else rest

-- `CreateSection`: a row with the next primary key. What the database stores of `is_leaf`, a column
-- with a default, is an argument.
unfoldable pub create_section : (Bool → Bool) → ReportSection → ReportDatabase → ReportDatabase
create_section stored row db = record db {
  sections =
      db.sections ++ (record row { id = db.next_section_id; is_leaf = stored row.is_leaf } ∷ []);
  next_section_id = db.next_section_id + 1;
}

-- `UpdateSection`.
unfoldable pub update_section : ReportSection → ReportDatabase → ReportDatabase
unfolding save_where
update_section row db = record db {
  sections = save_where (λ (r : ReportSection). r.id == row.id) row db.sections;
}

-- `ORDER BY section_index ASC`; rows of one index keep the order of their keys.
unfoldable pub insert_by_index : ReportSection → List ReportSection → List ReportSection
insert_by_index row [] = row ∷ []
insert_by_index row (r ∷ rs) =
    let rest = insert_by_index row rs in
    if leb row.section_index r.section_index then row ∷ r ∷ rs else r ∷ rest

-- `SELECT … WHERE … ORDER BY section_index ASC`.
unfoldable pub sections_where : (ReportSection → Bool) → List ReportSection → List ReportSection
unfolding insert_by_index
sections_where selects [] = []
sections_where selects (r ∷ rs) =
    let rest = sections_where selects rs in if selects r then insert_by_index r rest else rest

abbrev pub of_report : String → ReportSection → Bool
of_report id r = str_eq r.report_id id

abbrev pub leaf_of_report : String → ReportSection → Bool
leaf_of_report id r = str_eq r.report_id id && r.is_leaf

-- `GetSectionsByReportID` and `GetLeafSectionsByReportID`.
unfoldable pub get_sections_by_report_id : String → ReportDatabase → List ReportSection
unfolding sections_where
get_sections_by_report_id id db = sections_where (of_report id) db.sections

unfoldable pub get_leaf_sections_by_report_id : String → ReportDatabase → List ReportSection
unfolding sections_where
get_leaf_sections_by_report_id id db = sections_where (leaf_of_report id) db.sections
