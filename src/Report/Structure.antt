-- ===== src/Report/Structure.antt =====
-- The rows of a report's structure, `StructureToModel` and `CountLeafSections` of
-- internal/report/structure.go.
use verustcode.Base.{
  ℕ, ◌+◌, String, Bool, true, false, Option, none, some, List, [], ◌∷◌, ◌++◌, not,
}
use verustcode.Report.{
  ReportSection, GeneratedSection, GeneratedSections, generated, end, and, ReportStructure, pending,
}

abbrev pub id_of : GeneratedSection → String
id_of (generated id title description subs) = id

abbrev pub subsections : GeneratedSection → GeneratedSections
subsections (generated id title description subs) = subs

-- `len`.
abbrev pub count : GeneratedSections → ℕ
count end = 0
count (and s rest) = 1 + count rest

abbrev pub has_sections : GeneratedSections → Bool
has_sections end = false
has_sections (and s rest) = true

-- The row of a section, before the database gives it a key.
abbrev pub section_row : String → ℕ → Option String → Bool → GeneratedSection → ReportSection
section_row report_id index parent is_leaf (generated id title description subs) = record {
  id = 0;
  report_id = report_id;
  section_index = index;
  section_id = id;
  parent_section_id = parent;
  is_leaf = is_leaf;
  title = title;
  description = description;
  content = [];
  summary = "";
  status = pending;
  started_at = none;
  completed_at = none;
  error_message = "";
}

-- The inner loop of `StructureToModel`, from that global index on.
unfoldable pub child_rows : String → String → ℕ → GeneratedSections → List ReportSection
child_rows report_id parent index end = []
child_rows report_id parent index (and s rest) =
    section_row report_id index (some parent) true s ∷ child_rows report_id parent (index + 1) rest

unfoldable pub rows_from : String → ℕ → GeneratedSections → List ReportSection
unfolding child_rows
rows_from report_id index end = []
rows_from report_id index (and s rest) =
    let subs = subsections s in
    section_row report_id index none (not (has_sections subs)) s
    ∷ (child_rows report_id (id_of s) (index + 1) subs
        ++ rows_from report_id (index + 1 + count subs) rest)

-- `StructureToModel`.
unfoldable pub structure_to_model : ReportStructure → String → List ReportSection
unfolding rows_from
structure_to_model structure report_id = rows_from report_id 0 structure.sections

-- `CountLeafSections`.
abbrev leaves_of : GeneratedSections → ℕ
leaves_of end = 1
leaves_of (and s rest) = count (and s rest)

unfoldable pub count_leaves : GeneratedSections → ℕ
count_leaves end = 0
count_leaves (and s rest) = leaves_of (subsections s) + count_leaves rest

unfoldable pub count_leaf_sections : ReportStructure → ℕ
count_leaf_sections structure = count_leaves structure.sections
