-- ===== src/Report.antt =====
-- Reports: the rows of internal/model/report.go and the structure that the agent answers with,
-- internal/report/structure.go. Content and structures are bytes, the latter those of a JSON object;
-- bookkeeping columns, durations and the agent's name, which no modelled code reads, are left out.
pub mod Structure
pub mod Layout
pub mod Store
pub mod Run
pub mod Saved
pub mod Columns
pub mod Rows
pub mod Ended
pub mod Sections
pub mod Resumed
pub mod Creation
pub mod Merge
pub mod Document
pub mod Shown
pub mod Handler
pub mod Answers
pub mod Recovery
pub mod Accounted
mod Tests
use verustcode.Base.{ℕ, String, Bool, Option, List}
use verustcode.Base.Int.{ℤ}

pub data ReportStatus : Type 0 where
  pending analyzing generating completed failed cancelled : ReportStatus

pub data SectionStatus : Type 0 where
  pending running completed failed skipped : SectionStatus

pub record Report : Type 0 where
  pub id : String
  pub repo_url : String
  pub ref : String
  pub repo_path : String
  pub report_type : String
  pub title : String
  pub status : ReportStatus
  pub structure : List ℕ
  pub total_sections : ℕ
  pub current_section : ℕ
  pub content : List ℕ
  pub summary : String
  pub started_at : Option ℕ
  pub completed_at : Option ℕ
  pub error_message : String
  pub retry_count : ℤ

pub record ReportSection : Type 0 where
  pub id : ℕ
  pub report_id : String
  pub section_index : ℕ
  pub section_id : String
  pub parent_section_id : Option String
  pub is_leaf : Bool
  pub title : String
  pub description : String
  pub content : List ℕ
  pub summary : String
  pub status : SectionStatus
  pub started_at : Option ℕ
  pub completed_at : Option ℕ
  pub error_message : String

-- A section with its identifier, title and description, and its subsections.
mutual
  pub data GeneratedSection : Type 0 where
    generated : String → String → String → GeneratedSections → GeneratedSection

  pub data GeneratedSections : Type 0 where
    end : GeneratedSections
    and : GeneratedSection → GeneratedSections → GeneratedSections

pub record ReportStructure : Type 0 where
  pub title : String
  pub summary : String
  pub sections : GeneratedSections
