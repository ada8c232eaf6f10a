-- ===== src/Report/Merge.antt =====
-- The Markdown document of a report, `MergeSections` of internal/report/exporter/helpers.go. A text is
-- the list of its characters; `strings.ToLower` is an argument.
use verustcode.Base.{
  ℕ, ◌+◌, String, Bool, true, false, none, some, List, [], ◌∷◌, ◌++◌, ◌==◌, str_eq, is_empty,
  if◌then◌else◌,
}
use verustcode.Llm.{bytes}
use verustcode.PrUrl.Text.{Bytes, slash}
use verustcode.PrUrl.Build.{decimal, trim_suffix, dash}
use verustcode.Report.{Report, ReportSection, SectionStatus, failed}

-- `strings.ReplaceAll` of one character by a text.
unfoldable pub replace_all : ℕ → Bytes → Bytes → Bytes
replace_all old new [] = []
replace_all old new (c ∷ s) =
    let rest = replace_all old new s in if c == old then new ++ rest else c ∷ rest

abbrev pub is_top_level : ReportSection → Bool
is_top_level s = elim s.parent_section_id [ none ↦ true | some parent ↦ false ]

abbrev pub is_child_of : String → ReportSection → Bool
is_child_of id s = elim s.parent_section_id [ none ↦ false | some parent ↦ str_eq parent id ]

abbrev pub filter_sections : (ReportSection → Bool) → List ReportSection → List ReportSection
filter_sections test [] = []
filter_sections test (s ∷ ss) =
    let rest = filter_sections test ss in if test s then s ∷ rest else rest

-- `topLevelSections`, and the entry of a parent in `childrenMap`.
unfoldable pub top_level : List ReportSection → List ReportSection
top_level ss = filter_sections is_top_level ss

unfoldable pub children_of : String → List ReportSection → List ReportSection
children_of id ss = filter_sections (is_child_of id) ss

abbrev pub rule : Bytes
rule = bytes "---\n\n"

abbrev pub is_failed : SectionStatus → Bool
is_failed failed = true
is_failed _ = false

-- The text of one section, under a heading of that level if it failed.
unfoldable pub section_text : Bytes → ReportSection → Bytes
section_text heading s =
    if is_empty s.content
    then if is_failed s.status
      then (heading
          ++ (bytes s.title
              ++ (bytes "\n\n*Section generation failed*\n\n"
                  ++ (if str_eq s.error_message ""
                      then []
                      else bytes "Error: " ++ (bytes s.error_message ++ bytes "\n\n")))))
        ++ rule
      else []
    else (s.content ++ bytes "\n\n") ++ rule

unfoldable pub texts : Bytes → List ReportSection → Bytes
unfolding section_text
texts heading [] = []
texts heading (s ∷ ss) = section_text heading s ++ texts heading ss

-- A top-level section's part of the document: its own text, or those of its children.
unfoldable pub body_entry : List ReportSection → ReportSection → Bytes
unfolding texts children_of
body_entry all s =
    if s.is_leaf
    then section_text (bytes "## ") s
    else texts (bytes "### ") (children_of s.section_id all)

unfoldable pub body : List ReportSection → List ReportSection → Bytes
unfolding body_entry
body all [] = []
body all (s ∷ ss) = body_entry all s ++ body all ss

module _ (to_lower : Bytes → Bytes) where
  -- `createAnchor`.
  unfoldable pub create_anchor : Bytes → Bytes
  unfolding replace_all
  create_anchor title = replace_all slash (dash ∷ []) (
      replace_all 41 []
        (replace_all 40 [] (replace_all 58 [] (replace_all 32 (dash ∷ []) (to_lower title)))))

  -- `[title](#anchor)` and the end of the line.
  unfoldable pub link : ReportSection → Bytes
  link s =
      bytes "["
      ++ (bytes s.title ++ (bytes "](#" ++ (create_anchor (bytes s.title) ++ bytes ")\n")))

  unfoldable pub child_links : ℕ → ℕ → List ReportSection → Bytes
  unfolding link
  child_links n j [] = []
  child_links n j (child ∷ rest) =
      bytes "   "
      ++ (decimal n
          ++ (bytes "."
              ++ (decimal j ++ (bytes ". " ++ (link child ++ child_links n (j + 1) rest)))))

  -- The entry of a section in the table of contents, with its children.
  unfoldable pub contents_entry : List ReportSection → ℕ → ReportSection → Bytes
  unfolding link child_links children_of
  contents_entry all n s =
      if s.is_leaf
      then decimal n ++ (bytes ". " ++ link s)
      else decimal n
        ++ (bytes ". "
            ++ (bytes s.title ++ (bytes "\n" ++ child_links n 1 (children_of s.section_id all))))

  unfoldable pub contents : List ReportSection → ℕ → List ReportSection → Bytes
  contents all n [] = []
  contents all n (s ∷ ss) = contents_entry all n s ++ contents all (n + 1) ss

  -- The title and the table of contents.
  unfoldable pub front : Report → List ReportSection → Bytes
  unfolding contents top_level
  front report all =
      let title : String =
        if str_eq report.title "" then "Code Analysis Report" else report.title in
      (bytes "# "
        ++ (bytes title
            ++ (bytes "\n\n## Table of Contents\n\n"
                ++ (contents all 1 (top_level all) ++ bytes "\n"))))
      ++ rule

  -- `MergeSections`: the last rule is taken off.
  unfoldable pub merge_sections : Report → List ReportSection → Bytes
  unfolding front body top_level
  merge_sections report all = trim_suffix rule (front report all ++ body all (top_level all))
