-- ===== src/Report/Tests.antt =====
-- A report with a section of two subsections, and one that fails.
use verustcode.Base.{
  ℕ, zero, suc, ◌+◌, String, Bool, true, false, Option, none, some, List, [], ◌∷◌, ◌++◌, ◌≡◌, refl,
  inl, inr, All, length, sum_by, map, arith, eq_iff,
}
use verustcode.Base.Int.{pos}
use verustcode.Llm.{bytes}
use verustcode.Process.{good, bad}
use verustcode.Store.{first_where}
use verustcode.Report.{
  Report, ReportSection, ReportStructure, generated, end, and, pending, completed, failed,
  generating,
}
use verustcode.Report.Structure.{structure_to_model, count_leaf_sections}
use verustcode.Report.Layout.{IndexedFrom, Nested, leaf, structure_to_model-IsLaidOut}
use verustcode.Report.Store.{ReportDatabase, get_report, list_pending_or_processing}
use verustcode.Report.Merge.{merge_sections, top_level}
use verustcode.Report.Run.{
  Surroundings, Progress, run, run_structure, run_sections, run_phase1, run_phase2, run_phase3,
  finalize, complete, resume, resume_report, resume_structure, resume_sections,
}
use verustcode.Report.Ended.{Ended, run-Ended}
use verustcode.Report.Sections.{ClosedLeaf, run-closes_leaves}
use verustcode.Report.Creation.{run_phase1-adds, entry, outline_of, Created}
use verustcode.Report.Resumed.{resume-stays_generating}
use verustcode.Report.Document.{merge_sections-drops_children}
use verustcode.Report.Shown.{Has, merge_sections-Has}
use verustcode.Report.Handler.{
  Environment, Server, ReportTask, answer, queue_full, create_report, retry_report, retried,
}
use verustcode.Report.Answers.{Answered, create_report-Answered, retry_report-strands, HasNoTask}
use verustcode.Report.Recovery.{recover_to_queue}
use verustcode.Report.Accounted.{Accounted, recover_to_queue-Accounted}

abbrev outline : ReportStructure
outline = record {
  title = "Guide";
  summary = "";
  sections = and (generated "intro" "Intro" "" end) (
      and
        (generated "parts" "Parts" ""
          (and (generated "a" "First" "" end) (and (generated "b" "Second" "" end) end)))
        end);
}

abbrev env : Surroundings
env = record {
  fails = λ s. false;
  fault = "locked";
  others = λ m db. db;
  started_at = 1;
  completed_at = 9;
  section_started_at = λ i. i + 2;
  section_completed_at = λ i. i + 3;
  prepare_repository = λ r. good "/work";
  generate = λ r path. good outline;
  created_leaf = λ b. b;
  marshal = λ s. bytes "{}";
  unmarshal = λ s. some outline;
  generate_section = λ r s structure path. good (record { content = bytes "text"; summary = "" });
  merge_sections = λ r ss. merge_sections (λ t. t) r ss;
  generate_summary = λ r ss structure path. bad "no answer";
}

abbrev row : Report
row = record {
  id = "p1";
  repo_url = "https://github.com/octo/app";
  ref = "main";
  repo_path = "";
  report_type = "wiki";
  title = "";
  status = pending;
  structure = [];
  total_sections = 0;
  current_section = 0;
  content = [];
  summary = "";
  started_at = none;
  completed_at = none;
  error_message = "";
  retry_count = pos 0;
}

abbrev tables : ReportDatabase
tables = record { reports = row ∷ []; sections = []; next_section_id = 1 }

completes : (run env row tables).1 ≡ none
unfolding run run_structure run_sections run_phase2 run_phase3 finalize complete
completes = refl

run-Ended_example : Ended "p1" (run env row tables).0 (run env row tables).1
run-Ended_example = run-Ended env refl refl refl row tables

run-closes_leaves_example : All (ClosedLeaf "p1") (run env row tables).0.database.sections
run-closes_leaves_example = run-closes_leaves env (λ s. refl) (λ m db. refl) row tables completes

abbrev start : Progress
start = record { database = tables; report = row }

run_phase1-adds_example :
    (new : List ReportSection) × ((run_phase1 env outline start).database.sections ≡ [] ++ new)
    × (map entry new ≡ outline_of outline.sections)
    × IndexedFrom 0 new
    × All (Created "p1") new
    × (((b : Bool) → env.created_leaf b ≡ b)
        → sum_by leaf new ≡ (run_phase1 env outline start).report.total_sections)
    × (((b : Bool) → env.created_leaf b ≡ true) → sum_by leaf new ≡ length new)
run_phase1-adds_example = run_phase1-adds env (λ s. refl) outline start

structure_to_model-IsLaidOut_example :
    IndexedFrom 0 (structure_to_model outline "p1")
    × Nested none (structure_to_model outline "p1")
    × (sum_by leaf (structure_to_model outline "p1") ≡ count_leaf_sections outline)
structure_to_model-IsLaidOut_example = structure_to_model-IsLaidOut outline "p1"

abbrev stopped : Report
stopped = record row {
  status = failed;
  structure = bytes "{}";
  repo_path = "/work";
  error_message = "boom";
}

abbrev stopped_tables : ReportDatabase
stopped_tables = record tables { reports = stopped ∷ [] }

found : get_report "p1" stopped_tables ≡ some stopped
unfolding get_report first_where
found = refl

resumes : (resume env "p1" stopped_tables).1 ≡ none
unfolding resume resume_report resume_structure resume_sections run_phase2 run_phase3 finalize
    get_report first_where
resumes = refl

resume-stays_generating_example :
    (r : Report) × (get_report "p1" (resume env "p1" stopped_tables).0 ≡ some r)
    × (r.status ≡ generating)
resume-stays_generating_example =
    resume-stays_generating env (λ s. refl) "p1" stopped_tables stopped outline found refl refl refl
      resumes

abbrev section : ℕ → String → Option String → Bool → ReportSection
section id name parent is_leaf = record {
  id = id;
  report_id = "p1";
  section_index = id;
  section_id = name;
  parent_section_id = parent;
  is_leaf = is_leaf;
  title = name;
  description = "";
  content = bytes "text";
  summary = "";
  status = completed;
  started_at = none;
  completed_at = none;
  error_message = "";
}

-- A parent stored as a leaf, and one stored as none.
abbrev flat : List ReportSection
flat = section 1 "parts" none true ∷ section 2 "a" (some "parts") true ∷ []

abbrev nested : List ReportSection
nested = section 1 "parts" none false ∷ section 2 "a" (some "parts") true ∷ []

merge_sections-drops_children_example :
    merge_sections (λ t. t) row flat ≡ merge_sections (λ t. t) row (top_level flat)
merge_sections-drops_children_example =
    merge_sections-drops_children (λ t. t) row flat (λ top. refl, (λ top. refl, tt))

merge_sections-Has_example : Has (bytes "text") (merge_sections (λ t. t) row nested)
merge_sections-Has_example =
    merge_sections-Has (λ t. t) row nested (section 2 "a" (some "parts") true) (inr (inl refl)) refl
      (inr (section 1 "parts" none false, inl refl, refl, refl, refl))

abbrev web : Environment
web = record { fails = λ s. false; known_type = λ t. true; new_id = "p2" }

abbrev server : Server
server = record { tasks = []; database = stopped_tables }

abbrev fill : ℕ → List ReportTask
fill zero = []
fill (suc n) = record { report = record row { id = "p0" }; has_callback = false } ∷ fill n

fill-HasNoTask : (n : ℕ) → HasNoTask "p1" (fill n)
fill-HasNoTask zero = tt
fill-HasNoTask (suc n) = (ground (arith, eq_iff "p0" "p1"), fill-HasNoTask n)

abbrev full_server : Server
full_server = record server { tasks = fill 100 }

create_report-Answered_example :
    Answered web
      (record { repo_url = "u"; ref = "main"; report_type = "wiki"; title = "" })
      server
      (create_report web
        (record { repo_url = "u"; ref = "main"; report_type = "wiki"; title = "" })
        server)
create_report-Answered_example =
    create_report-Answered web
      (record { repo_url = "u"; ref = "main"; report_type = "wiki"; title = "" }) server refl refl

retry_report-strands_example :
    (st' : Server) × (retry_report web "p1" full_server ≡ (st', answer 500 queue_full))
    × HasNoTask "p1" st'.tasks
    × (get_report "p1" st'.database ≡ some (retried web stopped))
    × ((retried web stopped).status ≡ pending)
    × (retry_report web "p1" st'
        ≡ (st', answer 400 "Only failed or cancelled reports can be retried"))
retry_report-strands_example =
    retry_report-strands web "p1" full_server stopped refl refl refl found refl refl
      (fill-HasNoTask 100)

recover_to_queue-Accounted_example :
    All
      (λ r.
        Accounted
          (recover_to_queue
            (record {
              config = record { max_retry_count = pos 3; task_timeout_hours = pos 24 };
              describe = λ reason. "no";
              now = λ id. 0;
              writes = λ id. true;
            })
            true
            []
            tables)
          r.id)
      (list_pending_or_processing tables.reports)
recover_to_queue-Accounted_example =
    recover_to_queue-Accounted
      (record {
        config = record { max_retry_count = pos 3; task_timeout_hours = pos 24 };
        describe = λ reason. "no";
        now = λ id. 0;
        writes = λ id. true;
      })
      (λ id. refl) [] tables
