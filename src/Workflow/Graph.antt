-- ===== src/Workflow/Graph.antt =====
-- agent_control/workflow/scheduler.py: `DependencyScheduler.validate`.
-- `ALLOWED_ACTION_KINDS` stands in agent_control/planner/base.py. The test that `params` is a
-- dictionary holds by the type of `params`.
use freaky_monkey.Base.{
  ℕ, zero, suc, ◌+◌, String, Bool, true, false, Option, none, some, List, [], ◌∷◌, ◌++◌, map, not,
  ◌||◌, ◌==◌, str_eq, length, if◌then◌else◌,
}
use freaky_monkey.Base.Dict.{contains, lookup, insert}
use freaky_monkey.Workflow.Status.{StepStatus}
use freaky_monkey.Workflow.Model.{WorkflowStep, Workflow, find_step}
use freaky_monkey.Workflow.Ready.{
  Result, ok, raised, ◌>>=◌, duplicate_ids, empty_id, dependency_cycle, invalid_capability,
  self_dependency, unknown_dependency, impossible_dependency, stop_iteration, key_error,
}

abbrev pub allowed_action_kinds : List String
allowed_action_kinds =
    "launch_app" ∷ "type_text" ∷ "open_url" ∷ "whatsapp_send_message" ∷ "whatsapp_search_contact"
    ∷ "gmail_send_email" ∷ "gmail_search_mail" ∷ "gmail_read_mail" ∷ "browser_open_url"
    ∷ "browser_search" ∷ "browser_get_current_page" ∷ "browser_list_tabs" ∷ "browser_open_new_tab"
    ∷ "browser_switch_tab" ∷ "browser_close_tab" ∷ "browser_go_back" ∷ "browser_go_forward"
    ∷ "browser_refresh" ∷ "browser_page_state" ∷ "browser_extract_text" ∷ "browser_click"
    ∷ "browser_type" ∷ "browser_press_key" ∷ "browser_scroll" ∷ "browser_scroll_to"
    ∷ "browser_select" ∷ "browser_upload_file" ∷ "browser_download_file" ∷ "browser_wait"
    ∷ "browser_borrow_tab" ∷ "browser_return_tab" ∷ "browser_play_song" ∷ "browser_apply_job"
    ∷ "create_dir" ∷ "write_file" ∷ "fetch_file" ∷ "open_file" ∷ "list_directory" ∷ "read_text_file"
    ∷ "search_files" ∷ "create_venv" ∷ "install_requirements" ∷ "run_command" ∷ []

-- `kind in ALLOWED_ACTION_KINDS`
unfoldable pub is_allowed_kind : String → Bool
is_allowed_kind = contains allowed_action_kinds

abbrev pub ids_of : List WorkflowStep → List String
ids_of = map (λ s. s.step_id)

-- `len(ids) != len(set(ids))`
abbrev pub has_duplicate : List String → Bool
has_duplicate [] = false
has_duplicate (k ∷ ks) = contains ks k || has_duplicate ks

-- The loop over the dependencies of a node.
unfoldable pub check_known : List String → String → List String → Result (Unit {0})
check_known known node [] = ok tt
check_known known node (d ∷ ds) =
    if not (contains known d) then raised (unknown_dependency d node) else check_known known node ds

-- The body of the first loop over the nodes.
unfoldable pub check_node : List String → WorkflowStep → Result (Unit {0})
check_node known s =
    if str_eq s.step_id ""
    then raised empty_id
    else if str_eq s.action.kind "" || not (is_allowed_kind s.action.kind)
    then raised (invalid_capability s.step_id)
    else if contains s.dependencies s.step_id
    then raised (self_dependency s.step_id)
    else check_known known s.step_id s.dependencies

unfoldable pub check_nodes : List String → List WorkflowStep → Result (Unit {0})
check_nodes known [] = ok tt
check_nodes known (s ∷ ss) = check_node known s >>= λ _. check_nodes known ss

-- An in-degree: Python's integer, which a decrement may take below zero.
pub data Degree : Type 0 where
  count : ℕ → Degree
  below : ℕ → Degree

abbrev pub incr : Degree → Degree
incr (count n) = count (suc n)
incr (below zero) = count 0
incr (below (suc n)) = below n

abbrev pub decr : Degree → Degree
decr (count zero) = below 0
decr (count (suc n)) = count n
decr (below n) = below (suc n)

abbrev pub is_zero : Degree → Bool
is_zero (count zero) = true
is_zero _ = false

abbrev pub Degrees : Type 0
Degrees = List (String × Degree)

abbrev pub Children : Type 0
Children = List (String × List String)

unfoldable pub zero_degrees : List WorkflowStep → Degrees
zero_degrees = map (λ s. (s.step_id, count 0))

unfoldable pub no_children : List WorkflowStep → Children
no_children = map (λ s. (s.step_id, []))

-- The loop over the dependencies of a node: an edge from each of them.
unfoldable pub add_edges : String → List String → Degrees × Children → Result (Degrees × Children)
add_edges node [] g = ok g
add_edges node (d ∷ ds) (degrees, children) = elim (lookup node degrees) [
  | none ↦ raised key_error
  | some n ↦ elim (lookup d children) [
    | none ↦ raised key_error
    | some cs ↦
        add_edges node ds (insert node (incr n) degrees, insert d (cs ++ (node ∷ [])) children)
  ]
]

unfoldable pub add_all_edges : List WorkflowStep → Degrees × Children → Result (Degrees × Children)
add_all_edges [] g = ok g
add_all_edges (s ∷ ss) g = add_edges s.step_id s.dependencies g >>= λ g'. add_all_edges ss g'

-- The nodes of degree zero, the last one on top: `queue.pop()` takes the last.
unfoldable pub sources : Degrees → List String → List String
sources [] queue = queue
sources ((k, n) ∷ m) queue = sources m (if is_zero n then k ∷ queue else queue)

-- The loop over the children of a node that was taken.
unfoldable pub release_children :
    List String → Degrees → List String → Result (Degrees × List String)
release_children [] degrees queue = ok (degrees, queue)
release_children (c ∷ cs) degrees queue = elim (lookup c degrees) [
  | none ↦ raised key_error
  | some n ↦
      release_children cs (insert c (decr n) degrees)
        (if is_zero (decr n) then c ∷ queue else queue)
]

-- `while queue`, on fuel: `none` means that the fuel ran out.
unfoldable pub kahn : ℕ → Children → List String → Degrees → ℕ → Option (Result ℕ)
kahn fuel children [] degrees visited = some (ok visited)
kahn zero children (k ∷ queue) degrees visited = none
kahn (suc fuel) children (k ∷ queue) degrees visited = elim (lookup k children) [
  | none ↦ some (raised key_error)
  | some cs ↦ elim (release_children cs degrees queue) [
    | raised e ↦ some (raised e)
    | ok (degrees', queue') ↦ kahn fuel children queue' degrees' (visited + 1)
  ]
]

-- The count of visited nodes. The fuel is the number of nodes, which is always enough.
unfoldable pub visited_count : List WorkflowStep → Option (Result ℕ)
visited_count steps = elim (add_all_edges steps (zero_degrees steps, no_children steps)) [
  | raised e ↦ some (raised e)
  | ok (degrees, children) ↦ kahn (length steps) children (sources degrees []) degrees 0
]

unfoldable pub check_acyclic : List WorkflowStep → Option (Result (Unit {0}))
check_acyclic steps = elim (visited_count steps) [
  | none ↦ none
  | some (raised e) ↦ some (raised e)
  | some (ok n) ↦ some (if n == length steps then ok tt else raised dependency_cycle)
]

-- CANCELLED and BLOCKED: a prerequisite that cannot complete any more.
abbrev pub is_impossible : StepStatus → Bool
is_impossible StepStatus.cancelled = true
is_impossible StepStatus.blocked = true
is_impossible _ = false

unfoldable pub check_possible : List WorkflowStep → String → List String → Result (Unit {0})
check_possible steps node [] = ok tt
check_possible steps node (d ∷ ds) = elim (find_step d steps) [
  | none ↦ raised stop_iteration
  | some p ↦
      if is_impossible p.status
      then raised (impossible_dependency d node)
      else check_possible steps node ds
]

unfoldable pub check_all_possible : List WorkflowStep → List WorkflowStep → Result (Unit {0})
check_all_possible steps [] = ok tt
check_all_possible steps (s ∷ ss) =
    check_possible steps s.step_id s.dependencies >>= λ _. check_all_possible steps ss

unfoldable pub validate : Workflow → Option (Result (Unit {0}))
validate w =
    if has_duplicate (ids_of w.steps)
    then some (raised duplicate_ids)
    else elim (check_nodes (ids_of w.steps) w.steps) [
      | raised e ↦ some (raised e)
      | ok _ ↦ elim (check_acyclic w.steps) [
        | none ↦ none
        | some (raised e) ↦ some (raised e)
        | some (ok _) ↦ some (check_all_possible w.steps w.steps)
      ]
    ]
